-- ===== src/Vm/Archive/Within.antt =====
-- A path that safeJoin returns lies in the root directory.
use slopvmrunner.Prelude.{
  ◌≡◌, ◌⊎◌, ◌∙◌, ◌≢◌, refl, sym, ap, false, Option, none, some, List, [], ◌∷◌, arith, All, ◌==◌,
  Bool-cases, inl, inr, ok, err, Result,
}
use slopvmrunner.Go.Strings.{Text, is_empty, eq}
use slopvmrunner.Go.Strings.Laws.{eq_iff}
use slopvmrunner.Go.Path.{
  slash, dot, segments, with_slashes, Cleaned, rev_onto, parse, walk, render, clean, join, rel,
}
use slopvmrunner.Go.Path.Elements.{IsName}
use slopvmrunner.Go.Path.Clean.{parse-IsNormal, clean_idem}
use slopvmrunner.Vm.Archive.{
  JoinError, escapes_root, escapes, check_inside, place, safe_join, strip_slashes,
}
use slopvmrunner.Go.Path.Join.{extend}
use slopvmrunner.Vm.Archive.Relative.{rel-cases, inside}

-- `full` is the cleaned root with further names behind it.
pub data IsBelow (root full : Text) : Type 0 where
  below :
      (cs : List Text) → All IsName cs → full ≡ render (extend (parse root) cs) → IsBelow root full

check_inside-ok :
    (full : Text) (o : Option Text) {g : Text}
    → check_inside full o ≡ ok g
    → (r : Text) × (o ≡ some r) × (escapes r ≡ false) × (g ≡ full)
unfolding check_inside
check_inside-ok full none e = cc
check_inside-ok full (some r) e = elim (Bool-cases (escapes r)) [
  | inl out ↦ absurd (no_error (rw out at e))
  | inr stays ↦ (r, refl, stays, same (rw stays at e))
]
  where
    no_error : {g : Text} → ◌≡◌ {A = Result JoinError Text} (err escapes_root) (ok g) → ⊥
    no_error h = cc

    same : {g : Text} → ◌≡◌ {A = Result JoinError Text} (ok full) (ok g) → g ≡ full
    same h = cc

place-ok :
    (root full : Text) {g : Text}
    → place root full ≡ ok g
    → (r : Text) × (rel root full ≡ some r) × (escapes r ≡ false) × (g ≡ full)
unfolding place
place-ok root full e = check_inside-ok full (rel root full) e

extend-nil : (p : Cleaned) → extend p [] ≡ p
unfolding extend rev_onto
extend-nil p = refl

place-IsBelow :
    (root full : Text) {g : Text}
    → render (parse full) ≡ full
    → place root full ≡ ok g
    → IsBelow root g
place-IsBelow root full c e =
    let (r, found, stays, same) = place-ok root full e in
    elim (rel-cases root full r found) [
      | inl equal ↦ below [] tt (same ∙ sym c ∙ equal ∙ ap render (sym (extend-nil (parse root))))
      | inr (root_same, cut) ↦
          let (cs, names, q) =
            inside (parse root) (parse full) r (parse-IsNormal root) (parse-IsNormal full) root_same
              cut stays in
          below cs names (same ∙ sym c ∙ ap render q)
    ]

-- A path of slashes alone.
walk-slashes : (s : Text) (p : Cleaned) → strip_slashes s ≡ [] → walk p (segments s) ≡ p
unfolding walk segments strip_slashes is_empty
walk-slashes [] p h = refl
walk-slashes (c ∷ s) p h = ground (arith, walk-slashes s p)

clean-slashes : (s : Text) → strip_slashes s ≡ [] → (clean s ≡ dot) ⊎ (clean s ≡ slash ∷ [])
unfolding clean
clean-slashes [] h = inl refl
clean-slashes (c ∷ s) h =
    rw (walk-slashes (c ∷ s) (record { rooted = c == slash; ups = 0; names = [] }) h) (ground arith)

joined-clean :
    (root s : Text) → s ≢ [] → render (parse (join (root ∷ s ∷ []))) ≡ join (root ∷ s ∷ [])
joined-clean [] [] h = absurd (h refl)
joined-clean [] (c ∷ s) h = unfold join clean in clean_idem (c ∷ s)
joined-clean (c ∷ root) s h = unfold join clean in clean_idem (with_slashes ((c ∷ root) ∷ s ∷ []))

abbrev joined : Text → Text → Text
joined root name = join (root ∷ strip_slashes (clean name) ∷ [])

safe_join-ok :
    (root name : Text) {full : Text}
    → safe_join root name ≡ ok full
    → (eq (clean name) dot ≡ false)
      × (eq (clean name) (slash ∷ []) ≡ false)
      × (place root (joined root name) ≡ ok full)
unfolding safe_join
safe_join-ok root name h = ground arith

strip_slashes-ne-nil :
    (name : Text)
    → eq (clean name) dot ≡ false
    → eq (clean name) (slash ∷ []) ≡ false
    → strip_slashes (clean name) ≢ []
strip_slashes-ne-nil name a b h = elim (clean-slashes (clean name) h) [
  | inl e ↦ cc ((eq_iff (clean name) dot).1 (sym (clean_idem name) ∙ e))
  | inr e ↦ cc ((eq_iff (clean name) (slash ∷ [])).1 (sym (clean_idem name) ∙ e))
]

-- Whatever the archive names an entry, the path that safeJoin returns for it is the cleaned root
-- directory followed by file names: none of them is empty, "." or "..", or holds a slash.
pub safe_join-IsBelow :
    (root name : Text) {full : Text} → safe_join root name ≡ ok full → IsBelow root full
safe_join-IsBelow root name {full} h =
    let (a, b, e) = safe_join-ok root name h in
    place-IsBelow root (joined root name)
      (joined-clean root (strip_slashes (clean name)) (strip_slashes-ne-nil name a b)) e
