-- ===== src/Vm/Archive/Relative.antt =====
-- What filepath.Rel finds for a path in the root directory.
use slopvmrunner.Prelude.{
  ℕ, zero, suc, ◌≡◌, ◌⊎◌, ◌∙◌, ◌≢◌, refl, sym, ap, true, false, some, List, [], ◌∷◌, ◌++◌, arith,
  All, inl, inr,
}
use slopvmrunner.Go.Strings.{Text}
use slopvmrunner.Go.Strings.Laws.{eq_iff}
use slopvmrunner.Go.Path.{
  dot, dot_dot, with_slashes, Cleaned, rev_onto, dots, elements, parse, render, rel, differ,
  relative, ups_for, target_elements, same_root,
}
use slopvmrunner.Go.Path.Join.{extend, rev_onto_append}
use slopvmrunner.Go.Path.Elements.{
  IsName, StartsBelow, dots-injective, All-StartsBelow, rev_onto-All,
}
use slopvmrunner.Go.Path.Clean.{IsNormal, rev_onto-rev_onto-nil}
use slopvmrunner.Vm.Archive.{escapes}

differ-append : (bs ts : List Text) → (differ bs ts).0 ≡ [] → ts ≡ bs ++ (differ bs ts).1
unfolding differ
differ-append [] ts h = refl
differ-append (b ∷ bs) [] h = cc
differ-append (b ∷ bs) (t ∷ ts) h = ground (arith, eq_iff b t, differ-append bs ts)

-- A relative path that begins with ".." is refused.
escapes-with_slashes : (ws : List Text) → escapes (with_slashes (dot_dot ∷ ws)) ≡ true
unfolding escapes with_slashes
escapes-with_slashes [] = refl
escapes-with_slashes (w ∷ ws) = refl

-- What the test lets through has no way up left and goes down first.
relative-inside :
    (bs ts : List Text) (r : Text)
    → relative bs ts ≡ some r
    → escapes r ≡ false
    → (bs ≡ []) × StartsBelow ts
unfolding relative
relative-inside [] [] r e h = (refl, tt)
relative-inside [] (t ∷ ts) r e h =
    (refl, ground (arith, eq_iff t dot_dot, escapes-with_slashes ts))
relative-inside (b ∷ bs) [] r e h = ground (arith, escapes-with_slashes (ups_for bs []))
relative-inside (b ∷ bs) (t ∷ ts) r e h = ground (arith, escapes-with_slashes (ups_for bs (t ∷ ts)))

pub rel-cases :
    (base target p : Text)
    → rel base target ≡ some p
    → (render (parse target) ≡ render (parse base))
      ⊎ ((same_root (parse base) (parse target) ≡ true)
          × (relative
                (differ (elements (parse base)) (target_elements (parse target))).0
                (differ (elements (parse base)) (target_elements (parse target))).1
              ≡ some p))
unfolding rel
rel-cases base target p e = ground (arith, eq_iff (render (parse target)) (render (parse base)))

dots-append : (n : ℕ) (ws vs : List Text) → dots n ws ++ vs ≡ dots n (ws ++ vs)
unfolding dots
dots-append zero ws vs = refl
dots-append (suc n) ws vs = ap (λ l. dot_dot ∷ l) (dots-append n ws vs)

StartsBelow-append : (ws vs : List Text) → StartsBelow ws → StartsBelow vs → StartsBelow (ws ++ vs)
StartsBelow-append [] vs h k = k
StartsBelow-append (w ∷ ws) vs h k = h

All-append_right : (ws vs : List Text) → All IsName (ws ++ vs) → All IsName vs
All-append_right [] vs h = h
All-append_right (w ∷ ws) vs h = All-append_right ws vs h.1

same_root_eq : (p q : Cleaned) → same_root p q ≡ true → p.rooted ≡ q.rooted
unfolding same_root
same_root_eq p q h = ground arith

ordered-IsName : (p : Cleaned) → IsNormal p → All IsName (rev_onto p.names [])
ordered-IsName p h = rev_onto-All IsName p.names [] h.names_only tt

-- If the elements of one normal form continue those of another, it lies below the other.
extend-elements :
    (p q : Cleaned) (ts : List Text)
    → IsNormal p
    → IsNormal q
    → p.rooted ≡ q.rooted
    → StartsBelow ts
    → elements q ≡ elements p ++ ts
    → All IsName ts × (q ≡ extend p ts)
unfolding elements extend
extend-elements p q ts hp hq r below e =
    let (u, o) =
      dots-injective q.ups p.ups (rev_onto q.names []) (rev_onto p.names [] ++ ts)
        (All-StartsBelow _ (ordered-IsName q hq))
        (StartsBelow-append _ ts (All-StartsBelow _ (ordered-IsName p hp)) below)
        (e ∙ dots-append p.ups (rev_onto p.names []) ts) in
    let n : q.names ≡ rev_onto ts p.names =
      sym (rev_onto-rev_onto-nil q.names)
      ∙ ap (λ l. rev_onto l []) o
      ∙ rev_onto_append (rev_onto p.names []) ts []
      ∙ ap (rev_onto ts) (rev_onto-rev_onto-nil p.names) in
    (
      All-append_right (rev_onto p.names []) ts (rw o at (ordered-IsName q hq)),
      λ i. record { rooted = sym r i; ups = u i; names = n i },
    )

-- A list of elements is the target's own, but for the path ".".
target_elements-cases :
    (q : Cleaned)
    → (target_elements q ≡ elements q)
      ⊎ ((elements q ≡ []) × (target_elements q ≡ dot ∷ []) × (q.rooted ≡ false))
unfolding target_elements
target_elements-cases q = ground arith

-- No normal form has "." among its elements.
dots-ne-dot : (u : ℕ) (ns ws : List Text) → All IsName ns → dots u ns ≢ dot ∷ ws
unfolding dots
dots-ne-dot zero [] ws k e = cc
dots-ne-dot zero (n ∷ ns) ws k e = ground (arith, eq_iff n dot)
dots-ne-dot (suc u) ns ws k e = cc

elements-ne-dot : (p : Cleaned) (ws : List Text) → IsNormal p → elements p ≢ dot ∷ ws
unfolding elements
elements-ne-dot p ws h = dots-ne-dot p.ups (rev_onto p.names []) ws (ordered-IsName p h)

-- The cut of a target's elements behind the base's is a cut of its own elements.
own_elements :
    (p q : Cleaned) (ts : List Text)
    → IsNormal p
    → target_elements q ≡ elements p ++ ts
    → (elements q ≡ elements p ++ ts) ⊎ ((elements q ≡ []) × (elements p ≡ []))
own_elements p q ts hp e = elim (target_elements-cases q) [
  | inl own ↦ inl (sym own ∙ e)
  | inr (nothing, one, _) ↦ inr (nothing, base (elements p) one refl)
]
  where
    base : (es : List Text) → target_elements q ≡ dot ∷ [] → elements p ≡ es → es ≡ []
    base [] one k = refl
    base (x ∷ xs) one k =
        let head : x ≡ dot = ground arith in
        absurd (elements-ne-dot p xs hp (k ∙ ap (λ w. w ∷ xs) head))

-- What filepath.Rel and the test let through lies below the base.
pub inside :
    (p q : Cleaned) (r : Text)
    → IsNormal p
    → IsNormal q
    → same_root p q ≡ true
    → relative
        (differ (elements p) (target_elements q)).0
        (differ (elements p) (target_elements q)).1
      ≡ some r
    → escapes r ≡ false
    → (cs : List Text) × All IsName cs × (q ≡ extend p cs)
inside p q r hp hq same e esc =
    let ts = (differ (elements p) (target_elements q)).1 in
    let (none_left, below) = relative-inside _ ts r e esc in
    elim (own_elements p q ts hp (differ-append _ _ none_left)) [
      | inl own ↦
          let (a, b) = extend-elements p q ts hp hq (same_root_eq p q same) below own in (ts, a, b)
      | inr (nothing, none_there) ↦
          let (a, b) =
            extend-elements p q [] hp hq (same_root_eq p q same) tt
              (rw (nothing, none_there) refl) in
          ([], a, b)
    ]
