-- ===== src/Go/Path/Join.antt =====
-- Join appends file names to a directory.
use slopvmrunner.Prelude.{
  ℕ, ◌≡◌, ◌∙◌, ◌≢◌, refl, sym, ap, Bool, true, false, List, [], ◌∷◌, ◌++◌, arith, All, append-nil,
  ◌==◌, if◌then◌else◌,
}
use slopvmrunner.Go.Strings.{Text}
use slopvmrunner.Go.Path.{
  slash, add_to_first, segments, with_slashes, Cleaned, rev_onto, go_up, step, walk, parse,
  is_rooted, or_dot, elements, render, clean, join,
}
use slopvmrunner.Go.Path.Elements.{
  IsName, segments-with_slashes, rev_onto-All, rev_onto-rev_onto, All-IsElement,
}
use slopvmrunner.Go.Path.Clean.{IsNormal, parse-IsNormal, parse-render, walk-names}

-- A directory with further elements below it.
unfoldable pub extend : Cleaned → List Text → Cleaned
unfolding rev_onto
extend p cs = record p { names = rev_onto cs p.names }

-- The path of the names below a directory.
pub below_dir : Text → List Text → Text
below_dir root ws = render (extend (parse root) ws)

cut-nonempty :
    (c : ℕ) (rest : List Text) → (if c == slash then [] ∷ rest else add_to_first c rest) ≢ []
unfolding add_to_first
cut-nonempty c [] e = ground (arith, e)
cut-nonempty c (w ∷ ws) e = ground (arith, e)

segments-nonempty : (s : Text) → segments s ≢ []
unfolding segments
segments-nonempty [] e = cc e
segments-nonempty (c ∷ s) e = cut-nonempty c (segments s) e

add_to_first-append :
    (c : ℕ) (xs ys : List Text) → xs ≢ [] → add_to_first c (xs ++ ys) ≡ add_to_first c xs ++ ys
unfolding add_to_first
add_to_first-append c [] ys n = absurd (n refl)
add_to_first-append c (x ∷ xs) ys n = refl

segments-append : (a b : Text) → segments (a ++ slash ∷ b) ≡ segments a ++ segments b
unfolding segments
segments-append [] b = refl
segments-append (c ∷ a) b = ground (
  arith,
  segments-append a b,
  add_to_first-append c (segments a) (segments b) (segments-nonempty a),
)

walk-append : (xs ys : List Text) (p : Cleaned) → walk p (xs ++ ys) ≡ walk (walk p xs) ys
unfolding walk
walk-append [] ys p = refl
walk-append (x ∷ xs) ys p = walk-append xs ys (step p x)

is_rooted-append : (a b : Text) → a ≢ [] → is_rooted (a ++ b) ≡ is_rooted a
unfolding is_rooted
is_rooted-append [] b n = absurd (n refl)
is_rooted-append (c ∷ a) b n = refl

parse-below :
    (root w : Text) (ws : List Text)
    → root ≢ []
    → All IsName (w ∷ ws)
    → parse (root ++ slash ∷ with_slashes (w ∷ ws)) ≡ extend (parse root) (w ∷ ws)
unfolding parse extend
parse-below root w ws n h = rw (is_rooted-append root (slash ∷ with_slashes (w ∷ ws)) n) (
    ap (walk _) (segments-append root (with_slashes (w ∷ ws)))
    ∙ walk-append (segments root) _ _
    ∙ ap (walk _) (segments-with_slashes w ws (All-IsElement (w ∷ ws) h))
    ∙ walk-names (w ∷ ws) _ h)

pub join-below :
    (root w : Text) (ws : List Text)
    → root ≢ []
    → All IsName (w ∷ ws)
    → join (root ∷ w ∷ ws) ≡ below_dir root (w ∷ ws)
unfolding below_dir join clean with_slashes
join-below [] w ws n h = absurd (n refl)
join-below (c ∷ s) w ws n h = ap render (parse-below (c ∷ s) w ws n h)

-- Names appended twice are appended once.
pub rev_onto_append :
    (ws vs acc : List Text) → rev_onto (ws ++ vs) acc ≡ rev_onto vs (rev_onto ws acc)
unfolding rev_onto
rev_onto_append [] vs acc = refl
rev_onto_append (w ∷ ws) vs acc = rev_onto_append ws vs (w ∷ acc)

extend-IsNormal :
    (p : Cleaned) (ws : List Text) → IsNormal p → All IsName ws → IsNormal (extend p ws)
unfolding extend
extend-IsNormal p ws h k = record {
  names_only = rev_onto-All IsName ws p.names k h.names_only;
  root_top = h.root_top;
}

parse-below_dir :
    (root : Text) (ws : List Text)
    → All IsName ws
    → parse (below_dir root ws) ≡ extend (parse root) ws
unfolding below_dir
parse-below_dir root ws h = parse-render _ (extend-IsNormal (parse root) ws (parse-IsNormal root) h)

or_dot-nonempty : (s : Text) → or_dot s ≢ []
unfolding or_dot
or_dot-nonempty [] e = cc e
or_dot-nonempty (c ∷ s) e = cc e

render-nonempty : (p : Cleaned) → render p ≢ []
unfolding render
render-nonempty p e = either p.rooted e
  where
    either :
        (b : Bool)
        → (if b then slash ∷ with_slashes (elements p) else or_dot (with_slashes (elements p))) ≢ []
    either true e = cc e
    either false e = or_dot-nonempty _ e

pub below_dir-nonempty : (root : Text) (ws : List Text) → below_dir root ws ≢ []
unfolding below_dir
below_dir-nonempty root ws = render-nonempty _

pub join-below_dir :
    (root w : Text) (ws vs : List Text)
    → All IsName vs
    → All IsName (w ∷ ws)
    → join (below_dir root vs ∷ w ∷ ws) ≡ below_dir root (vs ++ w ∷ ws)
join-below_dir root w ws vs h k =
    join-below (below_dir root vs) w ws (below_dir-nonempty root vs) k
    ∙ (unfold below_dir extend in
        ap render (
          ap (λ p. extend p (w ∷ ws)) (parse-below_dir root vs h)
          ∙ ap (λ ns. record (parse root) { names = ns })
              (sym (rev_onto_append vs (w ∷ ws) (parse root).names))))

rev_onto_under : (acc xs ys : List Text) → rev_onto acc xs ≡ rev_onto acc ys → xs ≡ ys
unfolding rev_onto
rev_onto_under [] xs ys e = e
rev_onto_under (a ∷ acc) xs ys e = let k = rev_onto_under acc (a ∷ xs) (a ∷ ys) e in cc k

rev_onto-injective : (ws vs acc : List Text) → rev_onto ws acc ≡ rev_onto vs acc → ws ≡ vs
rev_onto-injective ws vs acc e = rev_onto_under acc ws vs (
    rw (← append-nil ws) (
      rw (← append-nil vs) (
        sym (rev_onto-rev_onto ws acc [])
        ∙ ap (λ l. rev_onto l []) e
        ∙ rev_onto-rev_onto vs acc [])))

-- Different names below a directory are different paths.
pub below_dir-injective :
    (root : Text) (ws vs : List Text)
    → All IsName ws
    → All IsName vs
    → below_dir root ws ≡ below_dir root vs
    → ws ≡ vs
below_dir-injective root ws vs h k e =
    let same = sym (parse-below_dir root ws h) ∙ ap parse e ∙ parse-below_dir root vs k in
    rev_onto-injective ws vs (parse root).names (unfold extend in ap (λ p. p.names) same)

go_up-rooted : (p : Cleaned) → (go_up p).rooted ≡ p.rooted
unfolding go_up
go_up-rooted p = ground arith

step-rooted : (p : Cleaned) (w : Text) → (step p w).rooted ≡ p.rooted
unfolding step
step-rooted p w = ground (arith, go_up-rooted p)

walk-rooted : (ws : List Text) (p : Cleaned) → (walk p ws).rooted ≡ p.rooted
unfolding walk
walk-rooted [] p = refl
walk-rooted (w ∷ ws) p = walk-rooted ws (step p w) ∙ step-rooted p w

render-rooted : (p : Cleaned) → p.rooted ≡ true → is_rooted (render p) ≡ true
unfolding render is_rooted
render-rooted p h = rw h refl

-- Cleaning keeps an absolute path absolute.
pub clean-rooted : (s : Text) → is_rooted s ≡ true → is_rooted (clean s) ≡ true
unfolding clean parse
clean-rooted s h = render-rooted (walk _ (segments s)) (walk-rooted (segments s) _ ∙ h)

pub join-rooted : (s : Text) (ws : List Text) → is_rooted (join ((slash ∷ s) ∷ ws)) ≡ true
unfolding join
join-rooted s ws = clean-rooted (with_slashes ((slash ∷ s) ∷ ws)) (rooted_text s ws)
  where
    rooted_text : (s : Text) (ws : List Text) → is_rooted (with_slashes ((slash ∷ s) ∷ ws)) ≡ true
    rooted_text s [] = unfold with_slashes is_rooted in refl
    rooted_text s (w ∷ ws) = unfold with_slashes is_rooted in refl

-- A join with a text that is not empty is not empty.
pub join-nonempty : (a c : Text) (ws : List Text) → c ≢ [] → join (a ∷ c ∷ ws) ≢ []
unfolding join clean
join-nonempty [] [] ws n = absurd (n refl)
join-nonempty [] (d ∷ c) ws n = render-nonempty (parse (with_slashes ((d ∷ c) ∷ ws)))
join-nonempty (b ∷ a) c ws n = render-nonempty (parse (with_slashes ((b ∷ a) ∷ c ∷ ws)))
