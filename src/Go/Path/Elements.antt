-- ===== src/Go/Path/Elements.antt =====
-- Elements of a path: cutting at the slashes undoes joining with slashes.
use slopvmrunner.Prelude.{
  Bool, true, false, not, ◌&&◌, ℕ, zero, suc, ◌≡◌, ◌∙◌, refl, ap, false, List, [], ◌∷◌, ◌++◌, arith,
  All, ◌==◌, if◌then◌else◌,
}
use slopvmrunner.Go.Strings.{Text, is_empty, eq}
use slopvmrunner.Go.Strings.Laws.{eq_iff}
use slopvmrunner.Go.Path.{slash, dot, dot_dot, add_to_first, segments, with_slashes, rev_onto, dots}

-- No slash in it.
abbrev pub IsElement : Text → Type 0
IsElement = All (λ c. (c == slash) ≡ false)

-- The name of a file: an element that is not "", "." or "..".
pub record IsName (w : Text) : Type 0 where
  pub element : IsElement w
  pub nonempty : is_empty w ≡ false
  pub not_dot : eq w dot ≡ false
  pub not_dot_dot : eq w dot_dot ≡ false

segments_cut : (w s : Text) → IsElement w → segments (w ++ slash ∷ s) ≡ w ∷ segments s
unfolding segments
segments_cut [] s h = refl
segments_cut (c ∷ w) s (hc, h) = ground (arith, segments_cut w s h)

segments_one : (w : Text) → IsElement w → segments w ≡ w ∷ []
unfolding segments
segments_one [] h = refl
segments_one (c ∷ w) (hc, h) = ground (arith, segments_one w h)

pub segments-with_slashes :
    (w : Text) (ws : List Text) → All IsElement (w ∷ ws) → segments (with_slashes (w ∷ ws)) ≡ w ∷ ws
unfolding with_slashes
segments-with_slashes w [] (h, hs) = segments_one w h
segments-with_slashes w (v ∷ ws) (h, hs) =
    segments_cut w (with_slashes (v ∷ ws)) h ∙ ap (λ l. w ∷ l) (segments-with_slashes v ws hs)

pub segments-IsElement : (s : Text) → All IsElement (segments s)
unfolding segments
segments-IsElement [] = (tt, tt)
segments-IsElement (c ∷ s) = add c (segments s) (segments-IsElement s)
  where
    add :
        (c : ℕ) (rest : List Text)
        → All IsElement rest
        → All IsElement (if c == slash then [] ∷ rest else add_to_first c rest)
    add c [] h = ground arith
    add c (w ∷ ws) h = ground arith

pub rev_onto-All {ℓ} :
    (P : Text → Type ℓ) (ws acc : List Text) → All P ws → All P acc → All P (rev_onto ws acc)
unfolding rev_onto
rev_onto-All P [] acc h k = k
rev_onto-All P (w ∷ ws) acc h k = rev_onto-All P ws (w ∷ acc) h.1 (h.0, k)

-- Turning a list round twice.
pub rev_onto-rev_onto :
    (ws acc rest : List Text) → rev_onto (rev_onto ws acc) rest ≡ rev_onto acc (ws ++ rest)
unfolding rev_onto
rev_onto-rev_onto [] acc rest = refl
rev_onto-rev_onto (w ∷ ws) acc rest = rev_onto-rev_onto ws (w ∷ acc) rest

pub rev_onto-append :
    (ws acc rest : List Text) → rev_onto ws (acc ++ rest) ≡ rev_onto ws acc ++ rest
unfolding rev_onto
rev_onto-append [] acc rest = refl
rev_onto-append (w ∷ ws) acc rest = rev_onto-append ws (w ∷ acc) rest

pub dots-IsElement : (n : ℕ) (ws : List Text) → All IsElement ws → All IsElement (dots n ws)
unfolding dots
dots-IsElement zero ws h = h
dots-IsElement (suc n) ws h = ((refl, (refl, tt)), dots-IsElement n ws h)

pub All-IsElement : (ws : List Text) → All IsName ws → All IsElement ws
All-IsElement [] h = tt
All-IsElement (w ∷ ws) h = (h.0.element, All-IsElement ws h.1)

-- The first element, if there is one, is not "..".
abbrev pub StartsBelow : List Text → Type 0
StartsBelow [] = Unit
StartsBelow (w ∷ ws) = eq w dot_dot ≡ false

pub All-StartsBelow : (ws : List Text) → All IsName ws → StartsBelow ws
All-StartsBelow [] h = tt
All-StartsBelow (w ∷ ws) h = h.0.not_dot_dot

-- The number of ".." in front, and what follows, can be read off the elements.
pub dots-injective :
    (m n : ℕ) (ws vs : List Text)
    → StartsBelow ws
    → StartsBelow vs
    → dots m ws ≡ dots n vs
    → (m ≡ n) × (ws ≡ vs)
unfolding dots
dots-injective zero zero ws vs h k e = (refl, e)
dots-injective zero (suc n) [] vs h k e = cc
dots-injective zero (suc n) (w ∷ ws) vs h k e = ground (arith, eq_iff w dot_dot)
dots-injective (suc m) zero ws [] h k e = cc
dots-injective (suc m) zero ws (v ∷ vs) h k e = ground (arith, eq_iff v dot_dot)
dots-injective (suc m) (suc n) ws vs h k e = ground (arith, dots-injective m n ws vs h k)

-- The test for a file's name.
unfoldable pub is_element : Text → Bool
is_element [] = true
is_element (c ∷ w) = not (c == slash) && is_element w

unfoldable pub is_name : Text → Bool
unfolding is_element
is_name w = is_element w && not (is_empty w) && not (eq w dot) && not (eq w dot_dot)

is_element-IsElement : (w : Text) → is_element w ≡ true → IsElement w
unfolding is_element
is_element-IsElement [] h = tt
is_element-IsElement (c ∷ w) h = (ground (arith, h), is_element-IsElement w (ground (arith, h)))

pub is_name-IsName : (w : Text) → is_name w ≡ true → IsName w
unfolding is_name
is_name-IsName w h = record {
  element = is_element-IsElement w (ground (arith, h));
  nonempty = ground (arith, h);
  not_dot = ground (arith, h);
  not_dot_dot = ground (arith, h);
}
