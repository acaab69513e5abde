-- ===== src/Go/Strings/Words.antt =====
-- strings.Fields on texts that are put together from words.
use slopvmrunner.Prelude.{
  ◌≡◌, ◌∙◌, ◌≢◌, refl, Bool, true, false, List, [], ◌∷◌, ◌++◌, arith, append_assoc, append-nil,
  if◌then◌else◌,
}
use slopvmrunner.Go.Strings.{Text, text, is_space, flush, fields_from, words}
use slopvmrunner.Go.Strings.Laws.{NoSpace}

flush-append : (w : Text) (xs ys : List Text) → flush w (xs ++ ys) ≡ flush w xs ++ ys
unfolding flush
flush-append [] xs ys = refl
flush-append (c ∷ w) xs ys = refl

fields_from-append :
    (s w t : Text) → fields_from w (s ++ b' ' ∷ t) ≡ fields_from w s ++ fields_from [] t
unfolding fields_from
fields_from-append [] w t = flush-append w [] (fields_from [] t)
fields_from-append (c ∷ s) w t = ground (
  arith,
  fields_from-append s [] t,
  fields_from-append s (w ++ c ∷ []) t,
  flush-append w (fields_from [] s) (fields_from [] t),
)

-- A space ends the words before it.
pub words-append : (s t : Text) → words (s ++ b' ' ∷ t) ≡ words s ++ words t
unfolding words
words-append s t = fields_from-append s [] t

fields_from-NoSpace : (s w : Text) → NoSpace s → fields_from w s ≡ flush (w ++ s) []
unfolding fields_from
fields_from-NoSpace [] w h = rw append-nil
fields_from-NoSpace (c ∷ s) w (hc, h) =
    ground (arith, fields_from-NoSpace s (w ++ c ∷ []) h, append_assoc w (c ∷ []) s)

-- A text with no space is one word.
pub words-NoSpace : (s : Text) → s ≢ [] → NoSpace s → words s ≡ s ∷ []
unfolding words
words-NoSpace [] k h = absurd (k refl)
words-NoSpace (c ∷ s) k h = fields_from-NoSpace (c ∷ s) [] h ∙ (unfold flush in refl)

pub NoSpace-append : (s t : Text) → NoSpace s → NoSpace t → NoSpace (s ++ t)
NoSpace-append [] t h k = k
NoSpace-append (c ∷ s) t h k = (h.0, NoSpace-append s t h.1 k)

unfoldable pub no_space : Text → Bool
unfolding is_space text
no_space [] = true
no_space (c ∷ s) = let rest = no_space s in if is_space c then false else rest

-- To check a literal by evaluation.
pub no_space_sound : (s : Text) → no_space s ≡ true → NoSpace s
unfolding no_space
no_space_sound [] h = tt
no_space_sound (c ∷ s) h = ground (arith, no_space_sound s)
