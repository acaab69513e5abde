-- ===== src/Go/Numbers/RoundTrip.antt =====
-- Atoi reads what Itoa writes.
use slopvmrunner.Prelude.{
  ℕ, zero, suc, ◌+◌, ◌/◌, ◌%◌, ◌≡◌, ◌≢◌, ◌∙◌, ◌<◌, ◌≤◌, refl, true, some, [], ◌∷◌, arith, All,
}
use slopvmrunner.Go.Strings.{Text}
use slopvmrunner.Go.Numbers.{
  ℤ, pos, negsuc, digits, format, itoa, is_digit, read_digits, read_ℕ, max_int, positive_int,
  negative_int, atoi,
}

read_digits-digits :
    (fuel n : ℕ) (acc : Text) → n < fuel → read_digits 0 (digits fuel n acc) ≡ read_digits n acc
unfolding digits read_digits
read_digits-digits zero n acc h = elim h [ ]
read_digits-digits (suc fuel) n acc h =
    ground (arith, read_digits-digits fuel (n / 10) ((b'0' + n % 10) ∷ acc))

-- Every character of a number's digits is a digit.
abbrev pub Digits : Text → Type 0
Digits = All (λ c. is_digit c ≡ true)

digits-Digits : (fuel n : ℕ) (acc : Text) → Digits acc → Digits (digits fuel n acc)
unfolding digits is_digit
digits-Digits zero n acc h = h
digits-Digits (suc fuel) n acc h =
    ground (arith, digits-Digits fuel (n / 10) ((b'0' + n % 10) ∷ acc))

pub format-Digits : (n : ℕ) → Digits (format n)
unfolding format
format-Digits n = digits-Digits (suc n) n [] tt

digits-ne-nil : (fuel n : ℕ) (acc : Text) → acc ≢ [] → digits fuel n acc ≢ []
unfolding digits
digits-ne-nil zero n acc h = h
digits-ne-nil (suc fuel) n acc h =
    ground (arith, digits-ne-nil fuel (n / 10) ((b'0' + n % 10) ∷ acc))

format-ne-nil : (n : ℕ) → format n ≢ []
unfolding format digits
format-ne-nil n = ground (arith, digits-ne-nil n (n / 10) ((b'0' + n % 10) ∷ []))

read_ℕ-digits : (s : Text) → s ≢ [] → read_ℕ s ≡ read_digits 0 s
unfolding read_ℕ
read_ℕ-digits [] h = absurd (h refl)
read_ℕ-digits (c ∷ s) h = refl

read_digits-format : (n : ℕ) → read_digits 0 (format n) ≡ some n
unfolding format read_digits
read_digits-format n = read_digits-digits (suc n) n [] (omega arith)

pub read_ℕ-format : (n : ℕ) → read_ℕ (format n) ≡ some n
read_ℕ-format n = read_ℕ-digits (format n) (format-ne-nil n) ∙ read_digits-format n

atoi-Digits : (s : Text) → Digits s → atoi s ≡ positive_int (read_ℕ s)
unfolding atoi is_digit
atoi-Digits [] h = refl
atoi-Digits (c ∷ s) (hc, h) = ground arith

-- The integers that Go's int holds.
abbrev pub IsInt : ℤ → Type 0
IsInt (pos n) = n ≤ max_int
IsInt (negsuc n) = n ≤ max_int

atoi_minus : (s : Text) → atoi (b'-' ∷ s) ≡ negative_int (read_ℕ s)
unfolding atoi
atoi_minus s = refl

atoi-format : (n : ℕ) → n ≤ max_int → atoi (format n) ≡ some (pos n)
unfolding positive_int
atoi-format n h = atoi-Digits (format n) (format-Digits n) ∙ rw read_ℕ-format (ground arith)

atoi_minus-format : (n : ℕ) → n ≤ max_int → atoi (b'-' ∷ format (suc n)) ≡ some (negsuc n)
unfolding negative_int
atoi_minus-format n h = atoi_minus (format (suc n)) ∙ rw read_ℕ-format (ground arith)

-- Every int is read back from its decimal print.
pub atoi-itoa : (z : ℤ) → IsInt z → atoi (itoa z) ≡ some z
unfolding itoa
atoi-itoa (pos n) h = atoi-format n h
atoi-itoa (negsuc n) h = atoi_minus-format n h
