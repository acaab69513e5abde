-- ===== src/Agent/Cmdline/Readers.antt =====
-- Readers of the command line pass over the arguments that are not theirs.
use slopvmrunner.Prelude.{
  ◌==◌, ◌≡◌, refl, Bool, true, false, Option, none, some, List, [], ◌∷◌, ◌++◌, arith, if◌then◌else◌,
  Bool-cases, inl, inr,
}
use slopvmrunner.Go.Strings.{Text, text, is_empty, has_prefix}
use slopvmrunner.Go.Strings.Laws.{
  NoSpace, trim_prefix-append, has_prefix-append, trim_space-NoSpace,
}
use slopvmrunner.Manager.BootArgs.{appended, virtio_fs_switch}
use slopvmrunner.Agent.Cmdline.{value_of}
use slopvmrunner.Manager.BootWords.{Plain}

-- A reader that passes over an argument passes over it also where it may be left out.
pub skip {ℓ} :
    {A : Type ℓ} (R : List Text → A) (name : Text)
    → ((v : Text) (rest : List Text) → R ((name ++ v) ∷ rest) ≡ R rest)
    → (o : Option Text) (rest : List Text) → R (appended name o rest) ≡ R rest
unfolding appended
skip R name h none rest = refl
skip R name h (some v) rest = elim (Bool-cases (is_empty v)) [
  | inl e ↦ rw e refl
  | inr e ↦ rw e (h v rest)
]

pub skip_switch {ℓ} :
    {A : Type ℓ} (R : List Text → A)
    → ((rest : List Text) → R (text "agent.virtiofs=1" ∷ rest) ≡ R rest)
    → (o : Option Text) (rest : List Text) → R (virtio_fs_switch o rest) ≡ R rest
unfolding virtio_fs_switch
skip_switch R h none rest = refl
skip_switch R h (some v) rest = elim (Bool-cases (is_empty v)) [
  | inl e ↦ rw e refl
  | inr e ↦ rw e (h rest)
]

-- Two texts that differ where both go on.
unfoldable pub differ : Text → Text → Bool
differ [] t = false
differ (c ∷ s) [] = false
differ (c ∷ s) (d ∷ t) = let rest = differ s t in if c == d then rest else true

has_prefix-differ : (s t v : Text) → differ s t ≡ true → has_prefix (s ++ v) t ≡ false
unfolding differ has_prefix
has_prefix-differ [] t v h = cc
has_prefix-differ (c ∷ s) [] v h = cc
has_prefix-differ (c ∷ s) (d ∷ t) v h = ground (arith, has_prefix-differ s t v)

module _ (name default : Text) where
  -- An argument with another name is passed over.
  pub value_of-other :
      (other : Text)
      → differ other name ≡ true
      → (o : Option Text) (rest : List Text)
      → value_of name default (appended other o rest) ≡ value_of name default rest
  value_of-other other h =
      skip (value_of name default) other
        (λ v rest. unfold value_of in rw (has_prefix-differ other name v h) refl)

  -- The value that is given, if it is not empty, and else the default.
  abbrev pub given : Option Text → Text
  given none = default
  given (some v) = if is_empty v then default else v

  value_of-own :
      (v : Text) (rest : List Text)
      → NoSpace v
      → is_empty v ≡ false
      → value_of name default ((name ++ v) ∷ rest) ≡ v
  unfolding value_of
  value_of-own v rest h e =
      rw (trim_prefix-append name v, trim_space-NoSpace v h, has_prefix-append name v, e) refl

  pub value_of-given :
      (o : Option Text) (rest : List Text)
      → Plain o
      → value_of name default rest ≡ default
      → value_of name default (appended name o rest) ≡ given o
  unfolding appended
  value_of-given none rest h k = k
  value_of-given (some v) rest h k = elim (Bool-cases (is_empty v)) [
    | inl e ↦ rw e k
    | inr e ↦ rw e (value_of-own v rest h e)
  ]
