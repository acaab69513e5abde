-- ===== src/Go/Path/Clean.antt =====
-- Clean gives a normal form: what it returns is read back to the same elements.
use slopvmrunner.Prelude.{
  ℕ, zero, suc, ◌+◌, ◌≡◌, ◌⊎◌, ◌∙◌, refl, ap, Bool, true, false, List, [], ◌∷◌, arith, append-nil,
  All, inl, inr,
}
use slopvmrunner.Go.Strings.{Text, is_empty, eq}
use slopvmrunner.Go.Path.{
  slash, dot, dot_dot, segments, with_slashes, Cleaned, rev_onto, dots, elements, go_up, step, walk,
  parse, is_rooted, or_dot, render, clean,
}
use slopvmrunner.Go.Path.Elements.{
  IsElement, IsName, segments-with_slashes, segments-IsElement, rev_onto-All, rev_onto-rev_onto,
  dots-IsElement, All-IsElement,
}

-- Only names behind the "..", and none of these at the root.
pub record IsNormal (p : Cleaned) : Type 0 where
  pub names_only : All IsName p.names
  pub root_top : p.rooted ≡ true → p.ups ≡ 0

go_up-IsNormal : (p : Cleaned) → IsNormal p → IsNormal (go_up p)
go_up-IsNormal p h = up p.rooted p.ups p.names h
  where
    up :
        (r : Bool) (u : ℕ) (ns : List Text)
        → IsNormal (record { rooted = r; ups = u; names = ns })
        → IsNormal (go_up (record { rooted = r; ups = u; names = ns }))
    up true u [] h = unfold go_up in h
    up false u [] h = unfold go_up in record { names_only = tt; root_top = λ e. cc }
    up r u (n ∷ ns) h =
        unfold go_up in record { names_only = h.names_only.1; root_top = h.root_top }

-- The three things that an element can do.
step-cases :
    (p : Cleaned) (w : Text)
    → (step p w ≡ p)
      ⊎ ((step p w ≡ go_up p)
          ⊎ ((is_empty w ≡ false)
              × (eq w dot ≡ false)
              × (eq w dot_dot ≡ false)
              × (step p w ≡ record p { names = w ∷ p.names })))
unfolding step
step-cases p w = ground arith

step-IsNormal : (p : Cleaned) (w : Text) → IsElement w → IsNormal p → IsNormal (step p w)
step-IsNormal p w hw h = elim (step-cases p w) [
  | inl e ↦ rw e h
  | inr (inl e) ↦ rw e (go_up-IsNormal p h)
  | inr (inr (a, b, c, e)) ↦ rw e (record {
    names_only =
        (record { element = hw; nonempty = a; not_dot = b; not_dot_dot = c }, h.names_only);
    root_top = h.root_top;
  })
]

walk-IsNormal :
    (ws : List Text) (p : Cleaned) → All IsElement ws → IsNormal p → IsNormal (walk p ws)
unfolding walk
walk-IsNormal [] p hs h = h
walk-IsNormal (w ∷ ws) p hs h = walk-IsNormal ws (step p w) hs.1 (step-IsNormal p w hs.0 h)

pub parse-IsNormal : (s : Text) → IsNormal (parse s)
unfolding parse
parse-IsNormal s =
    walk-IsNormal (segments s) _ (segments-IsElement s)
      (record { names_only = tt; root_top = λ e. refl })

step_name : (p : Cleaned) (w : Text) → IsName w → step p w ≡ record p { names = w ∷ p.names }
unfolding step
step_name p w h = rw (h.nonempty, h.not_dot, h.not_dot_dot) refl

pub walk-names :
    (ws : List Text) (p : Cleaned)
    → All IsName ws
    → walk p ws ≡ record p { names = rev_onto ws p.names }
unfolding walk rev_onto
walk-names [] p h = refl
walk-names (w ∷ ws) p h = rw (step_name p w h.0) (walk-names ws _ h.1)

walk-dots :
    (n k : ℕ) (ws : List Text)
    → walk (record { rooted = false; ups = k; names = [] }) (dots n ws)
      ≡ walk (record { rooted = false; ups = k + n; names = [] }) ws
unfolding walk dots is_empty eq
walk-dots zero k ws = let e : k + 0 ≡ k = omega arith in rw e refl
walk-dots (suc n) k ws =
    let e : k + suc n ≡ suc k + n = omega arith in rw e (walk-dots n (suc k) ws)

walk-segments :
    (p : Cleaned) (ws : List Text)
    → All IsElement ws
    → walk p (segments (with_slashes ws)) ≡ walk p ws
walk-segments p [] h = unfold walk segments with_slashes is_empty in refl
walk-segments p (w ∷ ws) h = ap (walk p) (segments-with_slashes w ws h)

pub rev_onto-rev_onto-nil : (ws : List Text) → rev_onto (rev_onto ws []) [] ≡ ws
unfolding rev_onto
rev_onto-rev_onto-nil ws = rev_onto-rev_onto ws [] [] ∙ append-nil ws

ordered : List Text → List Text
ordered ns = rev_onto ns []

walk-ordered :
    (p : Cleaned) (ns : List Text)
    → p.names ≡ []
    → All IsName ns
    → walk p (ordered ns) ≡ record p { names = ns }
unfolding ordered
walk-ordered p ns e h =
    rw (walk-names (ordered ns) p (rev_onto-All IsName ns [] h tt), e, rev_onto-rev_onto-nil ns)
      refl

-- A first element that is not empty and has no slash makes a relative path.
relative_text :
    (w : Text) (ws : List Text)
    → IsElement w
    → is_empty w ≡ false
    → (is_rooted (with_slashes (w ∷ ws)) ≡ false)
      × (or_dot (with_slashes (w ∷ ws)) ≡ with_slashes (w ∷ ws))
unfolding with_slashes is_rooted or_dot is_empty
relative_text [] ws h e = cc
relative_text (c ∷ w) [] h e = (h.0, refl)
relative_text (c ∷ w) (v ∷ ws) h e = (h.0, refl)

parse-render_rooted :
    (ns : List Text)
    → All IsName ns
    → parse (slash ∷ with_slashes (ordered ns)) ≡ record { rooted = true; ups = 0; names = ns }
unfolding parse ordered is_empty
parse-render_rooted ns h =
    walk-segments (record { rooted = true; ups = 0; names = [] }) (ordered ns)
      (rev_onto-All IsElement ns [] (All-IsElement ns h) tt)
    ∙ walk-ordered (record { rooted = true; ups = 0; names = [] }) ns refl h

parse-render_relative :
    (w : Text) (ws : List Text)
    → All IsElement (w ∷ ws)
    → is_empty w ≡ false
    → parse (or_dot (with_slashes (w ∷ ws)))
      ≡ walk (record { rooted = false; ups = 0; names = [] }) (w ∷ ws)
unfolding parse
parse-render_relative w ws h e =
    rw ((relative_text w ws h.0 e).1, (relative_text w ws h.0 e).0)
      (walk-segments (record { rooted = false; ups = 0; names = [] }) (w ∷ ws) h)

walk-dots-ordered :
    (u : ℕ) (ns : List Text)
    → All IsName ns
    → walk (record { rooted = false; ups = 0; names = [] }) (dots u (ordered ns))
      ≡ record { rooted = false; ups = u; names = ns }
walk-dots-ordered u ns h =
    let e : 0 + u ≡ u = omega arith in
    walk-dots u 0 (ordered ns)
    ∙ rw e (walk-ordered (record { rooted = false; ups = u; names = [] }) ns refl h)

-- A relative normal form, by its first element.
parse-render_from :
    (es : List Text) (u : ℕ) (ns : List Text)
    → dots u (ordered ns) ≡ es
    → All IsElement es
    → All (λ w. is_empty w ≡ false) es
    → All IsName ns
    → parse (or_dot (with_slashes es)) ≡ record { rooted = false; ups = u; names = ns }
parse-render_from [] u ns e h k names =
    unfold parse or_dot with_slashes is_empty eq segments walk in
    (rw e at (walk-dots-ordered u ns names))
parse-render_from (w ∷ ws) u ns e h k names =
    parse-render_relative w ws h k.0 ∙ (rw e at (walk-dots-ordered u ns names))

names-nonempty : (ns : List Text) → All IsName ns → All (λ w. is_empty w ≡ false) ns
names-nonempty [] h = tt
names-nonempty (n ∷ ns) h = (h.0.nonempty, names-nonempty ns h.1)

dots-nonempty :
    (u : ℕ) (ws : List Text)
    → All (λ w. is_empty w ≡ false) ws
    → All (λ w. is_empty w ≡ false) (dots u ws)
unfolding dots is_empty
dots-nonempty zero ws h = h
dots-nonempty (suc u) ws h = (refl, dots-nonempty u ws h)

parse-render_fields :
    (r : Bool) (u : ℕ) (ns : List Text)
    → IsNormal (record { rooted = r; ups = u; names = ns })
    → parse (render (record { rooted = r; ups = u; names = ns }))
      ≡ record { rooted = r; ups = u; names = ns }
unfolding render elements ordered
parse-render_fields true u ns h =
    rw (h.root_top refl) (unfold dots in parse-render_rooted ns h.names_only)
parse-render_fields false u ns h =
    parse-render_from (dots u (rev_onto ns [])) u ns refl
      (dots-IsElement u (rev_onto ns [])
        (rev_onto-All IsElement ns [] (All-IsElement ns h.names_only) tt))
      (dots-nonempty u (rev_onto ns [])
        (rev_onto-All (λ w. is_empty w ≡ false) ns [] (names-nonempty ns h.names_only) tt))
      h.names_only

-- A normal form is read back from its text.
pub parse-render : (p : Cleaned) → IsNormal p → parse (render p) ≡ p
parse-render p h = parse-render_fields p.rooted p.ups p.names h

-- Cleaning a clean path changes nothing, for every path.
pub clean_idem : (s : Text) → clean (clean s) ≡ clean s
unfolding clean
clean_idem s = ap render (parse-render (parse s) (parse-IsNormal s))
