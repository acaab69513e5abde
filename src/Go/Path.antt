-- ===== src/Go/Path.antt =====
-- Go's package path/filepath on Unix: Clean, Join, Rel and Dir, by the elements between slashes.
pub mod Elements
pub mod Clean
pub mod Join
use slopvmrunner.Prelude.{
  ℕ, zero, suc, ◌+◌, Bool, true, false, not, ◌&&◌, ◌||◌, Option, none, some, List, [], ◌∷◌, ◌++◌,
  ◌==◌, if◌then◌else◌,
}
use slopvmrunner.Go.Strings.{Text, text, is_empty, eq}

abbrev pub slash : ℕ
slash = b'/'

abbrev pub dot : Text
dot = b'.' ∷ []

abbrev pub dot_dot : Text
dot_dot = b'.' ∷ b'.' ∷ []

unfoldable pub add_to_first : ℕ → List Text → List Text
add_to_first c [] = (c ∷ []) ∷ []
add_to_first c (w ∷ ws) = (c ∷ w) ∷ ws

-- The pieces of a path between its slashes.
unfoldable pub segments : Text → List Text
unfolding add_to_first
segments [] = [] ∷ []
segments (c ∷ s) = let rest = segments s in if c == slash then [] ∷ rest else add_to_first c rest

-- Elements with a slash between each two.
unfoldable pub with_slashes : List Text → Text
with_slashes [] = []
with_slashes (w ∷ []) = w
with_slashes (w ∷ v ∷ ws) = w ++ slash ∷ with_slashes (v ∷ ws)

-- A path in the form that Clean gives it: `ups` elements "..", then names, the last one first.
pub record Cleaned : Type 0 where
  pub rooted : Bool
  pub ups : ℕ
  pub names : List Text

unfoldable pub is_rooted : Text → Bool
is_rooted [] = false
is_rooted (c ∷ s) = c == slash

unfoldable pub go_up : Cleaned → Cleaned
go_up p = elim p.names [
  | [] ↦ if p.rooted then p else record p { ups = suc p.ups }
  | n ∷ ns ↦ record p { names = ns }
]

-- One element: "" and "." are dropped, ".." takes back the name before it.
unfoldable pub step : Cleaned → Text → Cleaned
unfolding go_up
step p w =
    if is_empty w || eq w dot
    then p
    else if eq w dot_dot
    then go_up p
    else record p { names = w ∷ p.names }

unfoldable pub walk : Cleaned → List Text → Cleaned
unfolding step
walk p [] = p
walk p (w ∷ ws) = walk (step p w) ws

unfoldable pub parse : Text → Cleaned
unfolding walk segments is_rooted
parse s = walk (record { rooted = is_rooted s; ups = 0; names = [] }) (segments s)

unfoldable pub rev_onto : List Text → List Text → List Text
rev_onto [] acc = acc
rev_onto (w ∷ ws) acc = rev_onto ws (w ∷ acc)

unfoldable pub dots : ℕ → List Text → List Text
dots zero ws = ws
dots (suc n) ws = dot_dot ∷ dots n ws

unfoldable pub elements : Cleaned → List Text
unfolding dots rev_onto
elements p = dots p.ups (rev_onto p.names [])

unfoldable pub or_dot : Text → Text
or_dot [] = dot
or_dot (c ∷ s) = c ∷ s

unfoldable pub render : Cleaned → Text
unfolding elements with_slashes or_dot
render p =
    if p.rooted then slash ∷ with_slashes (elements p) else or_dot (with_slashes (elements p))

-- filepath.Clean
unfoldable pub clean : Text → Text
unfolding parse render is_empty eq
clean s = render (parse s)

-- filepath.Join: empty parts in front are passed over.
unfoldable pub join : List Text → Text
unfolding clean with_slashes
join [] = []
join ([] ∷ parts) = join parts
join ((c ∷ s) ∷ parts) = clean (with_slashes ((c ∷ s) ∷ parts))

-- What is left of two lists behind the elements that they begin with in common.
unfoldable pub differ : List Text → List Text → List Text × List Text
unfolding eq
differ [] ts = ([], ts)
differ (b ∷ bs) [] = (b ∷ bs, [])
differ (b ∷ bs) (t ∷ ts) = let rest = differ bs ts in if eq b t then rest else (b ∷ bs, t ∷ ts)

unfoldable pub ups_for : List Text → List Text → List Text
ups_for [] ts = ts
ups_for (b ∷ bs) ts = dot_dot ∷ ups_for bs ts

-- The result from the elements that are left; none if the way up from ".." is not known.
unfoldable pub relative : List Text → List Text → Option Text
unfolding ups_for with_slashes eq
relative (b ∷ bs) (t ∷ ts) =
    if eq b dot_dot then none else some (with_slashes (ups_for (b ∷ bs) (t ∷ ts)))
relative bs ts = some (with_slashes (ups_for bs ts))

-- The elements of a target; the path "." counts as one.
unfoldable pub target_elements : Cleaned → List Text
unfolding elements
target_elements p = elim (elements p) [ [] ↦ if p.rooted then [] else dot ∷ [] | w ∷ ws ↦ w ∷ ws ]

unfoldable pub same_root : Cleaned → Cleaned → Bool
same_root p q = if p.rooted then q.rooted else not q.rooted

-- filepath.Rel
unfoldable pub rel : Text → Text → Option Text
unfolding clean differ relative target_elements same_root
rel base target =
    let b = parse base in
    let t = parse target in
    let (bs, ts) = differ (elements b) (target_elements t) in
    if eq (render t) (render b) then some dot else if same_root b t then relative bs ts else none

unfoldable pub up_to_last_slash : Text → Text
unfolding is_empty
up_to_last_slash [] = []
up_to_last_slash (c ∷ s) =
    let rest = up_to_last_slash s in
    if is_empty rest then (if c == slash then c ∷ [] else []) else c ∷ rest

-- filepath.Dir
unfoldable pub dir : Text → Text
unfolding up_to_last_slash clean
dir s = clean (up_to_last_slash s)
