-- ===== src/Path.antt =====
-- `path.Clean` and `path.Join` of the Go standard library, which the storage, events, assets and
-- deployments packages call. A path is cleaned segment by segment, on a stack with the last one on
-- top.
pub mod Clean
pub mod Below
pub mod Rooted
use honeygen.Prelude.{ℕ, Bool, true, false, ◌||◌, List, [], ◌∷◌, reverse, ◌==◌, if◌then◌else◌}
use honeygen.Text.{Text, text_eq, split, join}

abbrev pub slash : ℕ
slash = b'/'

abbrev pub dot : Text
dot = b'.' ∷ []

abbrev pub dotdot : Text
dotdot = b'.' ∷ b'.' ∷ []

-- `path.IsAbs`
unfoldable pub is_abs : Text → Bool
is_abs [] = false
is_abs (c ∷ s) = c == slash

-- what ".." does: it takes the last name away, is kept at the start of a relative path, and is
-- dropped at the root
unfoldable pub go_back : Bool → List Text → List Text
go_back rooted [] = if rooted then [] else dotdot ∷ []
go_back rooted (top ∷ stack) = if text_eq top dotdot then dotdot ∷ top ∷ stack else stack

unfoldable pub push_segment : Bool → List Text → Text → List Text
unfolding go_back
push_segment rooted stack seg =
    if text_eq seg [] || text_eq seg dot
    then stack
    else if text_eq seg dotdot
    then go_back rooted stack
    else seg ∷ stack

unfoldable pub clean_segments : Bool → List Text → List Text → List Text
unfolding push_segment
clean_segments rooted stack [] = stack
clean_segments rooted stack (seg ∷ segs) =
    clean_segments rooted (push_segment rooted stack seg) segs

-- the cleaned segments of a path, first one first
unfoldable pub path_segments : Text → List Text
unfolding clean_segments
path_segments p = reverse (clean_segments (is_abs p) [] (split slash p))

unfoldable pub render : Bool → List Text → Text
render true segs = slash ∷ join slash segs
render false [] = dot
render false (s ∷ segs) = join slash (s ∷ segs)

-- `path.Clean`; the split of "" is one empty segment, so it gives "."
unfoldable pub clean : Text → Text
unfolding path_segments render is_abs
clean p = render (is_abs p) (path_segments p)

unfoldable pub nonempty : List Text → List Text
nonempty [] = []
nonempty (p ∷ ps) = if text_eq p [] then nonempty ps else p ∷ nonempty ps

-- `path.Join`: empty elements are ignored, and "" is the join of none
unfoldable pub path_join : List Text → Text
unfolding nonempty
path_join parts =
    let kept = join slash (nonempty parts) in if text_eq kept [] then [] else clean kept
