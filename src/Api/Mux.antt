-- ===== src/Api/Mux.antt =====
-- http.ServeMux as internal/api/router.go uses it: the pattern that a path is routed to, and the
-- redirects of paths.
use lockr.Base.{
  ℕ, eqb, Bool, true, false, not, ◌||◌, ◌&&◌, List, [], ◌∷◌, ◌++◌, Option, none, some, Bytes, codes,
  ◌==◌, has_suffix, length, ltb, if◌then◌else◌,
}

-- A byte in front of the first segment.
in_front : ℕ → List Bytes → List Bytes
in_front b [] = (b ∷ []) ∷ []
in_front b (x ∷ xs) = (b ∷ x) ∷ xs

-- The parts of a path between its slashes.
unfoldable pub segments : Bytes → List Bytes
unfolding in_front
segments [] = [] ∷ []
segments (b ∷ path) = let rest = segments path in if eqb b b'/' then [] ∷ rest else in_front b rest

-- The segments that http.ServeMux compares with those of a pattern: each is unescaped by itself.
unfoldable pub unescaped : (Bytes → Bytes) → List Bytes → List Bytes
unescaped unescape [] = []
unescaped unescape (x ∷ xs) = unescape x ∷ unescaped unescape xs

is_last : List Bytes → Bool
is_last [] = true
is_last (x ∷ xs) = false

-- The segments of a pattern stand for themselves; an empty one at its end, after its final "/", for any rest.
unfoldable pub fits_segments : List Bytes → List Bytes → Bool
unfolding is_last
fits_segments [] [] = true
fits_segments [] (x ∷ xs) = false
fits_segments (q ∷ qs) [] = false
fits_segments (q ∷ qs) (x ∷ xs) =
    let rest = fits_segments qs xs in if q == [] && is_last qs then true else q == x && rest

unfoldable pub same_segments : List Bytes → List Bytes → Bool
same_segments [] [] = true
same_segments [] (x ∷ xs) = false
same_segments (q ∷ qs) [] = false
same_segments (q ∷ qs) (x ∷ xs) = q == x && same_segments qs xs

unfoldable pub fits : Bytes → List Bytes → Bool
fits pattern path = fits_segments (segments pattern) path

longer : {R : Type 0} → Bytes × R → Option (Bytes × R) → Option (Bytes × R)
longer new none = some new
longer new (some old) = if ltb (length old.0) (length new.0) then some new else some old

-- http.ServeMux: the longest pattern that fits.
unfoldable pub best : {R : Type 0} → List Bytes → List (Bytes × R) → Option (Bytes × R)
unfolding longer
best path [] = none
best path ((pattern, r) ∷ routes) =
    let others = best path routes in
    if fits pattern path then longer (pattern, r) others else others

has_pattern : {R : Type 0} → List Bytes → List (Bytes × R) → Bool
has_pattern path [] = false
has_pattern path ((pattern, r) ∷ routes) =
    same_segments (segments pattern) path || has_pattern path routes

-- A path without its final "/" is redirected, if only the pattern with it is there.
unfoldable pub lacks_slash : {R : Type 0} → (Bytes → Bytes) → Bytes → List (Bytes × R) → Bool
unfolding has_pattern
lacks_slash unescape path routes =
    not (has_suffix path (codes "/"))
    && not (has_pattern (unescaped unescape (segments path)) routes)
    && has_pattern (unescaped unescape (segments (path ++ codes "/"))) routes

pub data Routed (R : Type 0) : Type 0 where
  moved : Bytes → Routed R
  not_found : Routed R
  found : R → Routed R

routed : {R : Type 0} → Option (Bytes × R) → Routed R
routed none = not_found
routed (some (pattern, r)) = found r

-- The path is the escaped one; net/http cleans it and unescapes its segments.
unfoldable pub route :
    {R : Type 0} → (Bytes → Bytes) → (Bytes → Bytes) → Bytes → List (Bytes × R) → Routed R
unfolding routed
route clean unescape path routes =
    if lacks_slash unescape (clean path) routes
    then moved (clean path ++ codes "/")
    else if not (clean path == path)
    then moved (clean path)
    else routed (best (unescaped unescape (segments path)) routes)
