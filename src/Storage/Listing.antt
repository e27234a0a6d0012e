-- ===== src/Storage/Listing.antt =====
-- internal/storage/badger.go: iteration over the keys with a prefix, and the direct children of a
-- path.
pub mod Prefix
pub mod Children
use lockr.Base.{
  ℕ, Bool, true, false, ◌||◌, ◌&&◌, List, [], ◌∷◌, ◌++◌, Option, none, some, Bytes, codes, ◌==◌,
  has_prefix, has_suffix, trim_prefix, cut, eqb, ltb, if◌then◌else◌,
}
use lockr.Base.Assoc.{Assoc, insert}
use lockr.Result.{Result, ok, err, Exec, ◌>>=◌, pure}
use lockr.Platform.{Platform, World, ask}

abbrev pub Items : Type 0
Items = List (Bytes × Bytes)

-- bytes.Compare(a, b) < 0
unfoldable pub bytes_lt : Bytes → Bytes → Bool
bytes_lt s [] = false
bytes_lt [] (b ∷ t) = true
bytes_lt (a ∷ s) (b ∷ t) = ltb a b || (eqb a b && bytes_lt s t)

-- it.Seek(p): the first item whose key is not before `p`
unfoldable pub seek : Bytes → Items → Items
seek p [] = []
seek p ((k, v) ∷ items) = let rest = seek p items in if bytes_lt k p then rest else (k, v) ∷ items

-- for ; it.ValidForPrefix(p); it.Next()
unfoldable pub while_valid : Bytes → Items → Items
while_valid p [] = []
while_valid p ((k, v) ∷ items) =
    let rest = while_valid p items in if has_prefix k p then (k, v) ∷ rest else []

abbrev pub keys : Items → List Bytes
keys [] = []
keys ((k, v) ∷ items) = k ∷ keys items

-- result[key] = value, for each item of the scan
unfoldable pub collect : Assoc Bytes → Items → Assoc Bytes
collect m [] = m
collect m ((k, v) ∷ items) = collect (insert k v m) items

-- child := prefix + parts[0]; if len(parts) > 1 { child += "/" }
unfoldable pub close_child : Bytes → Option Bytes → Bytes
close_child child none = child
close_child child (some rest) = child ++ codes "/"

-- The child of `prefix` in which a key lies: the parts of SplitN(rest, "/", 2) are a cut.
unfoldable pub child_of : Bytes → Bytes → Bytes
child_of prefix k =
    let (segment, rest) = cut b'/' (trim_prefix k prefix) in close_child (prefix ++ segment) rest

unfoldable pub contains : List Bytes → Bytes → Bool
contains [] a = false
contains (x ∷ xs) a = x == a || contains xs a

-- The loop of `ListDirect`: `result` in order of discovery; `seen` holds what is in it.
unfoldable pub children_from : Bytes → List Bytes → List Bytes → List Bytes
children_from prefix result [] = result
children_from prefix result (k ∷ ks) =
    let child = child_of prefix k in
    children_from prefix (if contains result child then result else result ++ child ∷ []) ks

unfoldable pub with_slash : Bytes → Bytes
with_slash prefix = if has_suffix prefix (codes "/") then prefix else prefix ++ codes "/"

module _ (p : Platform) where
  unfoldable pub scan_items : Bytes → Exec (World p) Items
  scan_items prefix = do items ← ask p p.view_items; pure (while_valid prefix (seek prefix items))

  unfoldable pub list : Bytes → Exec (World p) (List Bytes)
  unfolding scan_items
  list prefix = do items ← scan_items prefix; pure (keys items)

  unfoldable pub scan : Bytes → Exec (World p) (Assoc Bytes)
  unfolding scan_items
  scan prefix = do items ← scan_items prefix; pure (collect [] items)

  unfoldable pub list_direct : Bytes → Exec (World p) (List Bytes)
  list_direct prefix = do
    all_keys ← list (with_slash prefix)
    pure (children_from (with_slash prefix) [] all_keys)
