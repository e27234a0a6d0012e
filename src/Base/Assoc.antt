-- ===== src/Base/Assoc.antt =====
-- Go's maps with text keys, as association lists. The program never depends on their order.
use lockr.Base.Tests.{if◌then◌else◌}
use lockr.Base.Text.{Bytes, ◌==◌, ==_iff}
use mathlib.Core.Path.{◌≡◌}
use mathlib.Core.Option.{Option, none, some}
use mathlib.Core.List.{List, [], ◌∷◌}
use native.Mathlib.Omega.{arith}

abbrev pub Assoc : Type 0 → Type 0
Assoc V = List (Bytes × V)

module _ {V : Type 0} where
  -- v, ok := m[k]
  unfoldable pub lookup : Bytes → Assoc V → Option V
  lookup k [] = none
  lookup k ((j, v) ∷ m) = if j == k then some v else lookup k m

  -- delete(m, k)
  unfoldable pub without : Bytes → Assoc V → Assoc V
  without k [] = []
  without k ((j, v) ∷ m) = let rest = without k m in if j == k then rest else (j, v) ∷ rest

  -- m[k] = v
  unfoldable pub insert : Bytes → V → Assoc V → Assoc V
  insert k v m = (k, v) ∷ without k m

  pub lookup-without :
      (k j : Bytes) (m : Assoc V) → lookup j (without k m) ≡ (if k == j then none else lookup j m)
  unfolding lookup without
  lookup-without k j [] = ground arith
  lookup-without k j ((i, v) ∷ m) =
      ground (arith, lookup-without k j m, ==_iff i k, ==_iff i j, ==_iff k j)

  pub lookup-insert :
      (k j : Bytes) (v : V) (m : Assoc V)
      → lookup j (insert k v m) ≡ (if k == j then some v else lookup j m)
  unfolding insert lookup
  lookup-insert k j v m = rw (lookup-without k j m) (ground arith)
