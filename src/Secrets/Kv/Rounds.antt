-- ===== src/Secrets/Kv/Rounds.antt =====
-- The loop of Versions: its rounds, and the fuel that they need.
use lockr.Base.{
  ℕ, zero, suc, ◌+◌, ◌-◌, ◌≤◌, ◌<◌, ◌^◌, ◌≡◌, refl, ◌∙◌, true, Bytes, Bool-cases, inl, inr, arith,
}
use lockr.Base.Int.{Int64, int_lt, int_lt_nat, int_incr, int_incr_nat}
use lockr.Platform.{Platform, World}
use lockr.Secrets.Kv.{KvStore, max_versions, get_version, versions_from, oldest_version}
use lockr.Secrets.Kv.Operations.{oldest_version_nat}
use Prim.Native.Nat.{min}

module _ (p : Platform) (kv : KvStore) where
  -- Fuel for the rounds up to the current version is enough: more gives the same run.
  versions_from_enough :
      (fuel more : ℕ) (path : Bytes) (from current : Int64) (w : World p)
      → current + 1 < 2 ^ 63
      → from ≤ current + 1
      → current < from + fuel
      → versions_from p kv (fuel + more) path from current w
        ≡ versions_from p kv fuel path from current w
  unfolding versions_from
  versions_from_enough zero zero path from current w room lo near = refl
  versions_from_enough zero (suc more) path from current w room lo near =
      let over : int_lt current from ≡ true =
        int_lt_nat current from (omega arith) (omega arith) ∙ (ground arith) in
      let sum : zero + suc more ≡ suc more = omega arith in rw sum (rw over refl)
  versions_from_enough (suc fuel) more path from current w room lo near =
      let sum : suc fuel + more ≡ suc (fuel + more) = omega arith in
      elim (Bool-cases (int_lt current from)) [
        | inl over ↦ rw sum (rw over refl)
        | inr under ↦
            let order = int_lt_nat current from (omega arith) (omega arith) in
            let below : from ≤ current = ground arith in
            let step : int_incr from ≡ from + 1 = int_incr_nat from (omega arith) in
            let rest =
              versions_from_enough fuel more path (from + 1) current
                (get_version p kv path from w).1 room (omega (arith, below)) (omega arith) in
            rw sum (rw (under, step) (rw rest refl))
      ]

  -- For a current version from 1 up to 2 ^ 63 - 2 the loop of Versions ends within ten rounds: more
  -- fuel gives the same result and the same state.
  pub versions_from-max_versions :
      (more : ℕ) (path : Bytes) (current : Int64) (w : World p)
      → 1 ≤ current
      → current + 1 < 2 ^ 63
      → versions_from p kv (max_versions + more) path (oldest_version current) current w
        ≡ versions_from p kv max_versions path (oldest_version current) current w
  versions_from-max_versions more path current w lo room =
      let oldest = oldest_version_nat p kv current lo room in
      rw oldest (
        versions_from_enough max_versions more path (current + 1 - min current max_versions) current
          w room (omega arith) (omega arith))
