-- ===== src/Secrets/Kv/Operations.antt =====
-- Set, Delete, Rollback and Versions on the abstract view of a secret.
use lockr.Base.{
  ℕ, zero, suc, ◌+◌, ◌-◌, ◌≤◌, ◌<◌, ◌^◌, ◌≡◌, ◌≢◌, refl, ◌∙◌, true, false, List, [], ◌∷◌, Option,
  none, some, Bytes, inr, arith,
}
use mathlib.Core.Path.{subst}
use Prim.Native.Nat.{min}
use lockr.Base.Int.{Int64, int_lt, int_lt_nat, int_incr, int_incr_nat, int_sub}
use lockr.Keys.{kv_meta_key}
use lockr.Keys.Distinct.{kv_meta_key-ne-version_key}
use lockr.Result.{ok, resume, map_err}
use lockr.Platform.{Platform, World, now}
use lockr.Storage.Sealed.{at}
use lockr.Secrets.Kv.{
  KvEntry, KvMeta, KvStore, max_versions, get_meta, write_meta, get_version, get, bump, or_fresh,
  set, delete, list_version, versions_from, oldest_version, versions, rollback,
}
use lockr.Secrets.Kv.Records.{
  compacted, KvLaws, MetaIs, VersionIs, db-get_meta, db-get_version, write_meta_effect,
  VersionIs-SameBut,
}
use lockr.Secrets.Kv.Writes.{Left-of_store_entry}
use lockr.Secrets.Kv.Secret.{
  History, record_version, Starts, IsSecret, version_at, db-get, answer, get-answer, set-IsSecret,
}

module _ (p : Platform) (kv : KvStore) {compact : Option Bytes → Option Bytes}
    (laws : KvLaws p kv compact) where
  -- A successful Set of one path leaves the secret at every other path as it was.
  pub set_other_path :
      (path q : Bytes) (value : Option Bytes) (m n : KvMeta) (hist : History) (w w' : World p)
      (e : KvEntry)
      → path ≢ q
      → Starts p kv w.db path m
      → m.path ≡ path
      → m.current_version + 1 < 2 ^ 63
      → set p kv path value w ≡ (ok e, w')
      → IsSecret p kv w.db q n hist
      → IsSecret p kv w'.db q n hist
  unfolding set
  set_other_path path q value m n hist w w' e apart (r, reads, fresh) named room h secret =
      let w1 : World p = (get_meta p kv path w).1 in
      let db1 : w1.db ≡ w.db = db-get_meta p kv path w in
      let read : (get_meta p kv path w).0 ≡ r = reads w.tick in
      let next = int_incr_nat m.current_version room in
      let (left, made) =
        Left-of_store_entry p kv laws path (bump m) (unfold bump in named)
          (unfold bump in omega (arith, next)) value w1 w' e
          (rw (read, resume, fresh, resume) at h) in
      record {
        meta = left.other_metas q (ok n) apart (rw db1 secret.meta);
        named = secret.named;
        started = secret.started;
        nat = secret.nat;
        kept = λ u lo hi near.
            left.other_versions q u (ok (hist u)) (omega (arith, secret.nat))
              (λ same. absurd (apart same)) (rw db1 (secret.kept u lo hi near));
      }

  -- A successful Delete of a stored secret marks it deleted and keeps its versions.
  pub delete-IsSecret :
      (path : Bytes) (m : KvMeta) (hist : History) (w w' : World p)
      → IsSecret p kv w.db path m hist
      → delete p kv path w ≡ (ok tt, w')
      → (time : ℕ) × IsSecret p kv w'.db path (record m { deleted_at = some time }) hist
  unfolding delete now
  delete-IsSecret path m hist w w' secret h =
      let w1 : World p = (get_meta p kv path w).1 in
      let db1 : w1.db ≡ w.db = db-get_meta p kv path w in
      let read : (get_meta p kv path w).0 ≡ ok m = secret.meta w.tick in
      let marked : KvMeta = record m { deleted_at = some (p.clock w1.tick) } in
      let w2 : World p = record { db = w1.db; tick = suc w1.tick } in
      let written : write_meta p kv marked w2 ≡ (ok tt, w') = rw (read, resume) at h in
      let (noted, keeps) = write_meta_effect p kv laws marked w2 w' written in
      (
        p.clock w1.tick,
        record {
          meta = subst (λ x. MetaIs p kv w'.db x (ok marked)) secret.named noted;
          named = secret.named;
          started = secret.started;
          nat = secret.nat;
          kept = λ u lo hi near.
              VersionIs-SameBut p kv (kv_meta_key m.path) w1.db w'.db path u (ok (hist u)) keeps
                (kv_meta_key-ne-version_key m.path path u) (rw db1 (secret.kept u lo hi near));
        },
      )

  -- A successful Rollback of a live secret to a kept version makes the value of that version the
  -- newest version and keeps the history, with version numbers below 2 ^ 63.
  pub rollback-IsSecret :
      (path : Bytes) (v : Int64) (m : KvMeta) (hist : History) (w w' : World p) (e : KvEntry)
      → IsSecret p kv w.db path m hist
      → m.deleted_at ≡ none
      → 1 ≤ v
      → v ≤ m.current_version
      → m.current_version < v + max_versions
      → m.current_version + 1 < 2 ^ 63
      → rollback p kv path v w ≡ (ok e, w')
      → IsSecret p kv w'.db path
          (bump m)
          (record_version (m.current_version + 1) (compacted compact e) hist)
        × (e.value ≡ (hist v).value)
        × (e.version ≡ m.current_version + 1)
  unfolding rollback
  rollback-IsSecret path v m hist w w' e secret live lo hi near room h =
      let w1 : World p = (get p kv path v w).1 in
      let db1 : w1.db ≡ w.db = db-get p kv path v w in
      let found =
        get-answer p kv w.db path m hist v w.tick secret (omega (arith, secret.nat)) (inr near) in
      let live_answer : answer p kv path m hist v ≡ ok (hist v) = ground (arith) in
      let read : (get p kv path v w).0 ≡ ok (hist v) = found ∙ live_answer in
      let written : set p kv path (hist v).value w1 ≡ (ok e, w') =
        rw (read, map_err, resume) at h in
      let (after, _, _, value, version, _) =
        set-IsSecret p kv laws path (hist v).value m hist w1 w' e
          (ok m, rw db1 secret.meta, unfold or_fresh in refl) secret.named room (rw db1 secret.kept)
          written in
      (after, value, version)

-- Versions from `from` on, oldest first, their values removed.
pub window : ℕ → Int64 → History → List KvEntry
window zero from hist = []
window (suc n) from hist = record (hist from) { value = none } ∷ window n (from + 1) hist

module _ (p : Platform) (kv : KvStore) where
  versions_from-window :
      (fuel n : ℕ) (s : p.Store) (path : Bytes) (from current : Int64) (hist : History)
      (w : World p)
      → n ≤ fuel
      → from + n ≡ current + 1
      → 1 ≤ from
      → current + 1 < 2 ^ 63
      → ((u : Int64) → from ≤ u → u ≤ current → VersionIs p kv s path u (ok (hist u)))
      → w.db ≡ s
      → (versions_from p kv fuel path from current w).0 ≡ ok (window n from hist)
  unfolding versions_from window
  versions_from-window zero zero s path from current hist w b c lo room reads e = refl
  versions_from-window zero (suc n) s path from current hist w b c lo room reads e =
      absurd (omega arith)
  versions_from-window (suc fuel) zero s path from current hist w b c lo room reads e =
      let over : int_lt current from ≡ true =
        int_lt_nat current from (omega arith) (omega arith) ∙ (ground arith) in
      rw over
  versions_from-window (suc fuel) (suc n) s path from current hist w b c lo room reads e =
      let under : int_lt current from ≡ false =
        int_lt_nat current from (omega arith) (omega arith) ∙ (ground arith) in
      let read =
        version_at p kv s path from (ok (hist from)) w (reads from (omega arith) (omega arith)) e in
      let w1 : World p = (get_version p kv path from w).1 in
      let rest =
        versions_from-window fuel n s path (from + 1) current hist w1 (omega arith) (omega arith)
          (omega arith) room (λ u a. reads u (omega arith)) (db-get_version p kv path from w ∙ e) in
      let step : int_incr from ≡ from + 1 = int_incr_nat from (omega arith) in
      rw under (rw (read, step) (rw (rest, resume) (unfold list_version in refl)))

  pub oldest_version_nat :
      (current : Int64)
      → 1 ≤ current
      → current + 1 < 2 ^ 63
      → oldest_version current ≡ current + 1 - min current max_versions
  unfolding oldest_version int_lt int_incr int_sub
  oldest_version_nat current lo room = ground arith

  -- On a stored secret with fewer than 2 ^ 63 - 1 versions, Versions lists the newest ten versions,
  -- or all if there are fewer, oldest first, each without its value.
  pub versions-window :
      (s : p.Store) (path : Bytes) (m : KvMeta) (hist : History) (t : ℕ)
      → IsSecret p kv s path m hist
      → m.current_version + 1 < 2 ^ 63
      → (versions p kv path (at p s t)).0
        ≡ ok (
            window
              (min m.current_version max_versions)
              (m.current_version + 1 - min m.current_version max_versions)
              hist)
  unfolding versions
  versions-window s path m hist t secret room =
      let n = min m.current_version max_versions in
      let oldest = oldest_version_nat m.current_version secret.started room in
      rw (secret.meta t, resume)
        (rw oldest (
          versions_from-window max_versions n s path (m.current_version + 1 - n) m.current_version
            hist _ (omega arith) (omega (arith, secret.started)) (omega (arith, secret.started))
            room (λ u lo hi. secret.kept u (omega (arith, secret.started)) hi (omega (arith)))
            (db-get_meta p kv path (at p s t))))
