-- ===== src/Secrets/Kv/Writes.antt =====
-- What `Set` leaves in the database for its own path and for every other.
use lockr.Base.{suc, ◌+◌, ◌<◌, ◌≡◌, ◌≢◌, refl, sym, Bool-cases, Option, Bytes, inl, inr, arith}
use mathlib.Core.Path.{subst}
use lockr.Base.Int.{Int64, IsNat, int_lt, int_lt_nat, int_sub, int_sub_nat}
use lockr.Keys.{kv_meta_key, kv_version_key}
use lockr.Keys.Distinct.{kv_meta_key-inj, kv_meta_key-ne-version_key, kv_version_key-inj}
use lockr.Result.{Result, ok, Result-cases}
use lockr.Platform.{Platform, World, now}
use lockr.Platform.Laws.{StoreLaws}
use lockr.Storage.Sealed.{SameBut, delete-SameBut}
use lockr.Secrets.Kv.{
  KvEntry, KvMeta, KvStore, max_versions, write_meta, write_version, delete_version, prune,
  new_entry, store_entry,
}
use lockr.Secrets.Kv.Records.{
  compacted, KvLaws, MetaIs, VersionIs, write_meta_effect, write_version_effect, MetaIs-SameBut,
  VersionIs-SameBut,
}

-- The steps of a successful write, with the state after each.
record Steps (p : Platform) (kv : KvStore) (path : Bytes) (value : Option Bytes) (meta : KvMeta)
    (w w' : World p) (e : KvEntry) : Type 0 where
  entry_eq : e ≡ new_entry path value meta (p.clock w.tick)
  w2 : World p
  w3 : World p
  w4 : World p
  start : w2.db ≡ w.db
  version_written : write_version p kv e w2 ≡ (ok tt, w3)
  meta_written : write_meta p kv meta w3 ≡ (ok tt, w4)
  pruned : (prune p kv path meta.current_version w4).1 ≡ w'

module _ (p : Platform) (kv : KvStore) where
  Steps-of_store_entry :
      (path : Bytes) (value : Option Bytes) (meta : KvMeta) (w w' : World p) (e : KvEntry)
      → store_entry p kv path value meta w ≡ (ok e, w')
      → Steps p kv path value meta w w' e
  unfolding store_entry now prune
  Steps-of_store_entry path value meta w w' e h =
      let entry = new_entry path value meta (p.clock w.tick) in
      let w2 : World p = record w { tick = suc w.tick } in
      let wrote = write_version p kv entry w2 in
      elim (Result-cases wrote.0) [
        | inl (u, a) ↦
            let w3 : World p = wrote.1 in
            let noted = write_meta p kv meta w3 in
            elim (Result-cases noted.0) [
              | inl (u', b) ↦ record {
                entry_eq = ground arith;
                w2 = w2;
                w3 = w3;
                w4 = noted.1;
                start = refl;
                version_written = ground arith;
                meta_written = ground arith;
                pruned = ground arith;
              }
              | inr (x, b) ↦ ground arith
            ]
        | inr (x, a) ↦ ground arith
      ]

  prune-SameBut :
      StoreLaws p
      → (path : Bytes) (current : Int64) (w : World p)
      → SameBut p
          (kv_version_key path (int_sub current max_versions))
          w.db
          (prune p kv path current w).1.db
  unfolding prune delete_version
  prune-SameBut store path current w t j n = elim (Bool-cases (int_lt max_versions current)) [
    | inl y ↦
        rw y (delete-SameBut p store (kv_version_key path (int_sub current max_versions)) w t j n)
    | inr k ↦ rw k
  ]

module _ (p : Platform) (kv : KvStore) {compact : Option Bytes → Option Bytes}
    (laws : KvLaws p kv compact) where
  -- Pruning touches no metadata, and no version but the one that is ten older than the current one.
  prune_meta :
      (path q : Bytes) (current : Int64) (w : World p) (r : Result KvMeta)
      → MetaIs p kv w.db q r
      → MetaIs p kv (prune p kv path current w).1.db q r
  prune_meta path q current w r h =
      MetaIs-SameBut p kv (kv_version_key path (int_sub current max_versions)) w.db _ q r
        (prune-SameBut p kv laws.store path current w)
        (λ e. kv_meta_key-ne-version_key q path (int_sub current max_versions) (sym e)) h

  prune_version :
      (path q : Bytes) (current u : Int64) (w : World p) (r : Result KvEntry)
      → IsNat current
      → IsNat u
      → (path ≡ q → current ≢ u + max_versions)
      → VersionIs p kv w.db q u r
      → VersionIs p kv (prune p kv path current w).1.db q u r
  prune_version path q current u w r hc hu n h = elim (Bool-cases (int_lt max_versions current)) [
    | inl y ↦
        let above : max_versions < current =
          ground (arith, int_lt_nat max_versions current (omega arith) hc) in
        let old = int_sub_nat current max_versions hc (omega (arith, above)) in
        VersionIs-SameBut p kv (kv_version_key path (int_sub current max_versions)) w.db _ q u r
          (prune-SameBut p kv laws.store path current w)
          (λ e.
            let (same_path, same_version) =
              kv_version_key-inj path q (int_sub current max_versions) u (omega (arith, old)) hu
                e in
            n same_path (omega (arith, old, same_version, above)))
          h
    | inr k ↦ unfold prune in rw k h
  ]

-- What a write of an entry and of the metadata leaves behind for the reads of every path.
pub record Left (p : Platform) (kv : KvStore) (compact : Option Bytes → Option Bytes) (path : Bytes)
    (meta : KvMeta) (s s' : p.Store) (e : KvEntry) : Type 0 where
  pub current : MetaIs p kv s' path (ok meta)
  pub newest : VersionIs p kv s' path meta.current_version (ok (compacted compact e))
  pub other_metas :
      (q : Bytes) (r : Result KvMeta) → path ≢ q → MetaIs p kv s q r → MetaIs p kv s' q r
  pub other_versions :
      (q : Bytes) (u : Int64) (r : Result KvEntry)
      → IsNat u
      → (path ≡ q → (meta.current_version ≢ u) × (meta.current_version ≢ u + max_versions))
      → VersionIs p kv s q u r
      → VersionIs p kv s' q u r

module _ (p : Platform) (kv : KvStore) {compact : Option Bytes → Option Bytes}
    (laws : KvLaws p kv compact) (path : Bytes) (meta : KvMeta) (named : meta.path ≡ path)
    (nat : IsNat meta.current_version) where
  Left-of_Steps :
      (value : Option Bytes) (w w' : World p) (e : KvEntry)
      → Steps p kv path value meta w w' e
      → Left p kv compact path meta w.db w'.db e
  Left-of_Steps value w w' e st =
      let v = meta.current_version in
      let entry_path : e.path ≡ path = rw st.entry_eq (unfold new_entry in refl) in
      let entry_version : e.version ≡ v = rw st.entry_eq (unfold new_entry in refl) in
      let (wrote, keeps_entry) = write_version_effect p kv laws e st.w2 st.w3 st.version_written in
      let (noted, keeps_meta) = write_meta_effect p kv laws meta st.w3 st.w4 st.meta_written in
      let keeps_v : SameBut p (kv_version_key path v) st.w2.db st.w3.db =
        subst (λ x. SameBut p (kv_version_key x v) st.w2.db st.w3.db) entry_path
          (subst (λ x. SameBut p (kv_version_key e.path x) st.w2.db st.w3.db) entry_version
            keeps_entry) in
      let keeps_m : SameBut p (kv_meta_key path) st.w3.db st.w4.db =
        subst (λ x. SameBut p (kv_meta_key x) st.w3.db st.w4.db) named keeps_meta in
      let wrote_v : VersionIs p kv st.w3.db path v (ok (compacted compact e)) =
        subst (λ x. VersionIs p kv st.w3.db x v (ok (compacted compact e))) entry_path
          (subst (λ x. VersionIs p kv st.w3.db e.path x (ok (compacted compact e))) entry_version
            wrote) in
      let noted_m : MetaIs p kv st.w4.db path (ok meta) =
        subst (λ x. MetaIs p kv st.w4.db x (ok meta)) named noted in
      let version_through : (q : Bytes) (u : Int64) (r : Result KvEntry)
          → VersionIs p kv st.w3.db q u r
          → VersionIs p kv st.w4.db q u r =
        λ q u r.
          VersionIs-SameBut p kv (kv_meta_key path) st.w3.db st.w4.db q u r keeps_m
            (kv_meta_key-ne-version_key path q u) in
      record {
        current = rw (← st.pruned) (prune_meta p kv laws path path v st.w4 (ok meta) noted_m);
        newest = rw (← st.pruned) (
            prune_version p kv laws path path v v st.w4 _ nat nat (λ q. omega arith)
              (version_through path v _ wrote_v));
        other_metas = λ q r n h. rw (← st.pruned) (
            prune_meta p kv laws path q v st.w4 r (
              MetaIs-SameBut p kv (kv_meta_key path) st.w3.db st.w4.db q r keeps_m
                (λ k. n (kv_meta_key-inj path q k))
                (MetaIs-SameBut p kv (kv_version_key path v) st.w2.db st.w3.db q r keeps_v
                  (λ k. kv_meta_key-ne-version_key q path v (sym k)) (rw st.start h))));
        other_versions = λ q u r hu n h. rw (← st.pruned) (
            prune_version p kv laws path q v u st.w4 r nat hu (λ k. (n k).1)
              (version_through q u r (
                VersionIs-SameBut p kv (kv_version_key path v) st.w2.db st.w3.db q u r keeps_v
                  (λ k. let same = kv_version_key-inj path q v u nat hu k in (n same.0).0 same.1)
                  (rw st.start h))));
      }

  -- A successful write of a new entry: what it returns, and what it leaves behind.
  pub Left-of_store_entry :
      (value : Option Bytes) (w w' : World p) (e : KvEntry)
      → store_entry p kv path value meta w ≡ (ok e, w')
      → Left p kv compact path meta w.db w'.db e × (e ≡ new_entry path value meta (p.clock w.tick))
  Left-of_store_entry value w w' e h =
      let st = Steps-of_store_entry p kv path value meta w w' e h in
      (Left-of_Steps value w w' e st, st.entry_eq)
