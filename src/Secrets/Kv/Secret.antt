-- ===== src/Secrets/Kv/Secret.antt =====
-- The abstract view of a secret: its metadata and a history of versions, of which the newest ten are
-- kept. What each operation answers from that view, and what it makes of it.
use lockr.Base.{
  ℕ, ◌+◌, ◌≤◌, ◌<◌, ◌^◌, ◌≡◌, ◌⊎◌, refl, ap, ◌∙◌, false, Option, none, Bytes, inl, inr, eqb,
  eqb_iff, ltb, if◌then◌else◌, arith,
}
use lockr.Base.Int.{Int64, IsNat, int_lt, int_incr_nat}
use native.Mathlib.Decide.{dec_lt, ℕ_discrete}
use lockr.Result.{secret_deleted, version_not_found, Result, ok, err, Result-cases, resume}
use lockr.Platform.{Platform, World}
use lockr.Storage.Sealed.{at}
use lockr.Secrets.Kv.{
  KvEntry, KvMeta, KvStore, max_versions, is_some, get_meta, get_version, get_from, get, bump,
  new_entry, store_entry, or_fresh, set,
}
use lockr.Secrets.Kv.Records.{compacted, KvLaws, MetaIs, VersionIs, db-get_meta, db-get_version}
use lockr.Secrets.Kv.Writes.{Left, Left-of_store_entry}

abbrev pub History : Type 0
History = Int64 → KvEntry

-- The history with a new version.
abbrev pub record_version : Int64 → KvEntry → History → History
record_version v e hist u = if eqb u v then e else hist u

module _ (p : Platform) (kv : KvStore) where
  -- The newest ten versions up to the current one are readable and are those of the history.
  abbrev pub Keeps : p.Store → Bytes → Int64 → History → Type 0
  Keeps s path current hist =
      (u : Int64)
      → 1 ≤ u
      → u ≤ current
      → current < u + max_versions
      → VersionIs p kv s path u (ok (hist u))

  -- Where a write starts: the metadata that it finds, or that of version 0 if it finds none.
  abbrev pub Starts : p.Store → Bytes → KvMeta → Type 0
  Starts s path m = (r : Result KvMeta) × MetaIs p kv s path r × (or_fresh path r ≡ ok m)

-- The database holds the secret `m` with the history `hist` at the path.
pub record IsSecret (p : Platform) (kv : KvStore) (s : p.Store) (path : Bytes) (m : KvMeta)
    (hist : History) : Type 0 where
  pub meta : MetaIs p kv s path (ok m)
  pub named : m.path ≡ path
  pub started : 1 ≤ m.current_version
  pub nat : IsNat m.current_version
  pub kept : Keeps p kv s path m.current_version hist

module _ (p : Platform) (kv : KvStore) where
  pub version_at :
      (s : p.Store) (path : Bytes) (v : Int64) (r : Result KvEntry) (w : World p)
      → VersionIs p kv s path v r
      → w.db ≡ s
      → (get_version p kv path v w).0 ≡ r
  version_at s path v r w h e =
      let here : w ≡ at p s w.tick = ap (λ d. at p d w.tick) e in rw here (h w.tick)

  -- What Get answers from the abstract view: an error if the secret is deleted, the current version
  -- for version 0, an error for a version that is negative or past the current one, else the version.
  abbrev pub answer : Bytes → KvMeta → History → Int64 → Result KvEntry
  answer path m hist v =
      if is_some m.deleted_at
      then err (secret_deleted path)
      else if eqb v 0
      then ok (hist m.current_version)
      else if ltb m.current_version v
      then err (version_not_found v path)
      else ok (hist v)

  get_from-answer :
      (s : p.Store) (path : Bytes) (m : KvMeta) (hist : History) (v : Int64) (w : World p)
      → IsSecret p kv s path m hist
      → v < 2 ^ 64
      → (v ≡ 0) ⊎ (m.current_version < v + max_versions)
      → w.db ≡ s
      → (get_from p kv path v m w).0 ≡ answer path m hist v
  unfolding get_from int_lt
  get_from-answer s path m hist v w h bound (inl z) e =
      let cur =
        version_at s path m.current_version _ w
          (h.kept m.current_version h.started (omega arith) (omega arith)) e in
      rw z (ground (arith, cur))
  get_from-answer s path m hist v w h bound (inr near) e = elim (dec_lt m.current_version v) [
    | yes past ↦ ground arith
    | no within ↦ elim (dec_lt 0 v) [
      | yes pos ↦
          let found = version_at s path v _ w (h.kept v (omega arith) (omega arith) near) e in
          ground (arith, found)
      | no z ↦
          let cur =
            version_at s path m.current_version _ w
              (h.kept m.current_version h.started (omega arith) (omega arith)) e in
          ground (arith, cur)
    ]
  ]

  -- On a stored secret, Get answers for version 0, for every kept version and for every version out
  -- of range exactly what the abstract view says: an error if the secret is deleted, the current
  -- version for 0, an error past the current version or for a negative number, else the version.
  pub get-answer :
      (s : p.Store) (path : Bytes) (m : KvMeta) (hist : History) (v : Int64) (t : ℕ)
      → IsSecret p kv s path m hist
      → v < 2 ^ 64
      → (v ≡ 0) ⊎ (m.current_version < v + max_versions)
      → (get p kv path v (at p s t)).0 ≡ answer path m hist v
  unfolding get
  get-answer s path m hist v t h bound near =
      rw (h.meta t, resume)
        (get_from-answer s path m hist v _ h bound near (db-get_meta p kv path (at p s t)))

-- What a write left behind is the secret with one more version.
IsSecret-of_Left :
    (p : Platform) (kv : KvStore) (compact : Option Bytes → Option Bytes) (path : Bytes)
    (meta : KvMeta) (n : Int64) (hist : History) (s s' : p.Store) (e : KvEntry)
    → meta.path ≡ path
    → meta.current_version ≡ n + 1
    → n + 1 < 2 ^ 63
    → Keeps p kv s path n hist
    → Left p kv compact path meta s s' e
    → IsSecret p kv s' path meta (record_version (n + 1) (compacted compact e) hist)
IsSecret-of_Left p kv compact path meta n hist s s' e named next room kept left = record {
  meta = left.current;
  named = named;
  started = omega arith;
  nat = omega arith;
  kept = λ u lo hi near. elim (ℕ_discrete u (n + 1)) [
    | yes new ↦
        let same : meta.current_version ≡ u = omega arith in
        rw ((eqb_iff u (n + 1)).1 new) (rw (← same) left.newest)
    | no old ↦
        let was = kept u lo (omega arith) (omega arith) in
        let unequal : eqb u (n + 1) ≡ false = ground arith in
        rw unequal (
          left.other_versions path u (ok (hist u)) (omega arith) (λ q. (omega arith, omega arith))
            was)
  ];
}

module _ (p : Platform) (kv : KvStore) where
  db-get_from :
      (path : Bytes) (v : Int64) (m : KvMeta) (w : World p) → (get_from p kv path v m w).1.db ≡ w.db
  unfolding get_from
  db-get_from path v m w =
      ground (arith, db-get_version p kv path v w, db-get_version p kv path m.current_version w)

  -- Get changes nothing in the database.
  pub db-get : (path : Bytes) (v : Int64) (w : World p) → (get p kv path v w).1.db ≡ w.db
  unfolding get
  db-get path v w = elim (Result-cases (get_meta p kv path w).0) [
    | inl (m, e) ↦
        rw (e, resume) (db-get_from path v m (get_meta p kv path w).1 ∙ db-get_meta p kv path w)
    | inr (x, e) ↦ rw (e, resume) (db-get_meta p kv path w)
  ]

module _ (p : Platform) (kv : KvStore) {compact : Option Bytes → Option Bytes}
    (laws : KvLaws p kv compact) where
  -- The write part of Set adds one version to a secret.
  store_entry-IsSecret :
      (path : Bytes) (m : KvMeta) (hist : History) (value : Option Bytes) (w w' : World p)
      (e : KvEntry)
      → m.path ≡ path
      → m.current_version + 1 < 2 ^ 63
      → Keeps p kv w.db path m.current_version hist
      → store_entry p kv path value (bump m) w ≡ (ok e, w')
      → IsSecret p kv w'.db path
          (bump m)
          (record_version (m.current_version + 1) (compacted compact e) hist)
        × (e ≡ new_entry path value (bump m) (p.clock w.tick))
  unfolding bump
  store_entry-IsSecret path m hist value w w' e named room kept h =
      let next = int_incr_nat m.current_version room in
      let (left, made) =
        Left-of_store_entry p kv laws path (bump m) named (omega (arith, next)) value w w' e h in
      (
        IsSecret-of_Left p kv compact path (bump m) m.current_version hist w.db w'.db e named next
            room kept left,
        made,
      )

  -- If a path holds a secret with a kept history, or nothing, a successful Set makes the value the
  -- current version, numbered one past the one it starts from, undeletes the secret, and keeps the
  -- nine versions before it as they were; the version numbers stay below 2 ^ 63.
  pub set-IsSecret :
      (path : Bytes) (value : Option Bytes) (m : KvMeta) (hist : History) (w w' : World p)
      (e : KvEntry)
      → Starts p kv w.db path m
      → m.path ≡ path
      → m.current_version + 1 < 2 ^ 63
      → Keeps p kv w.db path m.current_version hist
      → set p kv path value w ≡ (ok e, w')
      → IsSecret p kv w'.db path
          (bump m)
          (record_version (m.current_version + 1) (compacted compact e) hist)
        × ((bump m).current_version ≡ m.current_version + 1)
        × ((bump m).deleted_at ≡ none)
        × (e.value ≡ value)
        × (e.version ≡ m.current_version + 1)
        × (e.path ≡ path)
  unfolding set
  set-IsSecret path value m hist w w' e (r, reads, fresh) named room kept h =
      let w1 : World p = (get_meta p kv path w).1 in
      let db1 : w1.db ≡ w.db = db-get_meta p kv path w in
      let read : (get_meta p kv path w).0 ≡ r = reads w.tick in
      let stored : store_entry p kv path value (bump m) w1 ≡ (ok e, w') =
        rw (read, resume, fresh, resume) at h in
      let next = int_incr_nat m.current_version room in
      let (secret, made) =
        store_entry-IsSecret path m hist value w1 w' e named room (rw db1 kept) stored in
      (
        secret,
        unfold bump in next,
        unfold bump in refl,
        rw made (unfold new_entry in refl),
        rw made (unfold new_entry bump in next),
        rw made (unfold new_entry in refl),
      )
