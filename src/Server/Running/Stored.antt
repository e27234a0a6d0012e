-- ===== src/Server/Running/Stored.antt =====
-- What the store holds stays while the server runs, as long as no request is routed to the handlers that
-- write it.
use lockr.Base.{ℕ, arith, ◌∙◌, ◌≡◌, true, List, Bytes, codes, has_prefix-append}
use lockr.Base.Int.{Int64}
use lockr.Keys.{kv_meta_key, kv_version_key, user_path, transit_path}
use lockr.Platform.{Platform, World}
use lockr.Platform.Laws.{StoreLaws}
use lockr.Storage.Db as Db
use lockr.Storage.Sealed.{at}
use lockr.Storage.Frame.{Frame}
use lockr.Secrets.Kv.{KvMeta, KvStore, get_meta, get_version}
use lockr.Secrets.Kv.Secret.{History, IsSecret}
use lockr.Secrets.Transit.{TransitStore, TransitKeyMeta, load_meta}
use lockr.Secrets.Transit.Rotation.{IsKey}
use lockr.Auth.User.{UserAuth, get, verify}
use lockr.Api.Site.{Site, SiteState}
use lockr.Api.Site.Onward.{FileLaw}
use lockr.Server.Running.{Event, is_quiet, steps, steps-Onward}

module _ (p : Platform) (w w' : World p) where
  get_meta-Frame :
      (kv : KvStore) (path : Bytes) (t : ℕ)
      → Frame p (codes "secrets/kv/") w w'
      → (get_meta p kv path (at p w'.db t)).0 ≡ (get_meta p kv path (at p w.db t)).0
  unfolding get_meta Db.get kv_meta_key
  get_meta-Frame kv path t same =
      let read = same t (kv_meta_key path) (has_prefix-append (codes "secrets/kv/") _) in
      ground (arith, read)

  get_version-Frame :
      (kv : KvStore) (path : Bytes) (v : Int64) (t : ℕ)
      → Frame p (codes "secrets/kv/") w w'
      → (get_version p kv path v (at p w'.db t)).0 ≡ (get_version p kv path v (at p w.db t)).0
  unfolding get_version Db.get kv_version_key
  get_version-Frame kv path v t same =
      let read = same t (kv_version_key path v) (has_prefix-append (codes "secrets/kv/") _) in
      ground (arith, read)

  IsSecret-Frame :
      (kv : KvStore) (path : Bytes) (m : KvMeta) (hist : History)
      → Frame p (codes "secrets/kv/") w w'
      → IsSecret p kv w.db path m hist
      → IsSecret p kv w'.db path m hist
  IsSecret-Frame kv path m hist same h = record {
    meta = λ t. get_meta-Frame kv path t same ∙ h.meta t;
    named = h.named;
    started = h.started;
    nat = h.nat;
    kept = λ u a b d t. get_version-Frame kv path u t same ∙ h.kept u a b d t;
  }

  load_meta-Frame :
      (transit : TransitStore) (name : Bytes) (t : ℕ)
      → Frame p (codes "secrets/transit/") w w'
      → (load_meta p transit name (at p w'.db t)).0 ≡ (load_meta p transit name (at p w.db t)).0
  unfolding load_meta Db.get transit_path
  load_meta-Frame transit name t same =
      let read = same t (transit_path name) (has_prefix-append (codes "secrets/transit/") _) in
      ground (arith, read)

  IsKey-Frame :
      (transit : TransitStore) (name : Bytes) (m : TransitKeyMeta)
      → Frame p (codes "secrets/transit/") w w'
      → IsKey p transit w.db name m
      → IsKey p transit w'.db name m
  IsKey-Frame transit name m same h = record {
    stored = λ t. load_meta-Frame transit name t same ∙ h.stored t;
    formed = h.formed;
  }

  verify-Frame :
      (a : UserAuth) (username password : Bytes) (t : ℕ)
      → Frame p (codes "auth/users/") w w'
      → (verify p a username password (at p w'.db t)).0
        ≡ (verify p a username password (at p w.db t)).0
  unfolding verify get Db.get user_path
  verify-Frame a username password t same =
      let read = same t (user_path username) (has_prefix-append (codes "auth/users/") _) in
      ground (arith, read)

module _ (p : Platform) (c : Site) (store : StoreLaws p) (file : FileLaw c.audit_log) where
  -- A secret with its history stays in the store over any sequence of requests that are not routed
  -- to the handlers of the secrets, prunings of the challenges and reloads of the policies.
  pub steps-IsSecret :
      (es : List Event) (s : SiteState p) (path : Bytes) (m : KvMeta) (hist : History)
      → is_quiet c es (codes "secrets/kv/") ≡ true
      → IsSecret p c.kv s.auth.world.db path m hist
      → IsSecret p c.kv (steps p c es s).auth.world.db path m hist
  steps-IsSecret es s path m hist quiet h =
      IsSecret-Frame p s.auth.world (steps p c es s).auth.world c.kv path m hist
        (steps-Onward p c store file (codes "secrets/kv/") es s quiet).frame h

  -- A transit key stays as it is over any sequence of requests that are not routed to the handlers of the
  -- transit keys, prunings of the challenges and reloads of the policies.
  pub steps-IsKey :
      (es : List Event) (s : SiteState p) (name : Bytes) (m : TransitKeyMeta)
      → is_quiet c es (codes "secrets/transit/") ≡ true
      → IsKey p c.transit s.auth.world.db name m
      → IsKey p c.transit (steps p c es s).auth.world.db name m
  steps-IsKey es s name m quiet h =
      IsKey-Frame p s.auth.world (steps p c es s).auth.world c.transit name m
        (steps-Onward p c store file (codes "secrets/transit/") es s quiet).frame h

  -- Whom a password lets in does not change over any sequence of requests that are not routed to the
  -- handlers of the users, prunings of the challenges and reloads of the policies: Verify of a user
  -- answers as before.
  pub steps-verify :
      (es : List Event) (s : SiteState p) (username password : Bytes) (t : ℕ)
      → is_quiet c es (codes "auth/users/") ≡ true
      → (verify p c.users username password (at p (steps p c es s).auth.world.db t)).0
        ≡ (verify p c.users username password (at p s.auth.world.db t)).0
  steps-verify es s username password t quiet =
      verify-Frame p s.auth.world (steps p c es s).auth.world c.users username password t
        (steps-Onward p c store file (codes "auth/users/") es s quiet).frame
