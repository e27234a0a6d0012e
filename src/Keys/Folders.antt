-- ===== src/Keys/Folders.antt =====
-- Keys under different folders: a record with a key under one folder is not under the other.
use lockr.Base.Int.{Int64}
use lockr.Keys.{
  kv_meta_key, kv_version_key, transit_path, session_path, user_path, admin_path, service_path,
  totp_path,
}
use lockr.Base.{
  ◌∷◌, [], ◌++◌, ◌≡◌, Bool, true, false, not, ◌&&◌, ◌||◌, List, Bytes, codes, eqb, has_prefix,
  arith,
}

-- The two texts differ at a place that both have.
unfoldable pub clash : Bytes → Bytes → Bool
clash [] b = false
clash (x ∷ a) [] = false
clash (x ∷ a) (y ∷ b) = not (eqb x y) || clash a b

-- Each of the folders clashes with the prefix.
unfoldable pub all_clash : List Bytes → Bytes → Bool
all_clash [] area = true
all_clash (folder ∷ folders) area = clash folder area && all_clash folders area

pub clash_outside :
    (folder name area : Bytes) → clash folder area ≡ true → has_prefix (folder ++ name) area ≡ false
unfolding clash has_prefix
clash_outside [] name b h = ground arith
clash_outside (x ∷ a) name [] h = ground arith
clash_outside (x ∷ a) name (y ∷ b) h = ground (arith, clash_outside a name b)

pub all_clash-cons :
    (folder : Bytes) (folders : List Bytes) (area : Bytes)
    → all_clash (folder ∷ folders) area ≡ true
    → (clash folder area ≡ true) × (all_clash folders area ≡ true)
unfolding all_clash
all_clash-cons folder folders area h = (ground arith, ground arith)

module _ (area : Bytes) where
  pub kv_meta_key-outside :
      clash (codes "secrets/kv/") area ≡ true
      → (path : Bytes) → has_prefix (kv_meta_key path) area ≡ false
  unfolding kv_meta_key
  kv_meta_key-outside h path = clash_outside _ _ area h

  pub kv_version_key-outside :
      clash (codes "secrets/kv/") area ≡ true
      → (path : Bytes) (v : Int64) → has_prefix (kv_version_key path v) area ≡ false
  unfolding kv_version_key
  kv_version_key-outside h path v = clash_outside _ _ area h

  pub transit_path-outside :
      clash (codes "secrets/transit/") area ≡ true
      → (name : Bytes) → has_prefix (transit_path name) area ≡ false
  unfolding transit_path
  transit_path-outside h name = clash_outside _ _ area h

  pub user_path-outside :
      clash (codes "auth/users/") area ≡ true
      → (name : Bytes) → has_prefix (user_path name) area ≡ false
  unfolding user_path
  user_path-outside h name = clash_outside _ _ area h

  pub admin_path-outside :
      clash (codes "auth/admins/") area ≡ true
      → (name : Bytes) → has_prefix (admin_path name) area ≡ false
  unfolding admin_path
  admin_path-outside h name = clash_outside _ _ area h

  pub service_path-outside :
      clash (codes "auth/services/") area ≡ true
      → (name : Bytes) → has_prefix (service_path name) area ≡ false
  unfolding service_path
  service_path-outside h name = clash_outside _ _ area h

  pub session_path-outside :
      clash (codes "auth/sessions/") area ≡ true
      → (digest : Bytes) → has_prefix (session_path digest) area ≡ false
  unfolding session_path
  session_path-outside h digest = clash_outside _ _ area h

  -- The services of one-time passwords have a folder below the one of the services.
  pub totp_path-outside :
      clash (codes "auth/services/") area ≡ true
      → (name : Bytes) → has_prefix (totp_path name) area ≡ false
  unfolding totp_path
  totp_path-outside h name = clash_outside (codes "auth/services/") (codes "totp/" ++ name) area h
