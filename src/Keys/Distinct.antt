-- ===== src/Keys/Distinct.antt =====
-- Different records have different keys.
use lockr.Base.{◌∷◌, ◌++◌, ◌≡◌, ◌≢◌, refl, Bytes, codes, arith}
use lockr.Base.Decimal.{NoByte}
use lockr.Base.Segments.{last_segment_inj}
use lockr.Base.Int.{Int64, IsNat, format_int, format_int-inj, format_int-NoByte}
use lockr.Keys.{
  kv_meta_key, kv_version_key, transit_path, user_path, admin_path, service_path, totp_path,
}
use mathlib.Core.List.{append_cancel_left, append_cancel_right}

version_segment : Int64 → Bytes
version_segment v = b'v' ∷ format_int v

version_segment-NoByte : (v : Int64) → NoByte b'/' (version_segment v)
unfolding version_segment
version_segment-NoByte v = (omega arith, format_int-NoByte b'/' v (omega arith) (omega arith))

meta_segment-NoByte : NoByte b'/' (codes "__meta")
meta_segment-NoByte = omega arith

pub kv_meta_key-inj : (p q : Bytes) → kv_meta_key p ≡ kv_meta_key q → p ≡ q
unfolding kv_meta_key
kv_meta_key-inj p q e =
    append_cancel_right p q (codes "/__meta") (append_cancel_left (codes "secrets/kv/") _ _ e)

-- No version of any secret shares a key with the metadata of any secret, whatever slashes the two
-- paths hold.
pub kv_meta_key-ne-version_key : (p q : Bytes) (v : Int64) → kv_meta_key p ≢ kv_version_key q v
unfolding kv_meta_key kv_version_key version_segment
kv_meta_key-ne-version_key p q v e =
    let same =
      last_segment_inj b'/' p q (codes "__meta") (version_segment v) meta_segment-NoByte
        (version_segment-NoByte v) (append_cancel_left (codes "secrets/kv/") _ _ e) in
    let segments = same.1 in ground arith

-- The keys of two versions, numbered from 0 up, agree only for the same path and the same version.
pub kv_version_key-inj :
    (p q : Bytes) (v w : Int64)
    → IsNat v
    → IsNat w
    → kv_version_key p v ≡ kv_version_key q w
    → (p ≡ q) × (v ≡ w)
unfolding kv_version_key version_segment
kv_version_key-inj p q v w h k e =
    let same =
      last_segment_inj b'/' p q (version_segment v) (version_segment w) (version_segment-NoByte v)
        (version_segment-NoByte w) (append_cancel_left (codes "secrets/kv/") _ _ e) in
    (same.0, format_int-inj v w h k (cc (same.1)))

pub user_path-inj : (p q : Bytes) → user_path p ≡ user_path q → p ≡ q
unfolding user_path
user_path-inj p q e = append_cancel_left (codes "auth/users/") p q e

pub admin_path-inj : (p q : Bytes) → admin_path p ≡ admin_path q → p ≡ q
unfolding admin_path
admin_path-inj p q e = append_cancel_left (codes "auth/admins/") p q e

pub transit_path-inj : (p q : Bytes) → transit_path p ≡ transit_path q → p ≡ q
unfolding transit_path
transit_path-inj p q e = append_cancel_left (codes "secrets/transit/") p q e

pub service_path-inj : (p q : Bytes) → service_path p ≡ service_path q → p ≡ q
unfolding service_path
service_path-inj p q e = append_cancel_left (codes "auth/services/") p q e

-- A service of the first kind can carry the key of a one-time-password service: the name "totp/x".
pub service_path-totp : (name : Bytes) → service_path (codes "totp/" ++ name) ≡ totp_path name
unfolding service_path totp_path
service_path-totp name = refl
