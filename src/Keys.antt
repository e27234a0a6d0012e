-- ===== src/Keys.antt =====
-- The keys under which the components store their records, and the policy paths of secrets
-- (internal/secrets/kv.go, internal/secrets/transit.go, internal/auth/*.go, internal/api/*.go).
pub mod Distinct
pub mod Folders
use lockr.Base.{◌++◌, Bytes, codes}
use lockr.Base.Int.{Int64, format_int}

-- "secrets/kv/" + path
unfoldable pub kv_path : Bytes → Bytes
kv_path path = codes "secrets/kv/" ++ path

-- "secrets/kv/" + path + "/__meta"
unfoldable pub kv_meta_key : Bytes → Bytes
kv_meta_key path = codes "secrets/kv/" ++ (path ++ codes "/__meta")

-- fmt.Sprintf("secrets/kv/%s/v%d", path, version)
unfoldable pub kv_version_key : Bytes → Int64 → Bytes
kv_version_key path version = codes "secrets/kv/" ++ (path ++ (codes "/v" ++ format_int version))

-- "secrets/transit/" + name
unfoldable pub transit_path : Bytes → Bytes
transit_path name = codes "secrets/transit/" ++ name

-- "auth/sessions/" + hex digest of the token
unfoldable pub session_path : Bytes → Bytes
session_path digest = codes "auth/sessions/" ++ digest

-- "auth/admins/" + name
unfoldable pub admin_path : Bytes → Bytes
admin_path name = codes "auth/admins/" ++ name

-- "auth/users/" + username
unfoldable pub user_path : Bytes → Bytes
user_path username = codes "auth/users/" ++ username

-- "auth/services/" + name
unfoldable pub service_path : Bytes → Bytes
service_path name = codes "auth/services/" ++ name

-- "auth/services/totp/" + name
unfoldable pub totp_path : Bytes → Bytes
totp_path name = codes "auth/services/totp/" ++ name
