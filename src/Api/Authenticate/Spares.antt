-- ===== src/Api/Authenticate/Spares.antt =====
-- The authentication writes sessions, and nothing else.
use lockr.Base.{◌≡◌, false, codes, ◌==◌, ◌&&◌, Bool, Bytes, has_prefix}
use lockr.Result.{try, pure, ◌>>=◌}
use lockr.Result.Follows.{Follows-if}
use lockr.Platform.{Platform}
use lockr.Platform.Laws.{StoreLaws}
use lockr.Storage.Frame.{Spares, Frame-IsPreorder, frame_rules}
use lockr.Auth.Session.{SessionStore, session_key}
use lockr.Auth.Session.Spares.{validate-Spares}
use lockr.Auth.Admin.{AdminAuth, has_admins}
use lockr.Auth.Admin.Spares.{has_admins-Spares, verify-Spares}
use lockr.Api.Authenticate.{
  Call, no_admins, allow_first_admin_bootstrap, bootstrap_access, token_access, authenticate,
}

module _ (p : Platform) (store : StoreLaws p) (sessions : SessionStore) (admins : AdminAuth)
    (area : Bytes)
    (out : (token : Bytes) → has_prefix (session_key p sessions token) area ≡ false) where
  allow_first_admin_bootstrap-Spares :
      (r : Call) → Spares p area (allow_first_admin_bootstrap p sessions admins r)
  unfolding allow_first_admin_bootstrap
  allow_first_admin_bootstrap-Spares r =
      Follows-if (Frame-IsPreorder p area)
        (r.method == codes "POST" && r.url_path == codes "/v1/sys/admin/create")
        (do found ← try (has_admins p admins); pure (no_admins found)) (pure false)
        (search (frame_rules, has_admins-Spares p admins area)) (search frame_rules)

  bootstrap_access-Spares : (r : Call) → Spares p area (bootstrap_access p sessions admins r)
  unfolding bootstrap_access
  bootstrap_access-Spares r = search (frame_rules, allow_first_admin_bootstrap-Spares)

  token_access-Spares : (token : Bytes) → Spares p area (token_access p sessions admins token)
  unfolding token_access
  token_access-Spares token =
      search (frame_rules, verify-Spares p admins area, validate-Spares p store sessions area out)
        depth 9

  pub authenticate-Spares :
      (dev_mode : Bool) (r : Call) → Spares p area (authenticate p sessions admins dev_mode r)
  unfolding authenticate
  authenticate-Spares dev_mode r =
      search (frame_rules, bootstrap_access-Spares, token_access-Spares)
