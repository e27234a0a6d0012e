-- ===== src/Api/Routes/Onward/Inner.antt =====
-- What a request behind the authentication may do to the database, the log and the policies.
use lockr.Base.{
  Bool-cases, inl, inr, ◌||◌, ◌==◌, [], ◌≡◌, true, false, ◌∷◌, Bytes, codes, has_prefix,
}
use lockr.Keys.Folders.{
  clash, all_clash, all_clash-cons, clash_outside, kv_meta_key-outside, kv_version_key-outside,
  transit_path-outside, user_path-outside, admin_path-outside, service_path-outside,
  totp_path-outside, session_path-outside,
}
use lockr.Platform.{Platform}
use lockr.Platform.Laws.{StoreLaws}
use lockr.Auth.Session.{session_key}
use lockr.Audit.{audit_key}
use lockr.Api.Mux.{Routed, moved, not_found, found}
use lockr.Api.Site.{HttpRequest, Site, Action}
use lockr.Api.Site.Onward.{Advances, site_order, advances_rules, Advances-if, Advances-on_world}
use lockr.Api.Authenticate.{Caller}
use lockr.Api.Kv.Spares.{route_kv-Leaves}
use lockr.Api.Transit.Spares.{route_transit-Leaves}
use lockr.Api.Login.Onward.{handle_logout-Advances, handle_whoami-Advances}
use lockr.Api.Manage.Onward.{
  handle_user_create-Advances, handle_user_list-Advances, handle_user_delete-Advances,
  handle_user_update-Advances, handle_status-Advances, handle_enroll-Advances,
  handle_revoke-Advances, handle_audit-Advances, handle_admin_create-Advances,
  handle_admin_delete-Advances, handle_policy_reload-Advances,
}
use lockr.Api.Routes.{
  Inner, logout, whoami, kv, transit, status, enroll, revoke, audit, admin_create, admin_delete,
  policy_reload, users, user, admin_only, no_method, server, users_action, user_action,
  inner_action, inner_routed,
}
use lockr.Api.Routes.Folders.{sessions_folder, audit_folder, written_by, written_behind}

module _ (area : Bytes) where
  pub audit_key-outside :
      clash audit_folder area ≡ true
      → (time id : Bytes) → has_prefix (audit_key time id) area ≡ false
  unfolding audit_key
  audit_key-outside h time id = clash_outside _ _ area h

  pub all_clash-one :
      (folder : Bytes) → all_clash (folder ∷ []) area ≡ true → clash folder area ≡ true
  all_clash-one folder out = (all_clash-cons folder [] area out).0

module _ (p : Platform) (c : Site) (area : Bytes) (h : HttpRequest) where
  pub session_key-outside :
      clash sessions_folder area ≡ true
      → (token : Bytes) → has_prefix (session_key p c.sessions token) area ≡ false
  unfolding session_key
  session_key-outside k token = session_path-outside area k _

  admin_only-Advances :
      (who : Caller) (next : Action p)
      → Advances p area c.files next
      → Advances p area c.files (admin_only p c h who next)
  unfolding admin_only
  admin_only-Advances who next k = record {
    at = λ s. elim (Bool-cases (c.dev_mode || who.auth_method == codes "admin_token")) [
      | inl y ↦ rw y (k.at s)
      | inr n ↦ rw n ((site_order p area c.files).here s)
    ];
  }

  module _ (store : StoreLaws p) where
    users_action-Advances :
        clash (codes "auth/users/") area ≡ true → Advances p area c.files (users_action p c h)
    unfolding users_action no_method
    users_action-Advances k =
        Advances-if p area c.files (h.method == codes "POST") _ _
          (handle_user_create-Advances p c area h store (user_path-outside area k))
          (Advances-if p area c.files (h.method == codes "GET") _ _
            (handle_user_list-Advances p c area h) (search advances_rules))

    user_action-Advances :
        clash (codes "auth/users/") area ≡ true → Advances p area c.files (user_action p c h)
    unfolding user_action no_method
    user_action-Advances k =
        Advances-if p area c.files (h.method == codes "DELETE") _ _
          (handle_user_delete-Advances p c area h store (user_path-outside area k))
          (Advances-if p area c.files (h.method == codes "PUT") _ _
            (handle_user_update-Advances p c area h store (user_path-outside area k))
            (search advances_rules))

    inner_action-Advances :
        clash sessions_folder area ≡ true
        → (who : Caller) (r : Inner) → all_clash (written_by r) area ≡ true
        → Advances p area c.files (inner_action p c h who r)
    unfolding inner_action server all_clash
    inner_action-Advances k who logout out =
        handle_logout-Advances p c area h store (session_key-outside k)
    inner_action-Advances k who whoami out = handle_whoami-Advances p c area h who
    inner_action-Advances k who kv out = record {
      at = λ s.
          (Advances-on_world p area c.files _ (
              route_kv-Leaves p area store c.kv c.kv_input _ _
                (kv_meta_key-outside area (all_clash-one area (codes "secrets/kv/") out))
                (kv_version_key-outside area (all_clash-one area (codes "secrets/kv/") out)))).at
            s;
    }
    inner_action-Advances k who transit out = record {
      at = λ s.
          (Advances-on_world p area c.files _ (
              route_transit-Leaves p area store c.transit c.transit_input _ _
                (transit_path-outside area (all_clash-one area (codes "secrets/transit/") out)))).at
            s;
    }
    inner_action-Advances k who status out =
        admin_only-Advances who _ (handle_status-Advances p c area h)
    inner_action-Advances k who enroll out = admin_only-Advances who _ (
        handle_enroll-Advances p c area h store
          (service_path-outside area (all_clash-one area (codes "auth/services/") out))
          (totp_path-outside area (all_clash-one area (codes "auth/services/") out)))
    inner_action-Advances k who revoke out = admin_only-Advances who _ (
        handle_revoke-Advances p c area h store
          (service_path-outside area (all_clash-one area (codes "auth/services/") out)))
    inner_action-Advances k who audit out =
        admin_only-Advances who _ (handle_audit-Advances p c area h)
    inner_action-Advances k who admin_create out = admin_only-Advances who _ (
        handle_admin_create-Advances p c area h store
          (admin_path-outside area (all_clash-one area (codes "auth/admins/") out)))
    inner_action-Advances k who admin_delete out = admin_only-Advances who _ (
        handle_admin_delete-Advances p c area h store
          (admin_path-outside area (all_clash-one area (codes "auth/admins/") out)))
    inner_action-Advances k who policy_reload out =
        admin_only-Advances who _ (handle_policy_reload-Advances p c area h)
    inner_action-Advances k who users out =
        admin_only-Advances who _
          (users_action-Advances (all_clash-one area (codes "auth/users/") out))
    inner_action-Advances k who user out =
        admin_only-Advances who _
          (user_action-Advances (all_clash-one area (codes "auth/users/") out))

    pub inner_routed-Advances :
        clash sessions_folder area ≡ true
        → (who : Caller) (r : Routed Inner) → all_clash (written_behind r) area ≡ true
        → Advances p area c.files (inner_routed p c h who r)
    unfolding inner_routed
    inner_routed-Advances k who (moved to) out = search advances_rules
    inner_routed-Advances k who not_found out = search advances_rules
    inner_routed-Advances k who (found r) out = inner_action-Advances k who r out
