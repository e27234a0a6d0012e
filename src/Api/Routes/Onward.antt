-- ===== src/Api/Routes/Onward.antt =====
-- What a request may do to the database, the file of the audit log and the policies.
pub mod Inner
use lockr.Platform.{Platform}
use lockr.Platform.Laws.{StoreLaws}
use lockr.Base.{Bytes, [], ◌≡◌, true, ◌∷◌}
use lockr.Keys.Folders.{clash, all_clash, all_clash-cons}
use lockr.Result.{Result, ok, err}
use lockr.Storage.Frame.{Spares, frame_rules}
use lockr.Api.Mux.{Routed, moved, not_found, found, route}
use lockr.Api.Site.{HttpRequest, Site, Context, SiteState, in_world, call_of}
use lockr.Api.Site.Onward.{
  Onward, Advances, site_order, advances_rules, FileLaw, logged-Onward, Advances-in_world,
}
use lockr.Api.Authenticate.{Access, granted, unauthorized, authenticate}
use lockr.Api.Authenticate.Spares.{authenticate-Spares}
use lockr.Api.Login.Onward.{
  handle_challenge-Advances, handle_verify-Advances, handle_totp_login-Advances,
  handle_admin_login-Advances, handle_user_login-Advances,
}
use lockr.Api.Manage.Onward.{handle_health-Advances}
use lockr.Api.Routes.{
  Outer, health, challenge, verify, totp, admin_login, user_login, authed, inner_routes,
  after_access, audited, access_result, authed_action, outer_action, outer_routed, stamp, stamped,
  serve,
}
use lockr.Api.Routes.Folders.{
  sessions_folder, audit_folder, written_behind, written_at, written_through, written_folders,
}
use lockr.Api.Routes.Onward.Inner.{
  audit_key-outside, session_key-outside, all_clash-one, inner_routed-Advances,
}

module _ (p : Platform) (c : Site) (area : Bytes) (h : HttpRequest) where
  module _ (store : StoreLaws p) where
    module _ (file : FileLaw c.audit_log) where
      module _ (k : clash sessions_folder area ≡ true) (log : clash audit_folder area ≡ true)
          (out : all_clash
              (written_behind (route c.clean_path c.unescape h.route_path inner_routes))
              area
            ≡ true) where
        after_access-Advances :
            (access : Access) → Advances p area c.files (after_access p c h access)
        unfolding after_access
        after_access-Advances (unauthorized text) = search advances_rules
        after_access-Advances (granted who) = inner_routed-Advances p c area h store k who _ out

        audited-Advances :
            (ctx : Context) (access : Access) → Advances p area c.files (audited p c h ctx access)
        unfolding audited
        audited-Advances ctx access = record {
          at = λ s.
              let (answer, t) = after_access p c h access s in
              (site_order p area c.files).along s t _ ((after_access-Advances access).at s) (
                logged-Onward p area c.files store (audit_key-outside area log) c.audit_log file h
                  ctx _ _ t);
        }

        access_result-Onward :
            (ctx : Context) (r : Result Access) (s : SiteState p)
            → Onward p area c.files s (access_result p c h ctx (r, s)).1
        unfolding access_result
        access_result-Onward ctx (ok access) s = (audited-Advances ctx access).at s
        access_result-Onward ctx (err e) s = (audited-Advances ctx (unauthorized _)).at s

        authed_action-Advances : (ctx : Context) → Advances p area c.files (authed_action p c h ctx)
        unfolding authed_action
        authed_action-Advances ctx = record {
          at = λ s.
              let run = in_world p (authenticate p c.sessions c.admins c.dev_mode (call_of h)) in
              let login = Advances-in_world p area c.files _ (
                authenticate-Spares p store c.sessions c.admins area
                  (session_key-outside p c area h k) c.dev_mode (call_of h)) in
              (site_order p area c.files).along s (run s).1 _ (login.at s)
                (access_result-Onward ctx (run s).0 (run s).1);
        }

      log_in_area :
          all_clash (sessions_folder ∷ audit_folder ∷ []) area ≡ true
          → (clash sessions_folder area ≡ true) × (clash audit_folder area ≡ true)
      log_in_area out =
          let both = all_clash-cons sessions_folder (audit_folder ∷ []) area out in
          (both.0, all_clash-one area audit_folder both.1)

      outer_action-Advances :
          (ctx : Context) (r : Outer)
          → all_clash (written_at c h r) area ≡ true
          → Advances p area c.files (outer_action p c h ctx r)
      unfolding outer_action
      outer_action-Advances ctx health out = handle_health-Advances p c area h
      outer_action-Advances ctx challenge out =
          handle_challenge-Advances p c area h store
            (audit_key-outside area (all_clash-one area audit_folder out)) file ctx
      outer_action-Advances ctx verify out =
          handle_verify-Advances p c area h store (audit_key-outside area (log_in_area out).1) file
            ctx (session_key-outside p c area h (log_in_area out).0)
      outer_action-Advances ctx totp out =
          handle_totp_login-Advances p c area h store (audit_key-outside area (log_in_area out).1)
            file ctx (session_key-outside p c area h (log_in_area out).0)
      outer_action-Advances ctx admin_login out =
          handle_admin_login-Advances p c area h store (audit_key-outside area (log_in_area out).1)
            file ctx (session_key-outside p c area h (log_in_area out).0)
      outer_action-Advances ctx user_login out =
          handle_user_login-Advances p c area h store (audit_key-outside area (log_in_area out).1)
            file ctx (session_key-outside p c area h (log_in_area out).0)
      outer_action-Advances ctx authed out =
          let first = all_clash-cons sessions_folder _ area out in
          let second = all_clash-cons audit_folder _ area first.1 in
          authed_action-Advances first.0 second.0 second.1 ctx

      outer_routed-Advances :
          (ctx : Context) (r : Routed Outer)
          → all_clash (written_through c h r) area ≡ true
          → Advances p area c.files (outer_routed p c h ctx r)
      unfolding outer_routed
      outer_routed-Advances ctx (moved to) out = search advances_rules
      outer_routed-Advances ctx not_found out = search advances_rules
      outer_routed-Advances ctx (found r) out = outer_action-Advances ctx r out

      stamp-Spares : Spares p area (stamp p c h)
      unfolding stamp
      stamp-Spares = search (frame_rules) depth 9

      stamped-Onward :
          (r : Result Context) (s : SiteState p)
          → all_clash (written_folders c h) area ≡ true
          → Onward p area c.files s (stamped p c h (r, s)).1
      unfolding stamped written_folders
      stamped-Onward (ok ctx) s out = (outer_routed-Advances ctx _ out).at s
      stamped-Onward (err e) s out = (site_order p area c.files).here s

      -- A request writes no record outside the folders of its route, whatever the handlers do and whether
      -- it succeeds or not; it adds lines at the end of the audit log, and the policies change only by a
      -- load of the policy files.
      pub serve-Onward :
          (s : SiteState p)
          → all_clash (written_folders c h) area ≡ true
          → Onward p area c.files s (serve p c h s).1
      unfolding serve
      serve-Onward s out =
          let (r, t) = in_world p (stamp p c h) s in
          (site_order p area c.files).along s t _
            ((Advances-in_world p area c.files _ stamp-Spares).at s) (stamped-Onward r t out)
