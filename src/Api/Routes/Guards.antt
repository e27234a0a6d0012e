-- ===== src/Api/Routes/Guards.antt =====
-- What a request must show to reach a handler behind the authentication.
use lockr.Base.{suc, Bool, true, false, ◌≡◌, refl, ◌⊎◌, inl, inr, codes, ◌==◌, arith}
use lockr.Result.{ok, Result-cases}
use lockr.Platform.{Platform, World, random, now}
use lockr.Api.{Response, message}
use lockr.Api.Authenticate.{Caller, granted, unauthorized, authenticate}
use lockr.Api.Authenticate.Entry.{Entry, authenticate-Entry}
use lockr.Api.Site.{HttpRequest, Context, Site, SiteState, Action, call_of}
use lockr.Api.Routes.{
  Inner, status, enroll, revoke, audit, admin_create, admin_delete, policy_reload, users, user,
  logout, whoami, kv, transit, authed, inner_routes, outer_routes, admin_only, inner_action,
  inner_routed, after_access, audited, access_result, authed_action, outer_action, outer_routed,
  stamp, stamped, serve,
}
use lockr.Api.Mux.{found, route}

-- The handlers for administrators.
unfoldable pub is_admin_route : Inner → Bool
is_admin_route logout = false
is_admin_route whoami = false
is_admin_route kv = false
is_admin_route transit = false
is_admin_route r = true

abbrev pub admin_required : Response
admin_required = record { status = 403; reply = message (codes "admin access required") }

module _ (p : Platform) (c : Site) (h : HttpRequest) where
  admin_only_refused :
      (who : Caller) (next : Action p) (s : SiteState p)
      → c.dev_mode ≡ false
      → (who.auth_method == codes "admin_token") ≡ false
      → admin_only p c h who next s ≡ (admin_required, s)
  unfolding admin_only
  admin_only_refused who next s d m = ground arith

  -- Outside development mode each of the nine handlers of administrators answers a caller that did
  -- not come with an admin token with 403, and changes nothing.
  pub inner_action-admin :
      (who : Caller) (r : Inner) (s : SiteState p)
      → is_admin_route r ≡ true
      → c.dev_mode ≡ false
      → (who.auth_method == codes "admin_token") ≡ false
      → inner_action p c h who r s ≡ (admin_required, s)
  unfolding inner_action is_admin_route
  inner_action-admin who logout s a d m = cc
  inner_action-admin who whoami s a d m = cc
  inner_action-admin who kv s a d m = cc
  inner_action-admin who transit s a d m = cc
  inner_action-admin who status s a d m = admin_only_refused who _ s d m
  inner_action-admin who enroll s a d m = admin_only_refused who _ s d m
  inner_action-admin who revoke s a d m = admin_only_refused who _ s d m
  inner_action-admin who audit s a d m = admin_only_refused who _ s d m
  inner_action-admin who admin_create s a d m = admin_only_refused who _ s d m
  inner_action-admin who admin_delete s a d m = admin_only_refused who _ s d m
  inner_action-admin who policy_reload s a d m = admin_only_refused who _ s d m
  inner_action-admin who users s a d m = admin_only_refused who _ s d m
  inner_action-admin who user s a d m = admin_only_refused who _ s d m

  -- The response of a handler behind the authentication, for a caller that came in.
  pub record CameIn (w : World p) (s : SiteState p) (out : Response) : Type 0 where
    pub who : Caller
    pub entry : Entry p c.sessions c.admins c.dev_mode (call_of h) w who
    pub answered :
        (inner_routed p c h who (route c.clean_path c.unescape h.route_path inner_routes) s).0 ≡ out

  authed_action-CameIn :
      (ctx : Context) (s : SiteState p)
      → ((authed_action p c h ctx s).0.status ≡ 401)
        ⊎ ((s1 : SiteState p) × CameIn s.auth.world s1 (authed_action p c h ctx s).0)
  unfolding authed_action access_result audited after_access
  authed_action-CameIn ctx s =
      let run = authenticate p c.sessions c.admins c.dev_mode (call_of h) in
      let w = s.auth.world in
      let s1 : SiteState p = record s { auth = record s.auth { world = (run w).1 } } in
      elim (Result-cases (run w).0) [
        | inr (x, e) ↦ inl (rw e refl)
        | inl (unauthorized text, e) ↦ inl (rw e refl)
        | inl (granted who, e) ↦
            let whole : run w ≡ (ok (granted who), (run w).1) = ground arith in
            inr (
              s1,
              record {
                who = who;
                entry =
                    authenticate-Entry p c.sessions c.admins c.dev_mode (call_of h) w (run w).1 who
                      whole;
                answered = rw e refl;
              },
            )
      ]

  -- A request that net/http routes to the handlers behind the authentication is answered with status
  -- 401, or its answer is that of the handler of its path for a caller that authMiddleware let in,
  -- in one of the ways that Entry lists: development mode, the bootstrap of the first administrator,
  -- a session that Validate accepts, or an admin token that Verify accepts.
  pub serve-CameIn :
      (s : SiteState p)
      → route c.clean_path c.unescape h.route_path outer_routes ≡ found authed
      → ((serve p c h s).0.status ≡ 401)
        ⊎ ((w : World p) × (w.db ≡ s.auth.world.db)
            × ((s1 : SiteState p) × CameIn w s1 (serve p c h s).0))
  unfolding serve stamp stamped outer_routed outer_action random now
  serve-CameIn s r =
      let w2 : World p = record s.auth.world { tick = suc (suc s.auth.world.tick) } in
      let s2 : SiteState p = record s { auth = record s.auth { world = w2 } } in
      rw r (elim (authed_action-CameIn _ s2) [
        | inl refused ↦ inl refused
        | inr (s1, came) ↦ inr (w2, refl, (s1, came))
      ])
