-- ===== src/Api/Routes/Handled.antt =====
-- A request that is routed to handleUserLogin is handled by it.
use lockr.Base.{◌≤◌, ◌≡◌, refl}
use lockr.Platform.{Platform, now, random}
use lockr.Result.Follows.{Follows}
use lockr.Storage.Elapsed.{Later, elapsed_rules}
use lockr.Api.Mux.{route, found}
use lockr.Api.Site.{HttpRequest, Context, Site, SiteState, in_world}
use lockr.Api.Login.{handle_user_login}
use lockr.Api.Routes.{
  Outer, id_bytes, outer_routes, outer_action, outer_routed, stamp, stamped, serve,
}

module _ (p : Platform) (c : Site) (h : HttpRequest) where
  stamp-Later : Follows (Later p) (stamp p c h)
  unfolding stamp
  stamp-Later = search elapsed_rules depth 9

  pub serve-handle_user_login :
      (s : SiteState p)
      → route c.clean_path c.unescape h.route_path outer_routes ≡ found Outer.user_login
      → (ctx : Context) × (s0 : SiteState p) × (s0.auth.world.db ≡ s.auth.world.db)
        × (s.auth.world.tick ≤ s0.auth.world.tick)
        × (serve p c h s ≡ handle_user_login p c h ctx s0)
  unfolding serve stamp stamped outer_routed outer_action now random
  serve-handle_user_login s e =
      let (id, w) = random p 12 s.auth.world in
      (
        record { request_id = c.request_id_text (id_bytes id); start = p.clock w.tick },
        (in_world p (stamp p c h) s).1,
        refl,
        stamp-Later.at s.auth.world,
        rw e refl,
      )
