-- ===== src/Api/Site/Elapsed.antt =====
-- Writing to the audit log does not go back in the count of outside calls.
use lockr.Base.{suc, Option, none, some, Bytes, arith}
use lockr.Platform.{Platform}
use lockr.Storage.Elapsed.{Later}
use lockr.Audit.{Logger, LogState}
use lockr.Audit.Elapsed.{Later-log}
use lockr.Api.Authenticate.{Caller}
use lockr.Api.Site.{HttpRequest, Context, SiteState, entry_of, write_log, logged}

module _ (p : Platform) where
  pub Later-logged :
      (log : Option Logger) (h : HttpRequest) (ctx : Context) (who : Caller) (status : Bytes)
      (s : SiteState p)
      → Later p s.auth.world (logged p log h ctx who status s).auth.world
  unfolding logged write_log
  Later-logged none h ctx who status s = omega arith
  Later-logged (some l) h ctx who status s =
      let t = s.auth.world.tick in
      let begun : LogState p = record {
        world = record s.auth.world { tick = suc (suc t) };
        lines = s.lines;
      } in
      let late =
        (Later-log p l (entry_of h ctx who status (p.clock t) (p.clock (suc t)))).at begun in
      omega (arith, late)
