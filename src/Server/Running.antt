-- ===== src/Server/Running.antt =====
-- The server while it listens: the requests, the goroutine of internal/auth/ed25519.go that prunes the
-- challenges, and the goroutine of internal/server/server.go that reloads the policies on SIGHUP, one at a
-- time and in any order.
pub mod Stored
pub mod Start
use lockr.Base.{◌≡◌, true, refl, inr, Bool, ◌&&◌, List, [], ◌∷◌, ◌++◌, Bytes, codes, arith}
use lockr.Keys.Folders.{all_clash, clash}
use lockr.Platform.{Platform}
use lockr.Platform.Laws.{StoreLaws}
use lockr.Policy.{load_all}
use lockr.Result.{ok}
use lockr.Result.Follows.{Follows}
use lockr.Auth.Challenge.{prune_challenges}
use lockr.Auth.Challenge.Spares.{prune_challenges-Keeps}
use lockr.Api.Site.{HttpRequest, Site, SiteState, in_auth, in_engine}
use lockr.Api.Site.Onward.{
  Onward, site_order, FileLaw, Advances, Advances-in_auth, Advances-load_all,
}
use lockr.Api.Routes.{serve}
use lockr.Api.Routes.Folders.{written_folders, nowhere, written_folders-nowhere}
use lockr.Api.Routes.Onward.{serve-Onward}
use lockr.Server.{reload_policies}

pub data Event : Type 0 where
  received : HttpRequest → Event
  pruned sighup : Event

-- The folders that an event may write.
abbrev pub written : Site → Event → List Bytes
written c (received h) = written_folders c h
written c pruned = []
written c sighup = []

-- No event of the list writes records under the prefix.
unfoldable pub is_quiet : Site → List Event → Bytes → Bool
is_quiet c [] area = true
is_quiet c (e ∷ es) area = all_clash (written c e) area && is_quiet c es area

pub is_quiet-nowhere : (c : Site) (es : List Event) → is_quiet c es nowhere ≡ true
unfolding is_quiet all_clash
is_quiet-nowhere c [] = refl
is_quiet-nowhere c (received h ∷ es) = rw (written_folders-nowhere c h) (is_quiet-nowhere c es)
is_quiet-nowhere c (pruned ∷ es) = is_quiet-nowhere c es
is_quiet-nowhere c (sighup ∷ es) = is_quiet-nowhere c es

module _ (p : Platform) (c : Site) where
  unfoldable pub step : Event → SiteState p → SiteState p
  step (received h) s = (serve p c h s).1
  step pruned s = (in_auth p (prune_challenges p c.services) s).1
  step sighup s = (in_engine p (λ t e. (ok tt, reload_policies (c.files t) e)) s).1

  unfoldable pub steps : List Event → SiteState p → SiteState p
  steps [] s = s
  steps (e ∷ es) s = steps es (step e s)

  module _ (store : StoreLaws p) (file : FileLaw c.audit_log) (area : Bytes) where
    step-Onward :
        (e : Event) (s : SiteState p)
        → all_clash (written c e) area ≡ true
        → Onward p area c.files s (step e s)
    unfolding step reload_policies
    step-Onward (received h) s quiet = serve-Onward p c area h store file s quiet
    step-Onward pruned s quiet =
        (Advances-in_auth p area c.files _ (prune_challenges-Keeps p area c.services)).at s
    step-Onward sighup s quiet = (Advances-load_all p area c.files).at s

    -- Over any sequence of requests, prunings of the challenges and reloads of the policies none of
    -- which writes under a prefix of the keys, going by the folders that belong to the route of a
    -- request, every read of a key with that prefix stays as it was, whatever the handlers do and
    -- whether they succeed or not. The file of the audit log only grows at its end, if a write to it
    -- does, and the policies change only to those that the directory of the policies declares when
    -- it is read.
    pub steps-Onward :
        (es : List Event) (s : SiteState p)
        → is_quiet c es area ≡ true
        → Onward p area c.files s (steps es s)
    unfolding steps is_quiet
    steps-Onward [] s quiet = (site_order p area c.files).here s
    steps-Onward (e ∷ es) s quiet =
        (site_order p area c.files).along s (step e s) (steps es (step e s))
          (step-Onward e s (ground arith)) (steps-Onward es (step e s) (ground arith))
