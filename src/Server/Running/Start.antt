-- ===== src/Server/Running/Start.antt =====
-- internal/server/server.go and internal/api/server.go: from a start to the requests: the components that
-- Run hands to api.New, and the state in which the server begins to listen.
use lockr.Base.{ℕ, some, ◌⊎◌, ◌≡◌, ap, Bool, false, List, [], Bytes}
use lockr.Result.{ok}
use lockr.Platform.{Platform}
use lockr.Platform.Laws.{StoreLaws}
use lockr.Policy.{Engine, Policy, new_engine, builtins, find_policy, load_all}
use lockr.Policy.Reload.{
  Declared, IsLoaded, IsLoaded-trans, load_all-IsLoaded, find_policy-IsLoaded,
}
use lockr.Base.Assoc.{lookup}
use mathlib.Core.Path.{subst}
use lockr.Config.{Config}
use lockr.Audit.Onward.{IsExtended}
use lockr.Api.Routes.Folders.{nowhere}
use lockr.Api.Site.{Site, SiteState}
use lockr.Api.Site.Onward.{FileLaw}
use lockr.Server.{Boot, Started, run}
use lockr.Server.Secured.{run-IsSecured}
use lockr.Server.Running.{Event, is_quiet-nowhere, steps, steps-Onward}

module _ {p : Platform} (boot : Boot p) where
  -- api.New, with the stores and the sessions that Run makes of what it prepared. The codecs and the
  -- decoders of bodies come from `base`; the time to live of the sessions is taken to be positive.
  unfoldable pub site_of : Site → Bool → ℕ → Started p → Site
  site_of base dev_mode now s = record base {
    dev_mode = dev_mode;
    started = now;
    kv = record base.kv { crypto = s.crypto };
    transit = record base.transit { crypto = s.crypto };
    sessions = record base.sessions { ttl = s.session_ttl };
    files = boot.files;
    audit_log = s.audit_log;
  }

-- No challenge is pending, and the log file has the lines that it had.
unfoldable pub initial_state : {p : Platform} → Started p → List Bytes → SiteState p
initial_state s lines = record {
  auth = record { world = s.world; challenges = [] };
  engine = s.engine;
  lines = lines;
}

module _ (p : Platform) (boot : Boot p) (cfg : Config) (base : Site) (store : StoreLaws p) where
  loaded_since :
      (s : Started p) (t : ℕ) {e : Engine}
      → load_all (boot.files t) (new_engine cfg.policy.dir) ≡ (ok tt, s.engine)
      → IsLoaded boot.files s.engine e
      → IsLoaded boot.files (new_engine cfg.policy.dir) e
  loaded_since s t {e} first later =
      let start = new_engine cfg.policy.dir in
      let loaded : IsLoaded boot.files start s.engine =
        subst (λ (x : Engine). IsLoaded boot.files start x) (ap (λ x. x.1) first)
          (load_all-IsLoaded boot.files t start) in
      IsLoaded-trans boot.files start s.engine e loaded later

  -- After a start outside development mode and any sequence of requests, prunings of the challenges
  -- and reloads of the policies, every policy that is found under a name is built in, or a YAML file
  -- of the configured directory declared it under that name when the directory was read, however the
  -- files change in between, and the file of the audit log is what it was at the start with lines
  -- added at its end.
  pub run-steps :
      (s : Started p) (now : ℕ) (lines : List Bytes) (es : List Event)
      → run p boot cfg false ≡ ok s
      → FileLaw s.audit_log
      → ((name : Bytes) (pol : Policy)
          → find_policy
              (steps p (site_of boot base false now s) es (initial_state s lines)).engine
              name
            ≡ some pol
          → Declared boot.files cfg.policy.dir name pol ⊎ (lookup name builtins ≡ some pol))
        × IsExtended lines
            (steps p (site_of boot base false now s) es (initial_state s lines)).lines
  unfolding site_of initial_state
  run-steps s now lines es started file =
      let site = site_of boot base false now s in
      let after =
        steps-Onward p site store file nowhere es (initial_state s lines)
          (is_quiet-nowhere site es) in
      let (t, first) = (run-IsSecured p boot cfg s started).policies in
      (
        λ name pol found.
            find_policy-IsLoaded boot.files cfg.policy.dir name
              (steps p site es (initial_state s lines)).engine pol
              (loaded_since s t first after.engine) found,
        after.lines,
      )
