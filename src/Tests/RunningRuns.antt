-- ===== src/Tests/RunningRuns.antt =====
-- The running server on the toy platform: a login, the pruning of the challenges, a reload of the policies
-- and a request.
use lockr.Base.{
  Bytes, some, ◌⊎◌, ◌≡◌, refl, true, false, List, [], ◌∷◌, codes, has_prefix, has_suffix, ◌==◌,
}
use lockr.Keys.Folders.{clash, all_clash}
use lockr.Policy.{Policy, find_policy, builtins}
use lockr.Policy.Reload.{Declared}
use lockr.Base.Assoc.{lookup}
use lockr.Storage.Sealed.{at}
use lockr.Audit.Onward.{IsExtended, FileLaws}
use lockr.Auth.User as User
use lockr.Secrets.Kv.Secret.{IsSecret}
use lockr.Api.Mux.{
  route, lacks_slash, fits, segments, unescaped, fits_segments, same_segments, best,
}
use lockr.Api.Site.{SiteState}
use lockr.Api.Site.Onward.{Onward}
use lockr.Api.Routes.Folders.{written_folders}
use lockr.Config.{defaults}
use lockr.Server.Running.{Event, received, pruned, sighup, is_quiet, steps, steps-Onward}
use lockr.Server.Running.Start.{site_of, initial_state, run-steps}
use lockr.Server.Running.Stored.{steps-IsSecret, steps-verify}
use lockr.Tests.Toy.{toy, toy_kv, toy_store_laws}
use lockr.Tests.KvRuns.{first, path, current, history, after_first}
use lockr.Tests.AuthRuns.{users}
use lockr.Tests.SiteRuns.{logger, no_files, site, login, state}
use lockr.Tests.ClientRuns.{boot, started, starts}

abbrev events : List Event
events = received login ∷ pruned ∷ sighup ∷ []

logger_laws : FileLaws logger
logger_laws = record { appends = λ t line before after h. cc }

-- A login writes sessions and the audit log.
spares_secrets : is_quiet site events (codes "secrets/kv/") ≡ true
unfolding is_quiet all_clash clash written_folders route lacks_slash fits segments unescaped
    fits_segments same_segments best has_suffix has_prefix ◌==◌
spares_secrets = refl

spares_users : is_quiet site events (codes "auth/users/") ≡ true
unfolding is_quiet all_clash clash written_folders route lacks_slash fits segments unescaped
    fits_segments same_segments best has_suffix has_prefix ◌==◌
spares_users = refl

steps-Onward_example :
    Onward toy (codes "auth/users/") (λ t. no_files) state (steps toy site events state)
steps-Onward_example =
    steps-Onward toy site toy_store_laws logger_laws (codes "auth/users/") events state spares_users

-- The server with a secret in its database.
abbrev with_secret : SiteState toy
with_secret = record state { auth = record { world = first; challenges = [] } }

steps-IsSecret_example :
    IsSecret toy toy_kv (steps toy site events with_secret).auth.world.db path current history
steps-IsSecret_example =
    steps-IsSecret toy site toy_store_laws logger_laws events with_secret path current history
      spares_secrets after_first

steps-verify_example :
    (User.verify toy users
      (codes "eve")
      (codes "pw")
      (at toy (steps toy site events state).auth.world.db 9)).0
    ≡ (User.verify toy users (codes "eve") (codes "pw") (at toy state.auth.world.db 9)).0
steps-verify_example =
    steps-verify toy site toy_store_laws logger_laws events state (codes "eve") (codes "pw") 9
      spares_users

run-steps_example :
    ((name : Bytes) (pol : Policy)
      → find_policy
          (steps toy (site_of boot site false 5 started) events (initial_state started [])).engine
          name
        ≡ some pol
      → Declared (λ t. no_files) (codes "/etc/lockr/policies") name pol
        ⊎ (lookup name builtins ≡ some pol))
    × IsExtended []
        (steps toy (site_of boot site false 5 started) events (initial_state started [])).lines
unfolding defaults
run-steps_example =
    run-steps toy boot defaults site toy_store_laws started 5 [] events starts logger_laws
