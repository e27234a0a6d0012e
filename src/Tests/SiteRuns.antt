-- ===== src/Tests/SiteRuns.antt =====
-- A whole server on the toy platform: a login, requests that are refused, and the audit log.
use lockr.Base.{
  if◌then◌else◌, List, ℕ, ◌≡◌, ◌⊎◌, refl, true, false, [], ◌∷◌, ◌++◌, Option, none, some, Bytes,
  codes, ◌==◌, has_prefix, has_suffix, arith,
}
use mathlib.Core.List.Perm
use lockr.Base.Assoc.{Assoc, lookup, insert, without}
use lockr.Base.Int.{int_lt}
use lockr.Keys.{user_path, session_path}
use lockr.Result.{Result, ok, err, library, not_exist, is_not_found}
use lockr.Platform.{World, now, random}
use lockr.Storage.Db as Db
use lockr.Storage.Db.{is_key_not_found}
use lockr.Storage.Crypto.{hash_argon2id, verify_argon2id, subtle32_equal, diff_from}
use lockr.Storage.Listing.{collect, scan, seek, while_valid, bytes_lt}
use lockr.Policy.{Files}
use lockr.Audit.{
  Entry, Logger, QueryOptions, query, since_of, query_from, matches, is_full, with_value, stops,
  too_old,
}
use lockr.Audit.Filter.{values, IsBound, Selected, query-Selected}
use lockr.Audit.Asked.{Picked}
use lockr.Auth.Session.{session_token_prefix, session_key, issue, issue_token}
use lockr.Auth.Session.Lifetime.{IsSession}
use lockr.Auth.User as User
use lockr.Auth.User.{UserRecord, check_user}
use lockr.Api.{login_is}
use lockr.Base.{◌+◌, ◌/◌, ◌≤◌, ◌<◌, trim_prefix}
use lockr.Storage.Sealed.{at}
use lockr.Platform.Laws.{second}
use lockr.Api.Authenticate.Bearer.{bearer_access}
use lockr.Api.Login.Used.{handle_user_login-authenticate}
use lockr.Api.Authenticate.{Call, Caller, extract_token, authenticate}
use lockr.Api.Site.{HttpRequest, Context, SiteInput, Site, SiteState, log_auth_attempt}
use lockr.Api.Login.{handle_user_login, log_in}
use lockr.Api.Login.Accepted.{handle_user_login-verify}
use lockr.Api.Routes.{kv, inner_routes, authed, status, outer_routes, inner_action, serve}
use lockr.Api.Mux.{
  found, route, lacks_slash, fits, segments, unescaped, fits_segments, same_segments, best,
}
use lockr.Api.Routes.Guards.{
  is_admin_route, admin_required, CameIn, inner_action-admin, serve-CameIn,
}
use lockr.Tests.Toy.{toy, toy_kv, toy_store_laws, toy_cipher_laws, fill}
use lockr.Tests.TransitRuns.{toy_transit}
use lockr.Tests.AuthRuns.{sessions, session_laws, users, ed25519, totp, registered}
use lockr.Tests.ApiRuns.{admins, kv_input, transit_input}

abbrev read_line : Bytes → Result Entry
read_line line = ok (record {
  id = [];
  timestamp = none;
  identity = [];
  auth_method = [];
  operation = [];
  path = line;
  secret_version = 0;
  source_ip = [];
  request_id = [];
  status = [];
  policy = [];
  error_message = [];
  duration_ms = 0;
})

-- An entry is written as its path.
abbrev pub logger : Logger
logger = record {
  entries = record { marshal = λ e. ok e.path; unmarshal = read_line };
  ulid = λ tick time. tick ∷ [];
  rfc3339_nano = λ time. time ∷ [];
  append_line = λ tick line lines. ok (lines ++ line ∷ []);
  range_values = λ tick m. values m;
}

abbrev pub no_files : Files
no_files = record {
  read_dir = λ d. err not_exist;
  read_file = λ f. err not_exist;
  join = λ d f. d ++ f;
  unmarshal_policy = λ d. err (library d);
}

-- Bodies are texts with their parts known in advance.
abbrev pub input : SiteInput
input = record {
  decode_service = λ b. ok b;
  decode_answer = λ b. ok (b, b);
  decode_code = λ b. ok (b, 0);
  decode_token = λ b. ok b;
  decode_password_login = λ b. ok (codes "eve", b);
  decode_user = λ b. ok (codes "eve", (b, codes "readonly"));
  decode_policy = λ b. ok b;
  decode_password = λ b. ok b;
  decode_enrollment = λ b. ok (b, ([], codes "readonly"));
  decode_admin = λ b. ok (b, []);
  hex_decode = λ b. ok b;
  atoi_value = λ b. 1;
  parse_duration = λ b. ok 1;
  generate_key = λ t. ok (fill 32 t, fill 64 t);
}

abbrev pub site : Site
site = record {
  dev_mode = false;
  started = 0;
  kv = toy_kv;
  transit = toy_transit;
  sessions = sessions;
  admins = admins;
  users = users;
  services = ed25519;
  totps = totp;
  files = λ t. no_files;
  audit_log = some logger;
  kv_input = kv_input;
  transit_input = transit_input;
  input = input;
  request_id_text = λ b. b;
  clean_path = λ path. path;
  unescape = λ segment. segment;
}

abbrev pub login : HttpRequest
login = record {
  method = codes "POST";
  route_path = codes "/v1/auth/login";
  url_path = codes "/v1/auth/login";
  version_query = [];
  identity_query = [];
  service_query = [];
  path_query = [];
  since_query = [];
  limit_query = [];
  authorization = [];
  lockr_token = [];
  body = codes "pw";
  remote_addr = codes "10.0.0.7";
}

abbrev context : Context
context = record { request_id = codes "r1"; start = 0 }

-- The server after the user "eve" was created.
abbrev pub state : SiteState toy
state = record {
  auth = record { world = registered; challenges = [] };
  engine = record { policies = []; dir = [] };
  lines = [];
}

abbrev token : Bytes
token = session_token_prefix ++ fill 32 5

abbrev after_login : SiteState toy
after_login = (handle_user_login toy site login context state).1

logs_in : handle_user_login toy site login context state ≡ (
  record {
    status = 200;
    reply = login_is token (codes "user:eve") (codes "readonly") sessions.ttl;
  },
  after_login,
)
unfolding handle_user_login log_in log_auth_attempt User.verify User.get User.create user_path
    check_user Db.get Db.set Db.set_with_ttl lookup insert without ◌==◌ now random hash_argon2id
    verify_argon2id subtle32_equal diff_from issue issue_token session_key session_path
    is_key_not_found is_not_found User.user_free
logs_in = refl

handle_user_login-verify_example :
    (username : Bytes) × (password : Bytes) × (rec : UserRecord) × (input.decode_password_login
        login.body
      ≡ ok (username, password))
    × ((User.verify toy users username password registered).0 ≡ ok rec)
    × (codes "user:eve" ≡ codes "user:" ++ rec.username)
    × (codes "readonly" ≡ rec.policy)
    × IsSession toy sessions toy_store_laws state.auth.world.tick after_login.auth.world.tick
        after_login.auth.world.db token
        (codes "user:eve")
        (codes "password")
        (codes "readonly")
handle_user_login-verify_example =
    handle_user_login-verify toy toy_store_laws toy_cipher_laws site login context session_laws
      token (codes "user:eve") (codes "readonly") sessions.ttl state after_login logs_in

abbrev bearing : Call
bearing = record {
  method = codes "GET";
  url_path = codes "/v1/secrets/kv/db";
  authorization = codes "Bearer " ++ token;
  lockr_token = [];
}

carried : extract_token bearing ≡ token
unfolding extract_token has_prefix trim_prefix ◌==◌
carried = refl

handle_user_login-authenticate_example :
    (issued written : ℕ) × (registered.tick ≤ issued)
    × (issued < written)
    × (written < after_login.auth.world.tick)
    × ((t : ℕ)
        → (authenticate toy sessions admins false bearing (at toy after_login.auth.world.db t)).0
          ≡ ok (
              bearer_access toy
                (record {
                  identity = codes "user:eve";
                  auth_method = codes "password";
                  policy = codes "readonly";
                })
                ((toy.clock written + sessions.ttl) / second)
                (toy.clock issued + sessions.ttl)
                t))
handle_user_login-authenticate_example =
    handle_user_login-authenticate toy toy_store_laws toy_cipher_laws site login context
      session_laws token (codes "user:eve") (codes "readonly") sessions.ttl state after_login
      bearing logs_in carried

abbrev reader : Caller
reader = record {
  identity = codes "user:eve";
  auth_method = codes "password";
  policy = codes "readonly";
}

no_admin : (reader.auth_method == codes "admin_token") ≡ false
unfolding ◌==◌
no_admin = refl

status_is_admin : is_admin_route status ≡ true
unfolding is_admin_route
status_is_admin = refl

inner_action-admin_example :
    inner_action toy site login reader status state ≡ (admin_required, state)
inner_action-admin_example =
    inner_action-admin toy site login reader status state status_is_admin refl no_admin

abbrev pub read_secret : HttpRequest
read_secret = record login {
  method = codes "GET";
  route_path = codes "/v1/secrets/kv/db";
  url_path = codes "/v1/secrets/kv/db";
}

is_authed : route site.clean_path site.unescape read_secret.route_path outer_routes ≡ found authed
unfolding route lacks_slash fits segments unescaped fits_segments same_segments best has_suffix
    has_prefix ◌==◌
is_authed = refl

-- An escaped segment is routed like the one that it stands for.
escaped_routed :
    route
      (λ path. path)
      (λ s. if s == codes "%73ecrets" then codes "secrets" else s)
      (codes "/v1/%73ecrets/kv/db")
      inner_routes
    ≡ found kv
unfolding route lacks_slash fits segments unescaped fits_segments same_segments best has_suffix ◌==◌
escaped_routed = refl

serve-CameIn_example :
    ((serve toy site read_secret state).0.status ≡ 401)
    ⊎ ((w : World toy) × (w.db ≡ registered.db)
        × ((s1 : SiteState toy) × CameIn toy site read_secret w s1
              (serve toy site read_secret state).0))
serve-CameIn_example = serve-CameIn toy site read_secret state is_authed

-- Two entries, of which one is asked for.
abbrev recorded : World toy
recorded = record {
  db = (codes "audit/1", (codes "/a", none)) ∷ (codes "audit/2", (codes "/b", none)) ∷ [];
  tick = 7;
}

abbrev one : QueryOptions
one = record { identity = []; since = 0; path = []; limit = 1 }

abbrev both : Assoc Bytes
both = (codes "audit/2", codes "/b") ∷ (codes "audit/1", codes "/a") ∷ []

scanned : (scan toy (codes "audit/") recorded).0 ≡ ok both
unfolding scan seek while_valid bytes_lt has_prefix ◌==◌ insert collect without
scanned = refl

entry_at : Bytes → Entry
entry_at path = record {
  id = [];
  timestamp = none;
  identity = [];
  auth_method = [];
  operation = [];
  path = path;
  secret_version = 0;
  source_ip = [];
  request_id = [];
  status = [];
  policy = [];
  error_message = [];
  duration_ms = 0;
}

answered : (query toy logger one recorded).0 ≡ ok (entry_at (codes "/b") ∷ [])
unfolding query scan seek while_valid bytes_lt has_prefix ◌==◌ insert collect without since_of
    query_from matches is_full with_value stops too_old int_lt values entry_at
answered = refl

query-Selected_example :
    (since : Option ℕ) × (matching : List Entry) × IsBound toy 7 0 since
    × Picked read_line one since (values both) matching
    × Selected 1 matching (entry_at (codes "/b") ∷ [])
query-Selected_example =
    query-Selected toy logger (λ t m. Perm.refl _) one recorded both (entry_at (codes "/b") ∷ [])
      (omega arith) scanned answered
