-- ===== src/Tests/ApiRuns.antt =====
-- Requests that are refused, and requests that are let in.
use lockr.Base.{
  ◌≡◌, refl, false, [], none, some, codes, ◌==◌, has_prefix, has_suffix, trim_prefix, trim_suffix,
}
use lockr.Base.Assoc.{lookup}
use lockr.Keys.{kv_path, transit_path}
use lockr.Platform.{World}
use lockr.Policy.{
  cap_write, allowed, find_policy, check_policy, check_rules, match_path, has_capability, builtins,
}
use lockr.Api.{Request, Server, denied}
use lockr.Secrets.Kv.{KvEntry}
use lockr.Api.Kv.{KvInput, kv_name, route_kv}
use lockr.Api.Transit.{TransitInput, transit_key_name, route_transit}
use lockr.Api.Access.{kv_needs, transit_needs, route_kv-denied, route_transit-denied}
use lockr.Tests.Toy.{toy, toy_kv}
use lockr.Tests.TransitRuns.{toy_transit}
use lockr.Base.{Bytes, true, ◌∷◌}
use lockr.Result.{library, Result, ok, err}
use lockr.Storage.Listing as Listing
use lockr.Storage.Listing.{seek, while_valid, bytes_lt}
use lockr.Auth.Admin.{AdminRecord, AdminAuth, has_admins}
use lockr.Api.Authenticate.{
  Call, Caller, granted, extract_token, no_admins, allow_first_admin_bootstrap, authenticate,
}
use lockr.Api.Authenticate.Entry.{Entry, authenticate-Entry}
use lockr.Tests.AuthRuns.{sessions, pack, unpack}

abbrev read_admin : Bytes → Result AdminRecord
read_admin [] = err (library [])
read_admin (c ∷ s) =
    let (name, s1) = unpack s in
    let (policy, hash) = unpack s1 in
    ok (record { name = name; policy = policy; created_at = c; hash = hash })

abbrev pub admins : AdminAuth
admins = record {
  records = record {
    marshal = λ r. ok (r.created_at ∷ pack r.name (pack r.policy r.hash));
    unmarshal = read_admin;
  };
  base64_url = λ b. b;
}

abbrev empty : World toy
empty = record { db = []; tick = 0 }

abbrev pub server : Server
server = record { dev_mode = false; engine = record { policies = []; dir = [] } }

abbrev pub kv_input : KvInput
kv_input = record { atoi = λ s. ok 1; decode_value = λ b. ok (some b); decode_version = λ b. ok 1 }

abbrev pub transit_input : TransitInput
transit_input = record { decode_plaintext = λ b. ok b; decode_ciphertext = λ b. ok b }

-- A reader that wants to write.
abbrev put : Request
put = record {
  method = codes "PUT";
  url_path = codes "/v1/secrets/kv/db";
  version_query = [];
  body = codes "1";
  auth_method = codes "password";
  policy = codes "readonly";
}

put_needs : kv_needs put ≡ some (codes "db", cap_write)
unfolding kv_name has_suffix trim_prefix has_prefix ◌==◌
put_needs = refl

put_refused : allowed server.engine (codes "readonly") (kv_path (codes "db")) cap_write ≡ false
unfolding allowed find_policy check_policy check_rules match_path has_capability builtins lookup
    kv_path has_suffix trim_suffix has_prefix ◌==◌
put_refused = refl

route_kv-denied_example : route_kv toy toy_kv kv_input server put empty ≡ (denied, empty)
route_kv-denied_example =
    route_kv-denied toy toy_kv kv_input server put empty (codes "db") cap_write put_needs
      put_refused

-- A reader that wants to rotate a key.
abbrev turn : Request
turn = record put { method = codes "POST"; url_path = codes "/v1/secrets/transit/orders/rotate" }

turn_needs : transit_needs turn ≡ some (codes "orders", cap_write)
unfolding transit_key_name has_suffix trim_prefix trim_suffix has_prefix ◌==◌
turn_needs = refl

turn_refused :
    allowed server.engine (codes "readonly") (transit_path (codes "orders")) cap_write ≡ false
unfolding allowed find_policy check_policy check_rules match_path has_capability builtins lookup
    transit_path has_suffix trim_suffix has_prefix ◌==◌
turn_refused = refl

route_transit-denied_example :
    ((route_transit toy toy_transit transit_input server turn empty).0.status ≡ 403)
    × ((route_transit toy toy_transit transit_input server turn empty).1 ≡ empty)
route_transit-denied_example =
    route_transit-denied toy toy_transit transit_input server turn empty (codes "orders") cap_write
      turn_needs turn_refused

abbrev admin_turn : Request
admin_turn = record turn { auth_method = codes "admin_token"; policy = codes "admin" }

nothing_loaded : lookup (codes "admin") server.engine.policies ≡ none
unfolding lookup
nothing_loaded = refl

-- The first administrator of an empty server.
abbrev first_call : Call
first_call = record {
  method = codes "POST";
  url_path = codes "/v1/sys/admin/create";
  authorization = [];
  lockr_token = [];
}

abbrev bootstrap : Caller
bootstrap = record {
  identity = codes "bootstrap";
  auth_method = codes "admin_token";
  policy = codes "root";
}

abbrev after_first : World toy
after_first = (authenticate toy sessions admins false first_call empty).1

let_in :
    authenticate toy sessions admins false first_call empty ≡ (ok (granted bootstrap), after_first)
unfolding authenticate extract_token allow_first_admin_bootstrap no_admins has_admins Listing.list
    seek while_valid has_prefix ◌==◌
let_in = refl

authenticate-Entry_example : Entry toy sessions admins false first_call empty bootstrap
authenticate-Entry_example =
    authenticate-Entry toy sessions admins false first_call empty after_first bootstrap let_in

-- A reader of a secret that was written as "db/versions".
abbrev get_versions : Request
get_versions = record put { method = codes "GET"; url_path = codes "/v1/secrets/kv/db/versions" }

ends_in_versions : has_suffix (kv_name get_versions.url_path) (codes "/versions") ≡ true
unfolding kv_name has_suffix trim_prefix has_prefix ◌==◌
ends_in_versions = refl

abbrev an_entry : KvEntry
an_entry = record {
  path = codes "db/versions";
  version = 1;
  value = some (codes "1");
  created_at = 0;
  deleted_at = none;
}
