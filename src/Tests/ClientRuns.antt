-- ===== src/Tests/ClientRuns.antt =====
-- The configuration, the start and the clients at small inputs.
use lockr.Base.{ℕ, ◌≡◌, ◌≢◌, ◌↔◌, refl, true, false, [], none, some, Bytes, codes, ◌==◌, arith}
use lockr.Result.{ok, err, not_exist, server_error}
use lockr.Config.{ConfigFiles, defaults, load}
use lockr.Config.Valid.{IsValid, load-IsValid}
use lockr.Client.Net.{Wire, nothing, Body, encode, system_roots}
use lockr.Client.{Answers, Session, kv_get, kv_set, kv_delete}
use lockr.Client.Replies.{AnswersWith, kv_set-refused}
use lockr.Policy.{new_engine, load_all}
use lockr.Storage.Crypto.{load_master_key, aesgcm_decrypt, new_gcm}
use lockr.Server.{
  Boot, Started, run, prepare, master_key, audit_logger, policy_engine, certificate_of,
}
use lockr.Server.Secured.{IsSecured, run-IsSecured}
use lockr.Tests.Toy.{toy, fill}
use lockr.Tests.SiteRuns.{logger, no_files}

-- A file that changes nothing.
abbrev config_files : ConfigFiles
config_files = record { read_file = λ path. ok path; unmarshal = λ text c. ok c }

load-IsValid_example : (load config_files (codes "lockr.yml") ≡ ok defaults) ↔ (
    (text : Bytes) × (ok (codes "lockr.yml") ≡ ok text)
    × (ok defaults ≡ ok defaults)
    × IsValid defaults)
load-IsValid_example = load-IsValid config_files (codes "lockr.yml") defaults

abbrev refusal : Bytes
refusal = codes "permission denied"

-- Every request is refused.
abbrev wire : Wire ℕ
wire = record {
  read_file = λ f. err not_exist;
  append_certs = λ pem. true;
  trim_space = λ s. s;
  hex_decode = λ s. ok s;
  hex_encode = λ s. s;
  sign = λ key text. text;
  marshal = λ b. ok (codes "{}");
  check_request = λ method url. ok tt;
  send = λ tls r n. (ok refusal, n);
}

abbrev answers : Answers
answers = record {
  challenge = λ text. ok [];
  token = λ text. ok [];
  error = λ text. ok text;
  data_error = λ text. ok (nothing, text);
  ciphertext_error = λ text. ok ([], text);
  plaintext_error = λ text. ok ([], text);
}

abbrev session : Session ℕ
session = record {
  client = record {
    addr = codes "https://lockr:8300";
    priv_key = none;
    token = codes "lvt_1";
    tls = system_roots;
  };
  outside = 0;
}

encoded : (b : Body) → (d : Bytes) × (encode wire b ≡ ok d)
unfolding encode
encoded Body.empty = (_, refl)
encoded (Body.strings fields) = (_, refl)
encoded (Body.value fields) = (_, refl)
encoded (Body.raw text) = (_, refl)
encoded (Body.version v) = (_, refl)

refuses : AnswersWith wire answers refusal
refuses = record { encoded = encoded; valid = λ method url. refl; sent = λ tls r s. refl }

not_empty : refusal ≢ []
not_empty e = ground arith

kv_set-refused_example :
    ((kv_get wire answers (codes "db") 0 session).0 ≡ err (server_error refusal))
    × ((kv_set wire answers (codes "db") nothing session).0 ≡ ok tt)
    × ((kv_delete wire answers (codes "db") session).0 ≡ ok tt)
kv_set-refused_example =
    kv_set-refused wire answers refusal refusal (codes "db") 0 nothing nothing session refuses
      not_empty refl refl

abbrev pub boot : Boot toy
boot = record {
  open_db = λ dir in_memory. ok [];
  passphrase = codes "open sesame";
  read_key_file = λ path. ok (fill 32 7);
  key_file = record {
    marshal = λ f. ok f.ciphertext;
    unmarshal = λ text. ok (record { salt = []; nonce = fill 12 0; ciphertext = text });
  };
  open_log = λ path. ok logger;
  key_pair = λ cert key. ok cert;
  files = λ t. no_files;
}

abbrev pub started : Started toy
started = record {
  world = record { db = []; tick = 1 };
  crypto = record { master_key = fill 32 7 };
  audit_log = some logger;
  engine = record { policies = []; dir = codes "/etc/lockr/policies" };
  session_ttl = 3600000000000;
  certificate = some (codes "/etc/lockr/tls/server.crt");
  addr = codes "0.0.0.0:8300";
}

pub starts : run toy boot defaults false ≡ ok started
unfolding run prepare master_key audit_logger policy_engine certificate_of new_engine load_all
    load_master_key aesgcm_decrypt new_gcm defaults ◌==◌
starts = refl

run-IsSecured_example : IsSecured toy boot defaults started
run-IsSecured_example = run-IsSecured toy boot defaults started starts
