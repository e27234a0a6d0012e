-- ===== src/Tests/LoginRuns.antt =====
-- The command login against the whole server on the toy platform.
use lockr.Base.{
  ◌≤◌, true, sym, ap, take-length-append, drop-length-append, zero, suc, ◌≡◌, refl, [], ◌∷◌, ◌++◌,
  Option, none, some, Bytes, codes, ◌==◌, has_prefix, has_suffix, arith,
}
use lockr.Base.Assoc.{lookup, insert, without}
use lockr.Keys.{user_path, session_path}
use lockr.Result.{Result, ok, err, not_exist, is_not_found}
use lockr.Platform.{World, now, random}
use lockr.Storage.Db as Db
use lockr.Storage.Db.{is_key_not_found}
use lockr.Storage.Crypto.{hash_argon2id, verify_argon2id, subtle32_equal, diff_from}
use lockr.Auth.Session.{session_token_prefix, session_key, issue, issue_token}
use lockr.Auth.Session.Lifetime.{IsSession}
use lockr.Auth.User as User
use lockr.Auth.User.{UserRecord, check_user}
use lockr.Client.Net.{
  Wire, Body, Sent, null, string, number, object, Fields, nothing, field, at_key, as_string,
  as_object, exchange, encode, bearer,
}
use lockr.Api.{Response}
use lockr.Api.Envelope.{Encoding, content, envelope}
use lockr.Api.Mux.{
  route, found, lacks_slash, fits, segments, unescaped, fits_segments, same_segments, best,
}
use lockr.Api.Site.{HttpRequest, Site, SiteState, log_auth_attempt, logged}
use lockr.Api.Login.{handle_user_login, log_in}
use lockr.Api.Login.Answered.{Answered, refused, accepted}
use lockr.Api.Routes.{Outer, outer_routes, serve, outer_action, outer_routed}
use lockr.Cli.{Flags, line, must_build_tls_config, build_tls_config, post, request}
use lockr.Cli.Commands.{login_cmd}
use lockr.Cli.Commands.LoggedIn.{Served, credentials, login_cmd-IsSession}
use lockr.Tests.Toy.{toy, toy_store_laws, toy_cipher_laws, fill}
use lockr.Tests.AuthRuns.{users, sessions, session_laws, pack, unpack}
use lockr.Tests.SiteRuns.{site, input, login, state}

abbrev flags : Flags
flags = record {
  server_addr = codes "http://lockr:8300";
  key_path = [];
  service_id = [];
  ca_path = [];
  admin_token = [];
  output_fmt = codes "text";
}

-- The site with bodies that hold both credentials.
abbrev two : Site
two = record site { input = record input { decode_password_login = λ b. ok (unpack b) } }

abbrev marshal : Body → Result Bytes
marshal (Body.strings ((k, u) ∷ (j, s) ∷ [])) = ok (pack u s)
marshal b = err not_exist

abbrev deliver : Sent → HttpRequest
deliver r = record login { body = r.body }

abbrev encoding : Encoding
encoding = record { error_text = λ e. []; seconds = λ n. codes "3600"; other = λ r. null }

abbrev text_of : Option Bytes → Bytes
text_of none = []
text_of (some t) = t

-- A text stands for its own fields; of a token, also those of the login.
text_at : Bytes → Fields → Bytes
unfolding at_key as_string ◌==◌
text_at key m = text_of (as_string (at_key key m))

abbrev body_with : Option Bytes → Option Fields → Bytes → Bytes
body_with (some text) fields id = 0 ∷ pack id text
body_with none none id = []
body_with none (some m) id =
    1
    ∷ pack id (
        pack (text_at (codes "token") m)
          (pack (text_at (codes "identity") m) (text_at (codes "policy") m)))

body : Fields → Bytes
unfolding at_key as_string as_object ◌==◌
body m =
    body_with (as_string (at_key (codes "error") m)) (as_object (at_key (codes "data") m))
      (text_at (codes "request_id") m)

unpacked_error : Bytes × Bytes → Fields
unpacked_error (id, text) =
    field (codes "data") null
      (field (codes "error") (string text) (field (codes "request_id") (string id) nothing))

unpacked_login : Bytes → Bytes → Bytes × Bytes → Fields
unpacked_login id token (identity, policy) =
    field (codes "data")
      (object (
        field (codes "token") (string token) (
          field (codes "identity") (string identity) (
            field (codes "policy") (string policy)
              (field (codes "expires_in") (number (codes "3600")) nothing)))))
      (field (codes "error") null (field (codes "request_id") (string id) nothing))

decode_map : Bytes → Result Fields
unfolding unpacked_error unpacked_login
decode_map [] = err not_exist
decode_map (zero ∷ s) = ok (unpacked_error (unpack s))
decode_map (suc n ∷ s) =
    ok (unpacked_login (unpack s).0 (unpack (unpack s).1).0 (unpack (unpack (unpack s).1).1))

abbrev wire : Wire (SiteState toy)
wire = record {
  read_file = λ f. err not_exist;
  append_certs = λ pem. true;
  trim_space = λ s. s;
  hex_decode = λ s. ok s;
  hex_encode = λ s. s;
  sign = λ key text. text;
  marshal = marshal;
  check_request = λ method url. ok tt;
  send = λ tls r s.
      let (out, s') = serve toy two (deliver r) s in
      (ok (body (envelope [] (content encoding out.reply))), s');
}

read_back :
    (id : Bytes) (out : Response)
    → Answered out
    → decode_map (body (envelope id (content encoding out.reply)))
      ≡ ok (envelope id (content encoding out.reply))
unfolding decode_map body text_at unpacked_error unpacked_login envelope content at_key as_string
    as_object ◌==◌
read_back id out (refused status text) =
    rw (take-length-append id text) (rw (drop-length-append id text) refl)
read_back id out (accepted token identity policy ttl) =
    rw (take-length-append id (pack token (pack identity policy))) (
      rw (drop-length-append id (pack token (pack identity policy))) (
        rw (take-length-append token (pack identity policy)) (
          rw (drop-length-append token (pack identity policy)) (
            rw (take-length-append identity policy)
              (rw (drop-length-append identity policy) refl)))))

taken :
    {S : Type 0} {a text : Bytes} {t s' : S}
    → ◌≡◌ {A = Result Bytes × S} (ok a, t) (ok text, s')
    → (text ≡ a) × (s' ≡ t)
taken h = (ground arith, sym (ap (λ x. x.1) h))

routed : route two.clean_path two.unescape login.route_path outer_routes ≡ found Outer.user_login
unfolding route lacks_slash fits segments unescaped fits_segments same_segments best has_suffix
    has_prefix ◌==◌
routed = refl

read :
    (r : Sent) (username password : Bytes)
    → encode wire (credentials username password) ≡ ok r.body
    → two.input.decode_password_login (deliver r).body ≡ ok (username, password)
unfolding encode
read r username password e =
    let b : r.body ≡ pack username password = ground arith in
    rw b
      (rw (take-length-append username password) (rw (drop-length-append username password) refl))

net : Served toy two wire decode_map flags
unfolding body
net = record {
  encoding = encoding;
  deliver = deliver;
  request_id = λ r. [];
  body = body;
  routed = λ r e. routed;
  read = read;
  handled = λ tls r text s s' h. taken h;
  decoded = λ id out answered. read_back id out answered;
}

abbrev token : Bytes
token = session_token_prefix ++ fill 32 7

abbrev after : SiteState toy
after = (login_cmd wire decode_map flags (codes "eve") (codes "pw") state).1

logs_in :
    login_cmd wire decode_map flags (codes "eve") (codes "pw") state ≡ (ok (line token), after)
unfolding login_cmd must_build_tls_config build_tls_config post request exchange encode bearer serve
    outer_action outer_routed route lacks_slash fits segments unescaped fits_segments same_segments
    best has_suffix has_prefix handle_user_login log_in log_auth_attempt logged User.verify User.get
    User.create user_path check_user Db.get Db.set Db.set_with_ttl lookup insert without ◌==◌ now
    random hash_argon2id verify_argon2id subtle32_equal diff_from issue issue_token session_key
    session_path is_key_not_found is_not_found User.user_free decode_map body text_at unpacked_error
    unpacked_login envelope content at_key as_string as_object
logs_in = refl

login_cmd-IsSession_example :
    (w : World toy) × (w.db ≡ state.auth.world.db)
    × (state.auth.world.tick ≤ w.tick)
    × (rec : UserRecord) × ((User.verify toy users (codes "eve") (codes "pw") w).0 ≡ ok rec)
    × IsSession toy sessions toy_store_laws state.auth.world.tick after.auth.world.tick
        after.auth.world.db token
        (codes "user:" ++ rec.username)
        (codes "password")
        rec.policy
login_cmd-IsSession_example =
    login_cmd-IsSession toy toy_store_laws toy_cipher_laws two session_laws wire decode_map flags
      net (codes "eve") (codes "pw") token state after logs_in
