-- ===== src/Cli/Commands/LoggedIn.antt =====
-- The command login against the modelled server.
use lockr.Base.{
  Option-cases, sym, ap, ◌∙◌, ◌≤◌, ◌≡◌, refl, [], ◌∷◌, ◌++◌, none, some, ℕ, Bytes, codes, ◌==◌, inl,
  inr, arith,
}
use lockr.Result.{Result, ok, then_inv, wrap_inv, lift, request_failed, decode_response}
use mathlib.Core.Path.{subst}
use lockr.Platform.{Platform, World}
use lockr.Platform.Laws.{StoreLaws, CipherLaws, CodecLaws}
use lockr.Auth.User as User
use lockr.Auth.User.{UserRecord}
use lockr.Auth.Session.Lifetime.{IsSession, IsSession-within}
use lockr.Client.Net.{
  Wire, Sent, TlsConfig, Body, strings, Fields, at_key, as_string, as_object, exchange, encode,
  bearer,
}
use lockr.Api.{Response, login_is}
use lockr.Api.Envelope.{Encoding, content, envelope}
use lockr.Api.Mux.{route, found}
use lockr.Api.Site.{HttpRequest, Context, Site, SiteState}
use lockr.Api.Login.{handle_user_login}
use lockr.Api.Login.Answered.{Answered, refused, accepted, handle_user_login-Answered}
use lockr.Api.Login.Accepted.{handle_user_login-verify}
use lockr.Api.Routes.{Outer, outer_routes, serve}
use lockr.Api.Routes.Handled.{serve-handle_user_login}
use lockr.Cli.{Flags, LockrClient, line, print_response, must_build_tls_config, request, post}
use lockr.Cli.Commands.{print, print_token, token_of, logged_in, login_cmd}

module _ {S : Type 0} (wire : Wire S) (decode_map : Bytes → Result Fields) where
  -- A request of the command line that succeeds was sent, and its answer was decoded.
  post-sent :
      (c : LockrClient) (path : Bytes) (body : Body) (s s' : S) (resp : Fields)
      → post wire decode_map c path body s ≡ (ok resp, s')
      → (r : Sent) × (text : Bytes) × (r.url ≡ c.addr ++ path)
        × (encode wire body ≡ ok r.body)
        × (wire.send c.tls_config r s ≡ (ok text, s'))
        × (decode_map text ≡ ok resp)
  unfolding post request exchange
  post-sent c path body s s' resp h =
      let (text, s1, answered, decoded) =
        then_inv (exchange wire request_failed c.tls_config c.addr c.token (codes "POST") path body)
          _ s h in
      let (d, s2, encoded, h2) = then_inv (lift (encode wire body)) _ s answered in
      let (u, s3, checked, h3) =
        then_inv (lift (wire.check_request (codes "POST") (c.addr ++ path))) _ s2 h2 in
      let r : Sent = record {
        method = codes "POST";
        url = c.addr ++ path;
        content_type = codes "application/json";
        authorization = bearer c.token;
        body = d;
      } in
      let sent = wrap_inv request_failed (wire.send c.tls_config r) s3 h3 in
      let read = wrap_inv decode_response (lift (decode_map text)) s1 decoded in
      let same : s3 ≡ s = ap (λ x. x.1) (sym checked) ∙ ap (λ x. x.1) (sym encoded) in
      let ended : s1 ≡ s' = ap (λ x. x.1) read in
      (
        r,
        text,
        refl,
        ap (λ x. x.0) encoded,
        subst (λ t. wire.send c.tls_config r t ≡ (ok text, s')) same
            (subst (λ t. wire.send c.tls_config r s3 ≡ (ok text, t)) ended sent),
        ap (λ x. x.0) read,
      )

  module _ (flags : Flags) where
    logged_in-line :
        (resp : Fields) (token : Bytes) (s s' : S)
        → logged_in wire decode_map flags resp (as_string (at_key (codes "error") resp)) s
          ≡ (ok (line token), s')
        → (s' ≡ s)
          × (as_string (at_key (codes "error") resp) ≡ none)
          × (token_of wire decode_map flags resp ≡ some token)
    unfolding logged_in print_token print print_response
    logged_in-line resp token s s' h =
        elim (Option-cases (as_string (at_key (codes "error") resp))) [
          | inl e ↦ elim (Option-cases (token_of wire decode_map flags resp)) [
            | inl t ↦ ground arith
            | inr (made, t) ↦ (ground arith, e, ground arith)
          ]
          | inr (text, e) ↦ ground arith
        ]

abbrev pub credentials : Bytes → Bytes → Body
credentials username password =
    strings ((codes "username", username) ∷ (codes "password", password) ∷ [])

-- The command line talks to the modelled server: a request that is answered was handled by the server of
-- the flags, its body is decoded to what was encoded, and the answer is decoded to the envelope of the response.
pub record Served (p : Platform) (c : Site) (wire : Wire (SiteState p))
    (decode_map : Bytes → Result Fields) (flags : Flags) : Type 0 where
  pub encoding : Encoding
  pub deliver : Sent → HttpRequest
  pub request_id : Sent → Bytes
  pub body : Fields → Bytes
  pub routed :
      (r : Sent)
      → r.url ≡ flags.server_addr ++ codes "/v1/auth/login"
      → route c.clean_path c.unescape (deliver r).route_path outer_routes ≡ found Outer.user_login
  pub read :
      (r : Sent) (username password : Bytes)
      → encode wire (credentials username password) ≡ ok r.body
      → c.input.decode_password_login (deliver r).body ≡ ok (username, password)
  pub handled :
      (tls : TlsConfig) (r : Sent) (text : Bytes) (s s' : SiteState p)
      → wire.send tls r s ≡ (ok text, s')
      → (text ≡ body (envelope (request_id r) (content encoding (serve p c (deliver r) s).0.reply)))
        × (s' ≡ (serve p c (deliver r) s).1)
  pub decoded :
      (id : Bytes) (out : Response)
      → Answered out
      → decode_map (body (envelope id (content encoding out.reply)))
        ≡ ok (envelope id (content encoding out.reply))

module _ (p : Platform) (store : StoreLaws p) (cipher : CipherLaws p) (c : Site)
    (json : CodecLaws c.sessions.metas (λ m. m)) (wire : Wire (SiteState p))
    (decode_map : Bytes → Result Fields) (flags : Flags)
    (net : Served p c wire decode_map flags) where
  -- An envelope that holds a token and no error is the one of an accepted login with that token.
  accepted-envelope :
      (id token : Bytes) (out : Response)
      → Answered out
      → as_string (at_key (codes "error") (envelope id (content net.encoding out.reply))) ≡ none
      → token_of wire decode_map flags (envelope id (content net.encoding out.reply)) ≡ some token
      → (identity policy : Bytes) × (ttl : ℕ) × (out
          ≡ record { status = 200; reply = login_is token identity policy ttl })
  unfolding envelope content token_of at_key as_string as_object ◌==◌
  accepted-envelope id token out (refused status text) clean held = absurd (ground arith)
  accepted-envelope id token out (accepted token' identity policy ttl) clean held =
      let same : token' ≡ token = ground arith in
      (
        identity,
        policy,
        ttl,
        ap (λ t. record { status = 200; reply = login_is t identity policy ttl }) same,
      )

  decoded_same :
      {text body' : Bytes} {resp fields : Fields}
      → decode_map text ≡ ok resp
      → text ≡ body'
      → decode_map body' ≡ ok fields
      → resp ≡ fields
  decoded_same answer written read = ground arith

  accepted-IsSession :
      (h : HttpRequest) (ctx : Context) (s s' : SiteState p) (username password token id : Bytes)
      (resp : Fields)
      → c.input.decode_password_login h.body ≡ ok (username, password)
      → resp ≡ envelope id (content net.encoding (handle_user_login p c h ctx s).0.reply)
      → s' ≡ (handle_user_login p c h ctx s).1
      → as_string (at_key (codes "error") resp) ≡ none
      → token_of wire decode_map flags resp ≡ some token
      → (rec : UserRecord) × ((User.verify p c.users username password s.auth.world).0 ≡ ok rec)
        × IsSession p c.sessions store s.auth.world.tick s'.auth.world.tick s'.auth.world.db token
            (codes "user:" ++ rec.username)
            (codes "password")
            rec.policy
  accepted-IsSession h ctx s s' username password token id resp typed sent after clean held =
      let out = (handle_user_login p c h ctx s).0 in
      let (identity, policy, ttl, answer) =
        accepted-envelope id token out (handle_user_login-Answered p c h ctx s) (rw (← sent) clean)
          (rw (← sent) held) in
      let (named, secret, rec, read, verified, identified, granted, session) =
        handle_user_login-verify p store cipher c h ctx json token identity policy ttl s s'
          (λ i. (answer i, sym after i)) in
      (rec, ground arith, rw (← identified) (rw (← granted) session))

  -- What holds of the state in which a request is sent holds of the one in which the command begins.
  same_start :
      (s s1 s0 : SiteState p)
      → s1 ≡ s
      → s0.auth.world.db ≡ s1.auth.world.db
      → s1.auth.world.tick ≤ s0.auth.world.tick
      → (s0.auth.world.db ≡ s.auth.world.db) × (s.auth.world.tick ≤ s0.auth.world.tick)
  same_start s s1 s0 e stored late =
      subst
        (λ (t : SiteState p).
          (s0.auth.world.db ≡ t.auth.world.db) × (t.auth.world.tick ≤ s0.auth.world.tick))
        e (stored, late)

  -- When the command login talks to the server, in that a request that is answered was handled by it
  -- and its body and answer are decoded to what was encoded, and prints a line with a token, then
  -- Verify accepts the user name and the password in the database that the server had at the start
  -- of the command, and the server is left with a session of the token that was issued during the
  -- command, with the identity and the policy of that user.
  pub login_cmd-IsSession :
      (username password token : Bytes) (s s' : SiteState p)
      → login_cmd wire decode_map flags username password s ≡ (ok (line token), s')
      → (w : World p) × (w.db ≡ s.auth.world.db)
        × (s.auth.world.tick ≤ w.tick)
        × (rec : UserRecord) × ((User.verify p c.users username password w).0 ≡ ok rec)
        × IsSession p c.sessions store s.auth.world.tick s'.auth.world.tick s'.auth.world.db token
            (codes "user:" ++ rec.username)
            (codes "password")
            rec.policy
  unfolding login_cmd
  login_cmd-IsSession username password token s s' h =
      let (tls, s1, made, h1) = then_inv (lift (must_build_tls_config wire flags)) _ s h in
      let client : LockrClient = record {
        addr = flags.server_addr;
        token = [];
        tls_config = tls;
      } in
      let (resp, s2, posted, h2) =
        then_inv
          (post wire decode_map client (codes "/v1/auth/login") (credentials username password)) _
          s1 h1 in
      let (same, clean, held) = logged_in-line wire decode_map flags resp token s2 s' h2 in
      let (r, text, url, body, sent, answer) =
        post-sent wire decode_map client (codes "/v1/auth/login") _ s1 s2 resp posted in
      let (written, after) = net.handled tls r text s1 s2 sent in
      let (ctx, s0, stored, stamped, handled) =
        serve-handle_user_login p c (net.deliver r) s1 (net.routed r url) in
      let out = (serve p c (net.deliver r) s1).0 in
      let answers : Answered out =
        rw handled (handle_user_login-Answered p c (net.deliver r) ctx s0) in
      let given : resp ≡ envelope (net.request_id r) (content net.encoding out.reply) =
        decoded_same answer written (net.decoded (net.request_id r) out answers) in
      let begun : s1 ≡ s = ap (λ x. x.1) (sym made) in
      let (rec, verified, session) =
        accepted-IsSession (net.deliver r) ctx s0 s' username password token (net.request_id r) resp
          (net.read r username password body)
          (given ∙ ap (λ x. envelope (net.request_id r) (content net.encoding x.0.reply)) handled)
          (same ∙ after ∙ ap (λ x. x.1) handled) clean held in
      let (stored_first, late) = same_start s s1 s0 begun stored stamped in
      (
        s0.auth.world,
        stored_first,
        late,
        rec,
        verified,
        IsSession-within p c.sessions store s0.auth.world.tick s'.auth.world.tick s.auth.world.tick
            s'.auth.world.tick s'.auth.world.db token _ _ _ late (omega arith) session,
      )
