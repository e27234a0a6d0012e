-- ===== src/Tests/AuthRuns.antt =====
-- A session, a user and a service on the toy platform.
use lockr.Base.{
  ◌<◌, ◌^◌, ℕ, ◌+◌, ◌-◌, ◌≤◌, ◌≡◌, ◌↔◌, ◌⊎◌, refl, true, false, Bool, [], ◌∷◌, ◌++◌, none, some,
  length, take, drop, take-length-append, drop-length-append, Bytes, codes, ◌==◌, has_prefix, eqb,
  if◌then◌else◌, arith,
}
use lockr.Base.Assoc.{lookup, insert, without}
use lockr.Keys.{session_path, user_path, totp_path, service_path}
use lockr.Result.{Result, ok, err, library, is_not_found, session_not_found, invalid_token_format}
use lockr.Platform.{World, now, random}
use lockr.Platform.Laws.{CodecLaws}
use lockr.Storage.Db as Db
use lockr.Storage.Db.{is_key_not_found}
use lockr.Storage.Crypto.{hash_argon2id, salt_len}
use lockr.Storage.Elapsed.{Drawn}
use lockr.Storage.Sealed.{at}
use lockr.Auth.Session.{
  SessionMeta, SessionStore, session_token_prefix, session_key, issue, issue_token, validate,
  revoke,
}
use lockr.Auth.Session.Lifetime.{IsSession, issue-IsSession, validate-revoke}
use lockr.Auth.User as User
use lockr.Auth.User.{UserRecord, UserAuth, user_free}
use lockr.Auth.User.Password.{UserLaws, verify-create}
use lockr.Auth.Challenge as Challenge
use lockr.Auth.Challenge.{
  ServiceRecord, PendingChallenge, Ed25519, AuthState, get_service, check_challenge,
  check_signature, verify_pending, challenge_ttl,
}
use lockr.Auth.Challenge.OneTime.{verify_sound}
use lockr.Auth.Totp as Totp
use lockr.Auth.Totp.{TotpRecord, hotp, truncate, big_endian, check_windows}
use lockr.Auth.Totp.Windows.{window_of, verify_windows_iff, verify_bound}
use lockr.Tests.Toy.{toy, toy_store_laws, toy_cipher_laws, fill}

-- Texts behind their length.
abbrev pub pack : Bytes → Bytes → Bytes
pack s rest = length s ∷ (s ++ rest)

abbrev pub unpack : Bytes → Bytes × Bytes
unpack [] = ([], [])
unpack (n ∷ s) = (take n s, drop n s)

pub unpack-pack : (s rest : Bytes) → unpack (pack s rest) ≡ (s, rest)
unpack-pack s rest = rw (take-length-append s rest) (rw (drop-length-append s rest))

abbrev read_session : Bytes → Result SessionMeta
read_session (i ∷ e ∷ s) =
    let (identity, s1) = unpack s in
    let (method, s2) = unpack s1 in
    let (policy, hash) = unpack s2 in
    ok (record {
      identity = identity;
      auth_method = method;
      policy = policy;
      issued_at = i;
      expires_at = e;
      token_hash = hash;
    })
read_session other = err (library other)

abbrev pub sessions : SessionStore
sessions = record {
  ttl = 3600000000000;
  metas = record {
    marshal = λ m. ok (
        m.issued_at
        ∷ m.expires_at
        ∷ pack m.identity (pack m.auth_method (pack m.policy m.token_hash)));
    unmarshal = read_session;
  };
  base64_url = λ b. b;
  hex = λ b. b;
}

pub session_laws : CodecLaws sessions.metas (λ m. m)
session_laws = record {
  unmarshal-marshal = λ m d h. ground (
    arith,
    unpack-pack m.identity (pack m.auth_method (pack m.policy m.token_hash)),
    unpack-pack m.auth_method (pack m.policy m.token_hash),
    unpack-pack m.policy m.token_hash,
  );
}

abbrev empty : World toy
empty = record { db = []; tick = 0 }

-- All that a run computes through.
running : Unit {0}
unfolding issue issue_token revoke session_key session_path User.create User.delete user_free
    user_path Db.get Db.set Db.set_with_ttl Db.delete is_key_not_found is_not_found lookup insert
    without ◌==◌ now random hash_argon2id Challenge.verify verify_pending check_challenge
    check_signature get_service service_path
running = tt

abbrev token : Bytes
token = session_token_prefix ++ fill 32 0

abbrev logged_in : World toy
logged_in = (issue toy sessions (codes "user:eve") (codes "password") (codes "readonly") empty).1

issued :
    issue toy sessions (codes "user:eve") (codes "password") (codes "readonly") empty
    ≡ (ok token, logged_in)
unfolding running
issued = refl

issue-IsSession_example :
    IsSession toy sessions toy_store_laws empty.tick logged_in.tick logged_in.db token
      (codes "user:eve")
      (codes "password")
      (codes "readonly")
issue-IsSession_example =
    issue-IsSession toy sessions toy_store_laws toy_cipher_laws session_laws (codes "user:eve")
      (codes "password") (codes "readonly") token empty logged_in issued

abbrev logged_out : World toy
logged_out = (revoke toy sessions token logged_in).1

revoked : revoke toy sessions token logged_in ≡ (ok tt, logged_out)
unfolding running
revoked = refl

validate-revoke_example : (validate toy sessions token (at toy logged_out.db 9)).0 ≡ (
    if has_prefix token session_token_prefix
    then err session_not_found
    else err invalid_token_format)
validate-revoke_example =
    validate-revoke toy sessions toy_store_laws token logged_in logged_out 9 revoked

abbrev write_bool : Bool → ℕ
write_bool false = 0
write_bool true = 1

read-write_bool : (b : Bool) → eqb (write_bool b) 1 ≡ b
read-write_bool false = refl
read-write_bool true = refl

abbrev read_user : Bytes → Result UserRecord
read_user (c ∷ d ∷ s) =
    let (username, s1) = unpack s in
    let (policy, hash) = unpack s1 in
    ok (record {
      username = username;
      policy = policy;
      created_at = c;
      hash = hash;
      disabled = eqb d 1;
    })
read_user other = err (library other)

abbrev pub users : UserAuth
users = record {
  records = record {
    marshal =
        λ r. ok (r.created_at ∷ write_bool r.disabled ∷ pack r.username (pack r.policy r.hash));
    unmarshal = read_user;
  };
}

pub user_laws : UserLaws toy users
user_laws = record {
  store = toy_store_laws;
  cipher = toy_cipher_laws;
  record_json = record {
    unmarshal-marshal = λ r d h. ground (
      arith,
      unpack-pack r.username (pack r.policy r.hash),
      unpack-pack r.policy r.hash,
      read-write_bool r.disabled,
    );
  };
}

abbrev pub registered : World toy
registered = (User.create toy users (codes "eve") (codes "pw") (codes "readonly") empty).1

was_registered :
    User.create toy users (codes "eve") (codes "pw") (codes "readonly") empty ≡ (ok tt, registered)
unfolding running
was_registered = refl

verify-create_example :
    (rec : UserRecord) × (salt : Bytes) × Drawn toy salt_len salt empty registered
    × (rec.username ≡ codes "eve")
    × (rec.policy ≡ codes "readonly")
    × ((other : Bytes) (t : ℕ)
        → ((User.verify toy users (codes "eve") other (at toy registered.db t)).0 ≡ ok rec)
          ↔ (toy.argon2_key other salt ≡ toy.argon2_key (codes "pw") salt))
verify-create_example =
    verify-create toy users user_laws (codes "eve") (codes "pw") (codes "readonly") empty registered
      was_registered

abbrev read_service : Bytes → Result ServiceRecord
read_service s =
    let (name, s1) = unpack s in
    let (key, policy) = unpack s1 in ok (record { name = name; public_key = key; policy = policy })

-- A signature is the key and the message.
abbrev pub ed25519 : Ed25519
ed25519 = record {
  records = record {
    marshal = λ r. ok (pack r.name (pack r.public_key r.policy));
    unmarshal = read_service;
  };
  hex = λ b. b;
  signed = λ key message signature. eqb (length signature) (length key + length message);
}

abbrev service : ServiceRecord
service = record { name = codes "ci"; public_key = codes "key"; policy = codes "readwrite" }

abbrev asked : AuthState toy
asked = record {
  world = record {
    db =
        (
          codes "auth/services/ci",
          (pack (codes "ci") (pack (codes "key") (codes "readwrite")), none),
        )
        ∷ [];
    tick = 1;
  };
  challenges =
      (
        codes "nonce",
        record { challenge = codes "nonce"; service = codes "ci"; expires_at = 5000000000 },
      )
      ∷ [];
}

abbrev answered : AuthState toy
answered = (Challenge.verify toy ed25519 (codes "nonce") (codes "keynonce") asked).1

accepted :
    Challenge.verify toy ed25519 (codes "nonce") (codes "keynonce") asked ≡ (ok service, answered)
unfolding running
accepted = refl

verify_sound_example :
    (pc : PendingChallenge) × (lookup (codes "nonce") asked.challenges ≡ some pc)
    × (pc.challenge ≡ codes "nonce")
    × (toy.clock 1 ≤ pc.expires_at)
    × (ed25519.signed service.public_key (codes "nonce") (codes "keynonce") ≡ true)
    × ((get_service toy ed25519 pc.service (record asked.world { tick = 2 })).0 ≡ ok service)
verify_sound_example =
    verify_sound toy ed25519 (codes "nonce") (codes "keynonce") asked answered service accepted

abbrev read_totp : Bytes → Result TotpRecord
read_totp s =
    let (name, s1) = unpack s in
    let (secret, policy) = unpack s1 in
    ok (record { name = name; secret = secret; policy = policy })

abbrev pub totp : Totp.Totp
totp = record {
  records = record {
    marshal = λ r. ok (pack r.name (pack r.secret r.policy));
    unmarshal = read_totp;
  };
  hmac_sha1 = λ key message. message ++ fill 12 0;
  base32 = λ b. b;
}

abbrev enrolled : Bytes
enrolled = pack (codes "job") (pack (codes "seed") (codes "readonly"))

abbrev with_totp : World toy
with_totp = record { db = (codes "auth/services/totp/job", (enrolled, none)) ∷ []; tick = 89 }

there : (t : ℕ) → toy.view_get t with_totp.db (totp_path (codes "job")) ≡ ok enrolled
unfolding lookup ◌==◌ totp_path
there t = refl

abbrev job : TotpRecord
job = record { name = codes "job"; secret = codes "seed"; policy = codes "readonly" }

verify_windows_iff_example :
    ((Totp.verify toy totp (codes "job") 3 (at toy with_totp.db 89)).0 ≡ ok job) ↔ (
      (hotp totp (codes "seed") (window_of (toy.clock 90) - 1) ≡ 3)
      ⊎ ((hotp totp (codes "seed") (window_of (toy.clock 90)) ≡ 3)
          ⊎ (hotp totp (codes "seed") (window_of (toy.clock 90) + 1) ≡ 3)))
verify_windows_iff_example =
    verify_windows_iff toy totp with_totp.db (codes "job") enrolled 3 89 job there refl
      (omega arith) (omega arith)

abbrev job_verified : World toy
job_verified = (Totp.verify toy totp (codes "job") 0 with_totp).1

job_accepted : Totp.verify toy totp (codes "job") 0 with_totp ≡ (ok job, job_verified)
unfolding Totp.verify check_windows hotp truncate big_endian Db.get now lookup ◌==◌ totp_path
job_accepted = refl

verify_bound_example : 0 < 10 ^ 6
verify_bound_example = verify_bound toy totp (codes "job") 0 with_totp job_verified job job_accepted

abbrev changed : World toy
changed = (User.change_password toy users (codes "eve") (codes "new") registered).1
