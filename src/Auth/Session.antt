-- ===== src/Auth/Session.antt =====
-- internal/auth/session.go: session tokens, stored under the digest of the token.
pub mod Lifetime
pub mod Spares
use lockr.Base.{ℕ, ◌+◌, Bool, List, ◌++◌, Bytes, codes, has_prefix, not, ltb, if◌then◌else◌}
use lockr.Keys.{session_path}
use lockr.Result.{
  Error, is_not_found, generate_session_token, hash_session_token, store_session,
  invalid_token_format, session_not_found, invalid_session_token, session_expired, wrap, Result, ok,
  err, Exec, pure, fail, lift, try, ◌>>=◌, ◌>>◌,
}
use lockr.Platform.{Platform, World, now, random, Codec}
use lockr.Storage.Db as Db
use lockr.Storage.Crypto.{hash_argon2id, verify_argon2id}

abbrev pub session_token_prefix : Bytes
session_token_prefix = codes "lvt_"

pub record SessionMeta : Type 0 where
  pub identity : Bytes
  pub auth_method : Bytes
  pub policy : Bytes
  pub issued_at : ℕ
  pub expires_at : ℕ
  pub token_hash : Bytes

-- The time to live, encoding/json for the record, base64.RawURLEncoding and hex.
pub record SessionStore : Type 0 where
  pub ttl : ℕ
  pub metas : Codec SessionMeta
  pub base64_url : Bytes → Bytes
  pub hex : Bytes → Bytes

session_missing : Error → Error
session_missing e = if is_not_found e then session_not_found else e

module _ (p : Platform) (ss : SessionStore) where
  open ss use {ttl, metas, base64_url, hex}

  unfoldable pub session_key : Bytes → Bytes
  session_key token = session_path (hex (p.sha256 token))

  -- Issue, once the token is made.
  unfoldable pub issue_token : Bytes → Bytes → Bytes → Bytes → Exec (World p) Bytes
  issue_token identity auth_method policy token = do
    hash ← wrap hash_session_token (hash_argon2id p token)
    time ← now p
    encoded ← lift (
        metas.marshal (record {
          identity = identity;
          auth_method = auth_method;
          policy = policy;
          issued_at = time;
          expires_at = time + ttl;
          token_hash = hash;
        }))
    wrap store_session (Db.set_with_ttl p (session_key token) encoded ttl)
    pure token

  unfoldable pub issue : Bytes → Bytes → Bytes → Exec (World p) Bytes
  issue identity auth_method policy = do
    raw ← wrap generate_session_token (random p 32)
    issue_token identity auth_method policy (session_token_prefix ++ base64_url raw)

  -- The last test of Validate; the error of the deletion is dropped.
  unfoldable pub check_expiry : Bytes → SessionMeta → ℕ → Exec (World p) SessionMeta
  check_expiry token meta time =
      let expired : Exec (World p) SessionMeta = do
        _ ← try (Db.delete p (session_key token))
        fail session_expired
      in if ltb meta.expires_at time then expired else pure meta

  unfoldable pub check_session : Bytes → SessionMeta → Exec (World p) SessionMeta
  check_session token meta =
      let timed : Exec (World p) SessionMeta = (do time ← now p; check_expiry token meta time) in
      if not (verify_argon2id p token meta.token_hash) then fail invalid_session_token else timed

  unfoldable pub validate : Bytes → Exec (World p) SessionMeta
  unfolding session_missing
  validate token =
      let found : Exec (World p) SessionMeta = do
        stored ← wrap session_missing (Db.get p (session_key token))
        meta ← lift (metas.unmarshal stored)
        check_session token meta
      in if not (has_prefix token session_token_prefix) then fail invalid_token_format else found

  unfoldable pub revoke : Bytes → Exec (World p) (Unit {0})
  revoke token = Db.delete p (session_key token)
