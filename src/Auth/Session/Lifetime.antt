-- ===== src/Auth/Session/Lifetime.antt =====
-- How long a session token is accepted: from Issue to the expiry, or to Revoke.
use lockr.Base.{
  ℕ, suc, ◌≤◌, ◌<◌, ◌+◌, ◌/◌, ◌≡◌, refl, true, ◌++◌, Bytes, ==_refl, has_prefix, has_prefix_iff,
  ltb, inl, inr, if◌then◌else◌, arith,
}
use lockr.Result.{
  Result, ok, err, Result-cases, is_not_found, key_not_found, session_not_found, session_expired,
  invalid_token_format,
}
use lockr.Platform.{Platform, World, now, random}
use lockr.Platform.Laws.{second, StoreLaws, CipherLaws, CodecLaws}
use lockr.Storage.Db as Db
use lockr.Storage.Db.{is_key_not_found}
use lockr.Storage.Crypto.{hash_argon2id, verify_argon2id}
use lockr.Storage.Crypto.RoundTrip.{verify-hash_argon2id}
use lockr.Storage.Elapsed.{Later-hash_argon2id, set_with_ttl-tick}
use lockr.Storage.Sealed.{at, delete_effect}
use lockr.Auth.Session.{
  SessionMeta, SessionStore, session_token_prefix, session_key, issue, issue_token, validate,
  check_session, check_expiry, revoke,
}

module _ (p : Platform) (ss : SessionStore) (store : StoreLaws p) where
  open ss use {ttl, metas, base64_url, hex}

  -- After a successful Revoke the token is never accepted: Validate answers that there is no such
  -- session, or that the token is malformed.
  pub validate-revoke :
      (token : Bytes) (w w' : World p) (t : ℕ)
      → revoke p ss token w ≡ (ok tt, w')
      → (validate p ss token (at p w'.db t)).0 ≡ (
          if has_prefix token session_token_prefix
          then err session_not_found
          else err invalid_token_format)
  unfolding revoke validate Db.get is_key_not_found is_not_found
  validate-revoke token w w' t h =
      let (gone, others) = delete_effect p store (session_key p ss token) w w' h in
      ground (arith, gone t)

  -- The bytes under a key that was set with a time to live.
  abbrev timed : Bytes → ℕ → ℕ → Result Bytes
  timed v end t = if ltb (p.clock t / second) end then ok v else err key_not_found

  set_with_ttl_effect :
      (k v : Bytes) (d : ℕ) (w w' : World p)
      → Db.set_with_ttl p k v d w ≡ (ok tt, w')
      → (t : ℕ) → p.view_get t w'.db k ≡ timed v ((p.clock w.tick + d) / second) t
  unfolding Db.set_with_ttl
  set_with_ttl_effect k v d w w' h t = elim (Result-cases (p.update_set_ttl w.tick w.db k v d)) [
    | inl (s, e) ↦
        let same : w'.db ≡ s = ground arith in
        rw same (rw (store.get-set_ttl w.tick t w.db s k v k d e) (rw (==_refl k)))
    | inr (x, e) ↦ ground arith
  ]

  -- What Validate answers for a token whose record is stored until the second `end`.
  abbrev pub lifetime : SessionMeta → ℕ → ℕ → Result SessionMeta
  lifetime meta end t =
      if ltb (p.clock t / second) end
      then (if ltb meta.expires_at (p.clock (suc t)) then err session_expired else ok meta)
      else err session_not_found

  validate-stored :
      (token encoded : Bytes) (meta : SessionMeta) (s : p.Store) (end t : ℕ)
      → has_prefix token session_token_prefix ≡ true
      → verify_argon2id p token meta.token_hash ≡ true
      → metas.unmarshal encoded ≡ ok meta
      → p.view_get t s (session_key p ss token) ≡ timed encoded end t
      → (validate p ss token (at p s t)).0 ≡ lifetime meta end t
  unfolding validate check_session check_expiry now Db.get is_key_not_found is_not_found
  validate-stored token encoded meta s end t pre hash dec stored = ground arith

  -- A session that Validate knows by the token, as it answers at every later time. The clock was read for
  -- the time of issue after the outside call numbered `from`, and the record was written after that
  -- and before the call numbered `until`.
  pub record IsSession (from until : ℕ) (s : p.Store) (token identity auth_method policy : Bytes)
      : Type 0 where
    pub meta : SessionMeta
    pub clock_read : ℕ
    pub written : ℕ
    pub began : from ≤ clock_read
    pub order : clock_read < written
    pub ended : written < until
    pub issued : meta.issued_at ≡ p.clock clock_read
    pub known : meta.identity ≡ identity
    pub method : meta.auth_method ≡ auth_method
    pub granted : meta.policy ≡ policy
    pub expiry : meta.expires_at ≡ p.clock clock_read + ttl
    pub answers :
        (t : ℕ)
        → (validate p ss token (at p s t)).0 ≡ lifetime meta ((p.clock written + ttl) / second) t

  pub IsSession-within :
      (from until from' until' : ℕ) (s : p.Store) (token identity auth_method policy : Bytes)
      → from' ≤ from
      → until ≤ until'
      → IsSession from until s token identity auth_method policy
      → IsSession from' until' s token identity auth_method policy
  IsSession-within from until from' until' s token identity auth_method policy a b i = record {
    meta = i.meta;
    clock_read = i.clock_read;
    written = i.written;
    began = omega (arith, i.began);
    order = i.order;
    ended = omega (arith, i.ended);
    issued = i.issued;
    known = i.known;
    method = i.method;
    granted = i.granted;
    expiry = i.expiry;
    answers = i.answers;
  }

  module _ (cipher : CipherLaws p) (metas_json : CodecLaws metas (λ m. m)) where
    issue_token-IsSession :
        (identity auth_method policy token made : Bytes) (w w' : World p)
        → has_prefix made session_token_prefix ≡ true
        → issue_token p ss identity auth_method policy made w ≡ (ok token, w')
        → IsSession w.tick w'.tick w'.db token identity auth_method policy
    unfolding issue_token now
    issue_token-IsSession identity auth_method policy token made w w' pre h =
        elim (Result-cases (hash_argon2id p made w).0) [
          | inr (x, e) ↦ ground arith
          | inl (hash, e) ↦
              let w1 = (hash_argon2id p made w).1 in
              let whole : hash_argon2id p made w ≡ (ok hash, w1) = ground arith in
              let (salt, drawn, accepts) = verify-hash_argon2id p cipher made hash w w1 whole in
              let later = (Later-hash_argon2id p made).at w in
              let time = p.clock w1.tick in
              let w2 : World p = record w1 { tick = suc w1.tick } in
              let meta : SessionMeta = record {
                identity = identity;
                auth_method = auth_method;
                policy = policy;
                issued_at = time;
                expires_at = time + ttl;
                token_hash = hash;
              } in
              elim (Result-cases (metas.marshal meta)) [
                | inr (x, q) ↦ ground arith
                | inl (encoded, q) ↦
                    let key = session_key p ss made in
                    elim (Result-cases (Db.set_with_ttl p key encoded ttl w2).0) [
                      | inr (x, r) ↦ ground arith
                      | inl (u, r) ↦
                          let same : token ≡ made = ground arith in
                          let written : Db.set_with_ttl p key encoded ttl w2 ≡ (ok tt, w') =
                            ground arith in
                          record {
                            meta = meta;
                            clock_read = w1.tick;
                            written = w2.tick;
                            began = later;
                            order = omega arith;
                            ended = ground (arith, set_with_ttl-tick p key encoded ttl w2);
                            issued = refl;
                            known = refl;
                            method = refl;
                            granted = refl;
                            expiry = refl;
                            answers = λ t. rw same (
                                validate-stored made encoded meta w'.db
                                  ((p.clock w2.tick + ttl) / second) t pre ((accepts made).1 refl)
                                  (metas_json.unmarshal-marshal meta encoded q)
                                  (set_with_ttl_effect key encoded ttl w2 w' written t));
                          }
                    ]
              ]
        ]

    -- After a successful Issue every Validate of the token accepts it, with the identity, the method
    -- and the policy of the login, until the clock is past the expiry, which is the time to live
    -- after the time that the clock showed during the Issue, or the database has dropped the record,
    -- which it does in the second in which the time to live of the write ends.
    pub issue-IsSession :
        (identity auth_method policy token : Bytes) (w w' : World p)
        → issue p ss identity auth_method policy w ≡ (ok token, w')
        → IsSession w.tick w'.tick w'.db token identity auth_method policy
    unfolding issue random
    issue-IsSession identity auth_method policy token w w' h =
        elim (Result-cases (p.rand_read w.tick 32)) [
          | inr (x, e) ↦ ground arith
          | inl (raw, e) ↦
              IsSession-within (suc w.tick) w'.tick w.tick w'.tick w'.db token identity auth_method
                policy (omega arith) (omega arith)
                (issue_token-IsSession identity auth_method policy token
                  (session_token_prefix ++ base64_url raw) (record w { tick = suc w.tick }) w'
                  ((has_prefix_iff _ session_token_prefix).1 (base64_url raw, refl)) (ground arith))
        ]
