-- ===== src/Auth/Session/Spares.antt =====
-- The sessions leave the records outside auth/sessions/ alone.
use lockr.Base.{◌≡◌, false, Bytes, has_prefix}
use lockr.Platform.{Platform}
use lockr.Platform.Laws.{StoreLaws}
use lockr.Storage.Frame.{Spares, frame_rules}
use lockr.Auth.Session.{
  SessionMeta, SessionStore, session_key, issue, issue_token, validate, check_session, check_expiry,
  revoke,
}

module _ (p : Platform) (store : StoreLaws p) (ss : SessionStore) (area : Bytes)
    (out : (token : Bytes) → has_prefix (session_key p ss token) area ≡ false) where
  issue_token-Spares :
      (identity method policy token : Bytes)
      → Spares p area (issue_token p ss identity method policy token)
  unfolding issue_token
  issue_token-Spares identity method policy token = search (frame_rules, out, store) depth 9

  pub issue-Spares :
      (identity method policy : Bytes) → Spares p area (issue p ss identity method policy)
  unfolding issue
  issue-Spares identity method policy = search (frame_rules, issue_token-Spares) depth 9

  check_session-Spares :
      (token : Bytes) (meta : SessionMeta) → Spares p area (check_session p ss token meta)
  unfolding check_session check_expiry
  check_session-Spares token meta = search (frame_rules, out, store) depth 9

  pub validate-Spares : (token : Bytes) → Spares p area (validate p ss token)
  unfolding validate
  validate-Spares token = search (frame_rules, check_session-Spares) depth 9

  pub revoke-Spares : (token : Bytes) → Spares p area (revoke p ss token)
  unfolding revoke
  revoke-Spares token = search (frame_rules, out, store)
