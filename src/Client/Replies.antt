-- ===== src/Client/Replies.antt =====
-- What the client reports of a request that the server refuses, and after a login.
use lockr.Base.{
  ◌≡◌, ◌≢◌, refl, [], ◌++◌, if◌then◌else◌, Bytes, codes, ◌==◌, ==_sound, Bool-cases, false, inl,
  inr,
}
use lockr.Base.Int.{Int64, int_lt, format_int}
use lockr.Result.{Result, ok, err, server_error, resume}
use lockr.Client.Net.{Wire, Fields, Body, empty, value, exchange, encode, Sent, TlsConfig}
use lockr.Client.{Answers, Session, secret_of, do_json, kv_get, kv_set, kv_delete}

module _ {S : Type 0} (wire : Wire S) (answers : Answers) where
  -- Every request is answered with the text, and sending and encoding never fail.
  pub record AnswersWith (text : Bytes) : Type 0 where
    pub encoded : (b : Body) → (d : Bytes) × (encode wire b ≡ ok d)
    pub valid : (method url : Bytes) → wire.check_request method url ≡ ok tt
    pub sent : (tls : TlsConfig) (r : Sent) (s : S) → (wire.send tls r s).0 ≡ ok text

  do_json-AnswersWith :
      {A : Type 0} (text method path : Bytes) (body : Body) (decode : Bytes → Result A)
      (s : Session S)
      → AnswersWith text
      → (do_json wire method path body decode s).0 ≡ decode text
  unfolding do_json exchange
  do_json-AnswersWith text method path body decode s h =
      let (d, e) = h.encoded body in
      let valid = h.valid method in let sent = h.sent in rw e (rw valid (rw sent refl))

  -- If every request is answered with an envelope that holds an error, KVGet of the client reports
  -- that error, but KVSet and KVDelete report success.
  pub kv_set-refused :
      (text refusal path : Bytes) (version : Int64) (fields partial : Fields) (s : Session S)
      → AnswersWith text
      → refusal ≢ []
      → answers.error text ≡ ok refusal
      → answers.data_error text ≡ ok (partial, refusal)
      → ((kv_get wire answers path version s).0 ≡ err (server_error refusal))
        × ((kv_set wire answers path fields s).0 ≡ ok tt)
        × ((kv_delete wire answers path s).0 ≡ ok tt)
  unfolding kv_get kv_set kv_delete secret_of
  kv_set-refused text refusal path version fields partial s h filled e d =
      let query = if int_lt 0 version then codes "?version=" ++ format_int version else [] in
      let get =
        do_json-AnswersWith text (codes "GET") ((codes "/v1/secrets/kv/" ++ path) ++ query) empty
          answers.data_error s h in
      let put =
        do_json-AnswersWith text (codes "PUT") (codes "/v1/secrets/kv/" ++ path) (value fields)
          answers.error s h in
      let del =
        do_json-AnswersWith text (codes "DELETE") (codes "/v1/secrets/kv/" ++ path) empty
          answers.error s h in
      let not_empty : (refusal == []) ≡ false = elim (Bool-cases (refusal == [])) [
        | inl y ↦ absurd (filled (==_sound refusal [] y))
        | inr n ↦ n
      ] in
      (rw get (rw (d, resume) (rw not_empty refl)), rw put (rw e refl), rw del (rw e refl))
