-- ===== src/Cli/Identity.antt =====
-- As whom the commands of a service talk to the server.
use lockr.Base.{
  ◌≡◌, ◌≢◌, refl, [], ◌∷◌, Bytes, codes, ◌==◌, ==_refl, ==_sound, Bool-cases, inl, inr, arith,
}
use lockr.Result.{Result, ok, Result-cases}
use lockr.Client.Net.{Wire, Fields, strings}
use lockr.Cli.{
  Flags, LockrClient, field_text, data_text, response_data_string, authenticate_ed25519, with_token,
  post, read_key, ask_challenge, sign_challenge, answer_challenge, must_build_tls_config,
  new_admin_client, client_of, new_service_client,
}

-- A text of the data of an answer is not empty.
response_data_string_filled :
    (resp : Fields) (name text : Bytes) → response_data_string resp name ≡ ok text → text ≢ []
unfolding response_data_string data_text field_text
response_data_string_filled resp name text h e = ground (arith, ==_refl text)

module _ {S : Type 0} (wire : Wire S) (decode_map : Bytes → Result Fields) where
  answer_challenge_filled :
      (c : LockrClient) (challenge_hex sig token : Bytes) (w w' : S)
      → answer_challenge wire decode_map c challenge_hex sig w ≡ (ok token, w')
      → token ≢ []
  unfolding answer_challenge
  answer_challenge_filled c challenge_hex sig token w w' h =
      let body =
        strings
          ((codes "challenge", challenge_hex) ∷ (codes "signature", wire.hex_encode sig) ∷ []) in
      elim (Result-cases (post wire decode_map c (codes "/v1/auth/verify") body w).0) [
        | inr (x, e) ↦ ground arith
        | inl (resp, e) ↦ elim (Result-cases (response_data_string resp (codes "token"))) [
          | inr (x, r) ↦ ground arith
          | inl (text, r) ↦
              let same : text ≡ token = ground arith in
              rw (← same) (response_data_string_filled resp (codes "token") text r)
        ]
      ]

  authenticate_ed25519_filled :
      (c made : LockrClient) (identity key_path : Bytes) (w w' : S)
      → authenticate_ed25519 wire decode_map c identity key_path w ≡ (ok made, w')
      → (made.token ≢ []) × (made.addr ≡ c.addr)
  unfolding authenticate_ed25519
  authenticate_ed25519_filled c made identity key_path w w' h =
      elim (Result-cases (read_key wire decode_map key_path w).0) [
        | inr (x, e) ↦ ground arith
        | inl (key, e) ↦
            let w1 = (read_key wire decode_map key_path w).1 in
            elim (Result-cases (ask_challenge wire decode_map c identity w1).0) [
              | inr (x, f) ↦ ground arith
              | inl (hex, f) ↦
                  let w2 = (ask_challenge wire decode_map c identity w1).1 in
                  elim (Result-cases (sign_challenge wire decode_map key hex w2).0) [
                    | inr (x, g) ↦ ground arith
                    | inl (sig, g) ↦
                        let w3 = (sign_challenge wire decode_map key hex w2).1 in
                        elim (Result-cases (answer_challenge wire decode_map c hex sig w3).0) [
                          | inr (x, k) ↦ ground arith
                          | inl (token, k) ↦
                              let whole : answer_challenge wire decode_map c hex sig w3
                                  ≡ (ok token, (answer_challenge wire decode_map c hex sig w3).1) =
                                ground arith in
                              let filled = answer_challenge_filled c hex sig token w3 _ whole in
                              let same : made ≡ record c { token = token } = ground arith in
                              rw same (filled, refl)
                        ]
                  ]
            ]
      ]

  -- A client of a service has a token that is not empty and the address of the flags; with an admin
  -- token in the flags it is that token, and no request is sent.
  pub new_service_client_token :
      (flags : Flags) (c : LockrClient) (w w' : S)
      → new_service_client wire decode_map flags w ≡ (ok c, w')
      → (c.token ≢ [])
        × (c.addr ≡ flags.server_addr)
        × (flags.admin_token ≢ [] → (c.token ≡ flags.admin_token) × (w' ≡ w))
  unfolding new_service_client with_token new_admin_client client_of
  new_service_client_token flags c w w' h = elim (Result-cases (must_build_tls_config wire flags)) [
    | inr (x, e) ↦ ground arith
    | inl (tls, e) ↦ elim (Bool-cases (flags.admin_token == [])) [
      | inr n ↦
          let filled : flags.admin_token ≢ [] = λ z. ground (arith, ==_refl flags.admin_token) in
          let same : c.token ≡ flags.admin_token = ground arith in
          (rw same filled, ground arith, λ some'. (same, ground arith))
      | inl y ↦
          let c0 : LockrClient = record {
            addr = flags.server_addr;
            token = flags.admin_token;
            tls_config = tls;
          } in
          let login : authenticate_ed25519 wire decode_map c0 flags.service_id flags.key_path w
              ≡ (ok c, w') =
            ground arith in
          let (filled, there) =
            authenticate_ed25519_filled c0 c flags.service_id flags.key_path w w' login in
          (filled, there, λ some'. absurd (some' (==_sound flags.admin_token [] y)))
    ]
  ]
