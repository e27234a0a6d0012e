-- ===== src/Client/Example.antt =====
-- examples/go/main.go: a program that uses the client library. log.Fatal ends it with the error.
use lockr.Base.{List, [], ◌∷◌, Option, Bytes, codes, some}
use lockr.Result.{Result, ok, err, Exec, pure, ◌>>=◌, ◌>>◌}
use lockr.Client.{
  Options, Answers, Session, Client, new, authenticate, kv_get, transit_encrypt, transit_decrypt,
}
use lockr.Client.Net.{Wire, Json, string, at_key}

abbrev pub example_options : Options
example_options = record {
  addr = codes "https://lockr:8300";
  priv_key_hex = [];
  priv_key_path = codes "./certs/api-server.key";
  ca_path = codes "./certs/ca.crt";
  admin_token = [];
}

module _ {S : Type 0} (wire : Wire S) (answers : Answers) where
  -- What the program prints, by the label of each line.
  unfoldable pub example_calls : Exec (Session S) (List (Bytes × Option Json))
  example_calls = do
    authenticate wire answers (codes "api-server")
    secret ← kv_get wire answers (codes "secrets/prod/stripe_key") 0
    ct ← transit_encrypt wire answers (codes "payments-key") (codes "card:4111111111111111")
    pt ← transit_decrypt wire answers (codes "payments-key") ct
    pure (
        (codes "stripe key:", at_key (codes "key") secret)
        ∷ (codes "encrypted:", some (string ct))
        ∷ (codes "decrypted:", some (string pt))
        ∷ [])

  example_with : Result Client → S → Result (List (Bytes × Option Json)) × S
  example_with (err e) s = (err e, s)
  example_with (ok c) s =
      let (r, t) = example_calls (record { client = c; outside = s }) in (r, t.outside)

  unfoldable pub example_main : Exec S (List (Bytes × Option Json))
  unfolding example_with
  example_main s = example_with (new wire example_options) s
