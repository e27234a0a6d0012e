-- ===== src/Api/Envelope.antt =====
-- internal/api/response.go: the envelope of a response, with the objects that the handlers put into it.
use lockr.Base.{ℕ, List, [], ◌∷◌, ◌++◌, Bytes, codes}
use lockr.Result.{Error}
use lockr.Client.Net.{
  Json, null, string, number, array, object, Items, done, item, Fields, nothing, field,
}
use lockr.Api.{
  Reply, message, failure, decryption_failed, status_is, keys_are, ciphertext_is, plaintext_is,
  challenge_is, login_is, admin_created,
}

-- error.Error(), the number of seconds of a duration, and encoding/json of the replies that hold records,
-- times or what the runtime reports. The answers of net/http itself, a redirect and the text 404 page not
-- found, have no envelope.
pub record Encoding : Type 0 where
  pub error_text : Error → Bytes
  pub seconds : ℕ → Bytes
  pub other : Reply → Json

-- The arguments of writeJSON and of the two writers of errors.
pub data Content : Type 0 where
  data_is : Json → Content
  error_is : Bytes → Content

texts : List Bytes → Items
texts [] = done
texts (t ∷ ts) = item (string t) (texts ts)

abbrev one_field : Bytes → Json → Json
one_field name v = object (field name v nothing)

unfoldable pub content : Encoding → Reply → Content
unfolding texts
content e (message text) = error_is text
content e (failure x) = error_is (e.error_text x)
content e (decryption_failed x) = error_is (codes "decryption failed: " ++ e.error_text x)
content e (status_is text) = data_is (one_field (codes "status") (string text))
content e (keys_are keys) = data_is (one_field (codes "keys") (array (texts keys)))
content e (ciphertext_is text) = data_is (one_field (codes "ciphertext") (string text))
content e (plaintext_is text) = data_is (one_field (codes "plaintext") (string text))
content e (challenge_is challenge service) = data_is (
    object (
      field (codes "challenge") (string challenge)
        (field (codes "service") (string service) nothing)))
content e (login_is token identity policy ttl) = data_is (
    object (
      field (codes "token") (string token) (
        field (codes "identity") (string identity) (
          field (codes "policy") (string policy)
            (field (codes "expires_in") (number (e.seconds ttl)) nothing)))))
content e (admin_created name token) =
    data_is
      (object (field (codes "name") (string name) (field (codes "token") (string token) nothing)))
content e reply = data_is (e.other reply)

-- The request id is empty in writeError.
unfoldable pub envelope : Bytes → Content → Fields
envelope request_id (data_is v) =
    field (codes "data") v
      (field (codes "error") null (field (codes "request_id") (string request_id) nothing))
envelope request_id (error_is text) =
    field (codes "data") null
      (field (codes "error") (string text) (field (codes "request_id") (string request_id) nothing))
