-- ===== src/Api/Transit/Spares.antt =====
-- The handlers of the transit keys write the records of the keys, and nothing else.
use lockr.Base.{◌≡◌, false, Bytes, has_prefix}
use lockr.Keys.{transit_path}
use lockr.Result.{Result, ok, err}
use lockr.Platform.{Platform}
use lockr.Platform.Laws.{StoreLaws}
use lockr.Secrets.Transit.{TransitStore}
use lockr.Secrets.Transit.Spares as Transit
use lockr.Api.Spares.{Leaves, leaves_rules}
use lockr.Api.{Request, Server}
use lockr.Api.Transit.{
  TransitInput, encrypt_decoded, handle_encrypt, decrypt_decoded, handle_decrypt, handle_rotate,
  handle_info, handle_create, route_transit,
}

module _ (p : Platform) (area : Bytes) where
  module _ (store : StoreLaws p) (tr : TransitStore) (input : TransitInput) (s : Server)
      (r : Request) (out : (name : Bytes) → has_prefix (transit_path name) area ≡ false) where
    encrypt_decoded-Leaves :
        (name : Bytes) (t : Result Bytes) → Leaves p area (encrypt_decoded p tr input s r name t)
    unfolding encrypt_decoded
    encrypt_decoded-Leaves name (err e) = search leaves_rules
    encrypt_decoded-Leaves name (ok t) =
        search (leaves_rules, Transit.transit_encrypt-Spares p store tr area out)

    decrypt_decoded-Leaves :
        (name : Bytes) (t : Result Bytes) → Leaves p area (decrypt_decoded p tr input s r name t)
    unfolding decrypt_decoded
    decrypt_decoded-Leaves name (err e) = search leaves_rules
    decrypt_decoded-Leaves name (ok t) =
        search (leaves_rules, Transit.transit_decrypt-Spares p store tr area out)

    handle_encrypt-Leaves : Leaves p area (handle_encrypt p tr input s r)
    unfolding handle_encrypt
    handle_encrypt-Leaves = search (leaves_rules, encrypt_decoded-Leaves)

    handle_decrypt-Leaves : Leaves p area (handle_decrypt p tr input s r)
    unfolding handle_decrypt
    handle_decrypt-Leaves = search (leaves_rules, decrypt_decoded-Leaves)

    handle_rotate-Leaves : Leaves p area (handle_rotate p tr input s r)
    unfolding handle_rotate
    handle_rotate-Leaves = search (leaves_rules, Transit.rotate-Spares p store tr area out)

    handle_info-Leaves : Leaves p area (handle_info p tr input s r)
    unfolding handle_info
    handle_info-Leaves = search (leaves_rules, Transit.info-Spares p store tr area out)

    handle_create-Leaves : Leaves p area (handle_create p tr input s r)
    unfolding handle_create
    handle_create-Leaves = search (leaves_rules, Transit.create_key-Spares p store tr area out)

    pub route_transit-Leaves : Leaves p area (route_transit p tr input s r)
    unfolding route_transit
    route_transit-Leaves =
        search
          (
            leaves_rules, handle_create-Leaves, handle_encrypt-Leaves, handle_decrypt-Leaves,
            handle_rotate-Leaves, handle_info-Leaves,
          )
          depth 9
