-- ===== src/Tests/StorageRuns.antt =====
-- Sealing, hashing, the master key file, listings and record keys on the toy platform.
use lockr.Base.{
  ◌≡◌, ◌↔◌, take-length-append, drop-length-append, has_suffix, has_prefix, cut, trim_prefix, refl,
  List, [], ◌∷◌, ◌++◌, length, take, drop, Mem, none, Bytes, codes, ◌==◌, arith,
}
use lockr.Result.{Result, ok, err, library, ciphertext_too_short}
use lockr.Platform.{World, Codec, random}
use lockr.Platform.Laws.{CodecLaws}
use lockr.Storage.Crypto.{
  Crypto, MasterKeyFile, aesgcm_encrypt, decrypt, derive_key, encrypt, hash_argon2id, new_gcm,
  save_master_key,
}
use lockr.Storage.Crypto.RoundTrip.{decrypt-encrypt, decrypt_short}
use lockr.Storage.Listing.{
  Items, close_child, contains, bytes_lt, child_of, children_from, keys, list, list_direct, seek,
  while_valid, with_slash,
}
use lockr.Storage.Listing.Prefix.{IsSorted}
use lockr.Storage.Listing.Children.{HasChild, Nodup, list_direct_iff}
use lockr.Tests.Toy.{toy, toy_cipher_laws, fill}

abbrev crypto : Crypto
crypto = record { master_key = codes "master" }

abbrev start : World toy
start = record { db = []; tick = 3 }

abbrev later : World toy
later = record { db = []; tick = 4 }

sealed :
    encrypt toy crypto (codes "a") (codes "text") start ≡ (ok (fill 12 3 ++ codes "text"), later)
unfolding encrypt derive_key aesgcm_encrypt new_gcm random
sealed = refl

decrypt-encrypt_example :
    decrypt toy crypto (codes "a") (fill 12 3 ++ codes "text") ≡ ok (codes "text")
decrypt-encrypt_example =
    decrypt-encrypt toy toy_cipher_laws crypto (codes "a") (codes "text")
      (fill 12 3 ++ codes "text") start later sealed

decrypt_short_example : decrypt toy crypto (codes "a") (codes "x") ≡ err ciphertext_too_short
decrypt_short_example =
    decrypt_short toy toy_cipher_laws crypto (codes "a") (codes "x") (omega arith)

abbrev hash : Bytes
hash = fill 32 3 ++ toy.argon2_key (codes "pw") (fill 32 3)

hashed : hash_argon2id toy (codes "pw") start ≡ (ok hash, later)
unfolding hash_argon2id random
hashed = refl

abbrev read_file : Bytes → Result MasterKeyFile
read_file (n ∷ m ∷ s) =
    ok (record { salt = take n s; nonce = take m (drop n s); ciphertext = drop m (drop n s) })
read_file other = err (library other)

abbrev pub file_codec : Codec MasterKeyFile
file_codec = record {
  marshal = λ f. ok (length f.salt ∷ length f.nonce ∷ (f.salt ++ (f.nonce ++ f.ciphertext)));
  unmarshal = read_file;
}

pub file_laws : CodecLaws file_codec (λ f. f)
file_laws = record {
  unmarshal-marshal = λ f d h. ground (
    arith,
    take-length-append f.salt (f.nonce ++ f.ciphertext),
    drop-length-append f.salt (f.nonce ++ f.ciphertext),
    take-length-append f.nonce f.ciphertext,
    drop-length-append f.nonce f.ciphertext,
  );
}

abbrev saved : Bytes
saved = 32 ∷ 12 ∷ (fill 32 3 ++ (fill 12 4 ++ codes "key"))

abbrev after_save : World toy
after_save = record { db = []; tick = 5 }

was_saved :
    save_master_key toy file_codec (codes "key") (codes "pass") start ≡ (ok saved, after_save)
unfolding save_master_key aesgcm_encrypt new_gcm random
was_saved = refl

abbrev items : Items
items =
    (codes "kv/a", codes "1")
    ∷ (codes "kv/b/c", codes "2")
    ∷ (codes "kv/b/d", codes "3")
    ∷ (codes "kw", codes "4")
    ∷ []

sorted : IsSorted items
unfolding bytes_lt
sorted = ((refl, (refl, (refl, tt))), ((refl, (refl, tt)), ((refl, tt), (tt, tt))))

abbrev stored : World toy
stored = record {
  db =
      (codes "kv/a", (codes "1", none))
      ∷ (codes "kv/b/c", (codes "2", none))
      ∷ (codes "kv/b/d", (codes "3", none))
      ∷ (codes "kw", (codes "4", none))
      ∷ [];
  tick = 1;
}

abbrev children : List Bytes
children = codes "kv/a" ∷ codes "kv/b/" ∷ []

listed : (list_direct toy (codes "kv") stored).0 ≡ ok children
unfolding list_direct list with_slash has_suffix children_from child_of close_child contains cut
    trim_prefix has_prefix seek while_valid bytes_lt ◌==◌
listed = refl

list_direct_iff_example :
    Nodup children
    × ((a : Bytes) → Mem a children ↔ HasChild (with_slash (codes "kv")) a (keys items))
list_direct_iff_example = list_direct_iff toy (codes "kv") stored items children refl sorted listed
