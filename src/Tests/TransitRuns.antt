-- ===== src/Tests/TransitRuns.antt =====
-- A transit key on the toy platform: created, used, rotated and used again.
use lockr.Base.{
  ℕ, suc, length, take, drop, take-length-append, drop-length-append, ◌≡◌, refl, List, [], ◌∷◌,
  ◌++◌, Bytes, codes, ◌==◌, arith,
}
use lockr.Base.Assoc.{lookup, insert, without}
use lockr.Base.Int.{int_incr, format_int, format_int_nat}
use lockr.Base.Decimal.{decimal, value, value-decimal}
use lockr.Keys.{transit_path}
use lockr.Result.{Result, ok, err, library, is_not_found, transit_key_not_found}
use lockr.Platform.{World, now, random}
use lockr.Storage.Db as Db
use lockr.Storage.Db.{is_key_not_found}
use lockr.Storage.Crypto.{encrypt, decrypt, aesgcm_encrypt, aesgcm_decrypt, new_gcm, derive_key}
use lockr.Secrets.Transit.{
  TransitKeyVersion, TransitKeyMeta, TransitStore, load_meta, save_meta, create_key, rotate,
  add_version, transit_encrypt, transit_decrypt, info, key_version, current_key_version,
  find_version, deref, aesgcm_encrypt_bytes, format_vault,
}
use lockr.Secrets.Transit.Format.{TransitLaws}
use lockr.Secrets.Transit.Rotation.{IsKey, Evolves, transit_decrypt-encrypt}
use lockr.Secrets.Transit.Creation.{new_meta, create_key-IsKey}
use lockr.Tests.Toy.{toy, toy_store_laws, toy_cipher_laws, fill}

-- A version is its number, its time, and its key behind its length.
abbrev write_versions : List TransitKeyVersion → Bytes
write_versions [] = []
write_versions (k ∷ ks) = k.version ∷ k.created_at ∷ length k.key ∷ (k.key ++ write_versions ks)

abbrev read_versions : ℕ → Bytes → List TransitKeyVersion
read_versions (suc n) (v ∷ t ∷ l ∷ s) =
    record { version = v; key = take l s; created_at = t } ∷ read_versions n (drop l s)
read_versions n s = []

read-write_versions :
    (ks : List TransitKeyVersion) → read_versions (length ks) (write_versions ks) ≡ ks
read-write_versions [] = refl
read-write_versions (k ∷ ks) =
    rw (take-length-append k.key (write_versions ks))
      (rw (drop-length-append k.key (write_versions ks)) (rw (read-write_versions ks)))

abbrev read_meta : Bytes → Result TransitKeyMeta
read_meta (c ∷ n ∷ l ∷ s) =
    ok (record { name = take l s; current_version = c; versions = read_versions n (drop l s) })
read_meta other = err (library other)

abbrev pub toy_transit : TransitStore
toy_transit = record {
  crypto = record { master_key = codes "master" };
  metas = record {
    marshal = λ m. ok (
        m.current_version
        ∷ length m.versions
        ∷ length m.name
        ∷ (m.name ++ write_versions m.versions));
    unmarshal = read_meta;
  };
  base64_encode = λ b. b;
  base64_decode = λ b. ok b;
  scan_int = λ s. ok (value 0 s);
}

toy_transit_laws : TransitLaws toy toy_transit
toy_transit_laws = record {
  store = toy_store_laws;
  cipher = toy_cipher_laws;
  meta_json = record {
    unmarshal-marshal = λ m d h. ground (
      arith,
      take-length-append m.name (write_versions m.versions),
      drop-length-append m.name (write_versions m.versions),
      read-write_versions m.versions,
    );
  };
  decode-encode = λ b. refl;
  scan-format = λ v h. rw (format_int_nat v h) (rw (value-decimal v));
}

-- All that a run computes through.
running : Unit {0}
unfolding create_key load_meta save_meta rotate add_version transit_encrypt info key_version
    current_key_version find_version deref aesgcm_encrypt_bytes format_vault Db.get Db.set
    is_key_not_found is_not_found lookup insert without ◌==◌ now random encrypt decrypt
    aesgcm_encrypt aesgcm_decrypt derive_key new_gcm int_incr transit_path format_int decimal
running = tt

abbrev name : Bytes
name = codes "orders"

abbrev empty : World toy
empty = record { db = []; tick = 0 }

abbrev created : World toy
created = (create_key toy toy_transit name empty).1

missing : (load_meta toy toy_transit name empty).0 ≡ err (transit_key_not_found name)
unfolding running
missing = refl

was_created : create_key toy toy_transit name empty ≡ (ok tt, created)
unfolding running
was_created = refl

create_key-IsKey_example :
    (key : Bytes) × (time : ℕ) × IsKey toy toy_transit created.db name (new_meta name key time)
create_key-IsKey_example =
    create_key-IsKey toy toy_transit toy_transit_laws name (transit_key_not_found name) empty
      created missing was_created

abbrev meta : TransitKeyMeta
meta = new_meta name (create_key-IsKey_example.0) (create_key-IsKey_example.1)

is_key : IsKey toy toy_transit created.db name meta
is_key = create_key-IsKey_example.2

one : meta.current_version ≡ 1
one = refl

abbrev rotated : World toy
rotated = (rotate toy toy_transit name created).1

was_rotated : rotate toy toy_transit name created ≡ (ok tt, rotated)
unfolding running
was_rotated = refl

abbrev ciphertext : Bytes
ciphertext = codes "vault:v1:" ++ (fill 12 6 ++ codes "text")

abbrev used : World toy
used = (transit_encrypt toy toy_transit name (codes "text") created).1

was_used : transit_encrypt toy toy_transit name (codes "text") created ≡ (ok ciphertext, used)
unfolding running
was_used = refl

abbrev rotated_after : World toy
rotated_after = (rotate toy toy_transit name used).1

was_rotated_after : rotate toy toy_transit name used ≡ (ok tt, rotated_after)
unfolding running
was_rotated_after = refl

transit_decrypt-encrypt_example :
    (transit_decrypt toy toy_transit name ciphertext rotated_after).0 ≡ ok (codes "text")
transit_decrypt-encrypt_example =
    transit_decrypt-encrypt toy toy_transit toy_transit_laws name (codes "text") ciphertext meta 1
      created used rotated_after is_key (omega (arith, one)) was_used
      (Evolves.rotated Evolves.start was_rotated_after)
