-- ===== src/Tests/Toy.antt =====
-- A platform that meets every law: an association list for the database, one second per outside call,
-- and ciphers that keep the text.
use lockr.Base.{
  ℕ, zero, suc, ◌+◌, ◌*◌, ◌/◌, ◌≡◌, refl, List, [], ◌∷◌, ◌++◌, length, take, drop,
  take-length-append, drop-length-append, Option, none, some, Bytes, codes, ltb, if◌then◌else◌,
  arith,
}
use lockr.Base.Assoc.{Assoc, lookup, insert, without, lookup-insert, lookup-without}
use lockr.Result.{key_not_found, library, Result, ok, err}
use lockr.Platform.{Platform, Codec}
use lockr.Platform.Laws.{second, StoreLaws, CipherLaws, CodecLaws}
use lockr.Secrets.Kv.{KvEntry, KvMeta, KvStore}
use lockr.Secrets.Kv.Records.{compacted, KvLaws}

abbrev pub fill : ℕ → ℕ → Bytes
fill zero b = []
fill (suc n) b = b ∷ fill n b

length-fill : (n b : ℕ) → length (fill n b) ≡ n
length-fill zero b = refl
length-fill (suc n) b = omega (arith, length-fill n b)

abbrev sum : Bytes → ℕ
sum [] = 0
sum (a ∷ s) = a + sum s

abbrev pub ToyStore : Type 0
ToyStore = Assoc (Bytes × Option ℕ)

abbrev toy_clock : ℕ → ℕ
toy_clock t = t * second

abbrev live : ℕ → Bytes × Option ℕ → Result Bytes
live t (v, none) = ok v
live t (v, some end) = if ltb (toy_clock t / second) end then ok v else err key_not_found

abbrev toy_get : ℕ → Option (Bytes × Option ℕ) → Result Bytes
toy_get t none = err key_not_found
toy_get t (some x) = live t x

abbrev toy_items : ToyStore → List (Bytes × Bytes)
toy_items [] = []
toy_items ((k, (v, end)) ∷ s) = (k, v) ∷ toy_items s

abbrev pub toy : Platform
toy = record {
  Store = ToyStore;
  view_get = λ t s k. toy_get t (lookup k s);
  update_set = λ t s k v. ok (insert k (v, none) s);
  update_set_ttl = λ t s k v ttl. ok (insert k (v, some ((toy_clock t + ttl) / second)) s);
  update_delete = λ t s k. ok (without k s);
  view_items = λ t s. ok (toy_items s);
  clock = toy_clock;
  rand_read = λ t n. ok (fill n t);
  hkdf = λ master info. ok (fill 32 0);
  gcm_seal = λ key nonce text. text;
  gcm_open = λ key nonce text. ok text;
  argon2_key = λ password salt. fill 32 (sum password);
  sha256 = λ b. b;
}

pub toy_store_laws : StoreLaws toy
toy_store_laws = record {
  get-set = λ t t' s s' k v j h. ground (arith, lookup-insert k j (v, none) s);
  get-set_ttl = λ t t' s s' k v j ttl h.
      ground (arith, lookup-insert k j (v, some ((toy_clock t + ttl) / second)) s);
  get-delete = λ t t' s s' k j h. ground (arith, lookup-without k j s);
}

pub toy_cipher_laws : CipherLaws toy
toy_cipher_laws = record {
  open-seal = λ key nonce text. refl;
  length-hkdf = λ master info key h. ground (arith, length-fill 32 0);
  length-random = λ t n b h. ground (arith, length-fill n t);
  length-argon2 = λ password salt. length-fill 32 (sum password);
}

abbrev write_option : Option ℕ → ℕ
write_option none = 0
write_option (some t) = suc t

abbrev read_option : ℕ → Option ℕ
read_option zero = none
read_option (suc t) = some t

read-write_option : (o : Option ℕ) → read_option (write_option o) ≡ o
read-write_option none = refl
read-write_option (some t) = refl

abbrev read_meta : Bytes → Result KvMeta
read_meta (v ∷ d ∷ path) =
    ok (record { path = path; current_version = v; deleted_at = read_option d })
read_meta other = err (library other)

abbrev meta_codec : Codec KvMeta
meta_codec = record {
  marshal = λ m. ok (m.current_version ∷ write_option m.deleted_at ∷ m.path);
  unmarshal = read_meta;
}

abbrev pub toy_compact : Option Bytes → Option Bytes
toy_compact none = some (codes "null")
toy_compact (some v) = some v

abbrev value_of : Option Bytes → Bytes
value_of none = codes "null"
value_of (some v) = v

abbrev read_entry : Bytes → Result KvEntry
read_entry (v ∷ t ∷ d ∷ n ∷ s) = ok (record {
  path = take n s;
  version = v;
  value = some (drop n s);
  created_at = t;
  deleted_at = read_option d;
})
read_entry other = err (library other)

abbrev entry_codec : Codec KvEntry
entry_codec = record {
  marshal = λ e. ok (
      e.version
      ∷ e.created_at
      ∷ write_option e.deleted_at
      ∷ length e.path
      ∷ (e.path ++ value_of e.value));
  unmarshal = read_entry;
}

abbrev pub toy_kv : KvStore
toy_kv = record {
  crypto = record { master_key = codes "master" };
  metas = meta_codec;
  entries = entry_codec;
}

meta_laws : CodecLaws meta_codec (λ m. m)
meta_laws = record { unmarshal-marshal = λ m d h. ground (arith, read-write_option m.deleted_at) }

some-value_of : (v : Option Bytes) → ◌≡◌ {A = Option Bytes} (some (value_of v)) (toy_compact v)
some-value_of none = refl
some-value_of (some v) = refl

entry_laws : CodecLaws entry_codec (compacted toy_compact)
entry_laws = record {
  unmarshal-marshal = λ e d h. ground (
    arith,
    read-write_option e.deleted_at,
    take-length-append e.path (value_of e.value),
    drop-length-append e.path (value_of e.value),
    some-value_of e.value,
  );
}

pub toy_kv_laws : KvLaws toy toy_kv toy_compact
toy_kv_laws = record {
  store = toy_store_laws;
  cipher = toy_cipher_laws;
  meta_json = meta_laws;
  entry_json = entry_laws;
}
