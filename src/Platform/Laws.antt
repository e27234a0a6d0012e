-- ===== src/Platform/Laws.antt =====
-- What the program relies on from outside, as documented by the libraries.
use lockr.Base.{ℕ, ◌+◌, ◌/◌, ◌^◌, ◌≡◌, length, Bytes, ◌==◌, ltb, if◌then◌else◌}
use lockr.Result.{key_not_found, ok, err}
use lockr.Platform.{Platform, Codec}

-- A second, in nanoseconds.
abbrev pub second : ℕ
second = 10 ^ 9

-- A committed write is seen by every later read of its key and by no other; an entry with a time to
-- live is seen until the second in which it ends.
pub record StoreLaws (p : Platform) : Type 0 where
  pub get-set :
      (t t' : ℕ) (s s' : p.Store) (k v j : Bytes)
      → p.update_set t s k v ≡ ok s'
      → p.view_get t' s' j ≡ (if k == j then ok v else p.view_get t' s j)
  pub get-set_ttl :
      (t t' : ℕ) (s s' : p.Store) (k v j : Bytes) (ttl : ℕ)
      → p.update_set_ttl t s k v ttl ≡ ok s'
      → p.view_get t' s' j ≡ (
          if k == j
          then (if ltb (p.clock t' / second) ((p.clock t + ttl) / second)
              then ok v
              else err key_not_found)
          else p.view_get t' s j)
  pub get-delete :
      (t t' : ℕ) (s s' : p.Store) (k j : Bytes)
      → p.update_delete t s k ≡ ok s'
      → p.view_get t' s' j ≡ (if k == j then err key_not_found else p.view_get t' s j)

-- Opening with the key and nonce of the sealing gives the text back.
pub record CipherLaws (p : Platform) : Type 0 where
  pub open-seal :
      (key nonce text : Bytes) → p.gcm_open key nonce (p.gcm_seal key nonce text) ≡ ok text
  pub length-hkdf : (master info key : Bytes) → p.hkdf master info ≡ ok key → length key ≡ 32
  pub length-random : (t n : ℕ) (b : Bytes) → p.rand_read t n ≡ ok b → length b ≡ n
  pub length-argon2 : (password salt : Bytes) → length (p.argon2_key password salt) ≡ 32

-- A record that is written as JSON is read back as `norm` of it.
pub record CodecLaws {A : Type 0} (c : Codec A) (norm : A → A) : Type 0 where
  pub unmarshal-marshal : (a : A) (d : Bytes) → c.marshal a ≡ ok d → c.unmarshal d ≡ ok (norm a)
