-- ===== src/Auth/Totp.antt =====
-- internal/auth/totp.go: one-time passwords after RFC 4226, with one window of tolerance.
pub mod Windows
pub mod Spares
use lockr.Base.{
  ℕ, zero, suc, ◌+◌, ◌*◌, ◌/◌, ◌%◌, ◌-◌, ◌^◌, ◌≡◌, ◌↔◌, ◌⊎◌, Bool, true, false, Bool-cases, List,
  [], ◌∷◌, ◌++◌, Bytes, eqb, eqb_iff, inl, inr, if◌then◌else◌, length, drop, arith,
}
use Prim.Native.Nat.{bit_or, bit_and}
use lockr.Keys.{totp_path}
use lockr.Result.{
  Error, is_not_found, service_not_found, totp_service_not_found, generate_totp_secret,
  invalid_totp_code, wrap, Result, ok, err, Exec, pure, fail, lift, ◌>>=◌,
}
use lockr.Platform.{Platform, World, now, random, Codec}
use lockr.Platform.Laws.{second}
use lockr.Storage.Db as Db

pub record TotpRecord : Type 0 where
  pub name : Bytes
  pub secret : Bytes
  pub policy : Bytes

-- encoding/json for the record, HMAC-SHA1 (key, message; 20 bytes), and base32.StdEncoding.
pub record Totp : Type 0 where
  pub records : Codec TotpRecord
  pub hmac_sha1 : Bytes → Bytes → Bytes
  pub base32 : Bytes → Bytes

-- The byte at an index; an index out of range does not occur in a hash of 20 bytes.
abbrev head : Bytes → ℕ
head [] = 0
head (b ∷ s) = b

abbrev byte_at : Bytes → ℕ → ℕ
byte_at h n = head (drop n h)

-- binary.BigEndian.PutUint64: the low `n` bytes of a counter
unfoldable pub big_endian : ℕ → ℕ → Bytes
big_endian zero c = []
big_endian (suc n) c = (c / 2 ^ (8 * n)) % 2 ^ 8 ∷ big_endian n c

-- The dynamic truncation of RFC 4226.
unfoldable pub truncate : Bytes → ℕ
truncate h =
    let offset = bit_and (byte_at h (length h - 1)) 15 in
    bit_or
      (bit_or (bit_or (bit_and (byte_at h offset) 127 * 2 ^ 24) (byte_at h (offset + 1) * 2 ^ 16))
        (byte_at h (offset + 2) * 2 ^ 8))
      (byte_at h (offset + 3))
    % 10 ^ 6

unfoldable pub hotp : Totp → Bytes → ℕ → ℕ
hotp a secret counter = truncate (a.hmac_sha1 secret (big_endian 8 counter))

-- The loop over delta from -1, `n` rounds: the counter of each round is uint64(now / 30 + delta).
unfoldable pub check_windows : Totp → ℕ → ℕ → TotpRecord → ℕ → Result TotpRecord
check_windows a zero counter rec code = err invalid_totp_code
check_windows a (suc n) counter rec code =
    let next = check_windows a n ((counter + 1) % 2 ^ 64) rec code in
    if eqb (hotp a rec.secret counter) code then ok rec else next

unfoldable pub totp_missing : (Bytes → Error) → Bytes → Error → Error
totp_missing missing name e = if is_not_found e then missing name else e

module _ (p : Platform) (a : Totp) where
  open a use {records, base32}

  -- The raw secret and its text.
  unfoldable pub generate_secret : Exec (World p) (Bytes × Bytes)
  generate_secret = do raw ← wrap generate_totp_secret (random p 20); pure (raw, base32 raw)

  unfoldable pub register_totp : TotpRecord → Exec (World p) (Unit {0})
  register_totp rec = do encoded ← lift (records.marshal rec); Db.set p (totp_path rec.name) encoded

  -- time.Now().Unix() is not negative; the first counter is one window back, and wraps below zero.
  unfoldable pub verify : Bytes → ℕ → Exec (World p) TotpRecord
  verify service code = do
    stored ← wrap (totp_missing service_not_found service) (Db.get p (totp_path service))
    rec ← lift (records.unmarshal stored)
    time ← now p
    lift (check_windows a 3 ((time / second / 30 + (2 ^ 64 - 1)) % 2 ^ 64) rec code)

  unfoldable pub get_totp : Bytes → Exec (World p) TotpRecord
  get_totp name = do
    stored ← wrap (totp_missing totp_service_not_found name) (Db.get p (totp_path name))
    lift (records.unmarshal stored)
