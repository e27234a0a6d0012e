-- ===== src/Auth/Totp/Windows.antt =====
-- The codes that `Verify` accepts.
use lockr.Base.{
  ℕ, zero, suc, Bool-cases, eqb, inl, inr, ◌+◌, ◌-◌, ◌/◌, ◌%◌, ◌^◌, ◌<◌, ◌≤◌, ◌≡◌, ◌↔◌, ◌⊎◌, Bytes,
  arith,
}
use lockr.Result.{ok, Result-cases}
use lockr.Platform.{Platform, World, now}
use lockr.Platform.Laws.{second}
use lockr.Storage.Db as Db
use lockr.Storage.Sealed.{at, Stored}
use lockr.Keys.{totp_path}
use lockr.Auth.Totp.{TotpRecord, Totp, truncate, hotp, check_windows, verify}

-- The counter of the window in which a time lies.
abbrev pub window_of : ℕ → ℕ
window_of time = time / second / 30

module _ (a : Totp) where
  three_windows :
      (c code : ℕ) (rec : TotpRecord)
      → (check_windows a 3 c rec code ≡ ok rec) ↔ (
          (hotp a rec.secret c ≡ code)
          ⊎ ((hotp a rec.secret ((c + 1) % 2 ^ 64) ≡ code)
              ⊎ (hotp a rec.secret (((c + 1) % 2 ^ 64 + 1) % 2 ^ 64) ≡ code)))
  unfolding check_windows
  three_windows c code rec = ground arith

-- For a stored service, in a window after the first, Verify accepts a code exactly if it is the code
-- of the window of the clock, of the one before it or of the one after it.
pub verify_windows_iff :
    (p : Platform) (a : Totp) (s : p.Store) (service stored : Bytes) (code t : ℕ) (rec : TotpRecord)
    → Stored p s (totp_path service) stored
    → a.records.unmarshal stored ≡ ok rec
    → 1 ≤ window_of (p.clock (suc t))
    → window_of (p.clock (suc t)) + 1 < 2 ^ 64
    → ((verify p a service code (at p s t)).0 ≡ ok rec) ↔ (
        (hotp a rec.secret (window_of (p.clock (suc t)) - 1) ≡ code)
        ⊎ ((hotp a rec.secret (window_of (p.clock (suc t))) ≡ code)
            ⊎ (hotp a rec.secret (window_of (p.clock (suc t)) + 1) ≡ code)))
unfolding verify now Db.get
verify_windows_iff p a s service stored code t rec here dec lo hi =
    let c = window_of (p.clock (suc t)) in
    let before : (c + (2 ^ 64 - 1)) % 2 ^ 64 ≡ c - 1 = omega arith in
    let middle : (c - 1 + 1) % 2 ^ 64 ≡ c = omega arith in
    let after : (c + 1) % 2 ^ 64 ≡ c + 1 = omega arith in
    let windows = three_windows a (c - 1) code rec in
    rw (here t) (rw dec (rw before (rw (middle, after) at windows)))

module _ (a : Totp) where
  hotp_bound : (secret : Bytes) (counter : ℕ) → hotp a secret counter < 10 ^ 6
  unfolding hotp truncate
  hotp_bound secret counter = omega arith

  check_windows_bound :
      (n counter code : ℕ) (rec rec' : TotpRecord)
      → check_windows a n counter rec code ≡ ok rec'
      → code < 10 ^ 6
  unfolding check_windows
  check_windows_bound zero counter code rec rec' h = ground arith
  check_windows_bound (suc n) counter code rec rec' h =
      elim (Bool-cases (eqb (hotp a rec.secret counter) code)) [
        | inl y ↦ ground (arith, hotp_bound rec.secret counter)
        | inr k ↦ check_windows_bound n ((counter + 1) % 2 ^ 64) code rec rec' (rw k at h)
      ]

-- A code that Verify accepts is below 10 ^ 6, whatever the secret, the service and the time are.
pub verify_bound :
    (p : Platform) (a : Totp) (service : Bytes) (code : ℕ) (w w' : World p) (rec : TotpRecord)
    → verify p a service code w ≡ (ok rec, w')
    → code < 10 ^ 6
unfolding verify now
verify_bound p a service code w w' rec h = elim (Result-cases (Db.get p (totp_path service) w).0) [
  | inr (x, e) ↦ ground arith
  | inl (stored, e) ↦ elim (Result-cases (a.records.unmarshal stored)) [
    | inr (x, d) ↦ ground arith
    | inl (found, d) ↦
        let w1 = (Db.get p (totp_path service) w).1 in
        check_windows_bound a 3 ((p.clock w1.tick / second / 30 + (2 ^ 64 - 1)) % 2 ^ 64) code found
          rec (ground arith)
  ]
]
