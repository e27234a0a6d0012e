-- ===== src/Auth/Totp/Spares.antt =====
-- The one-time passwords leave the records outside auth/services/totp/ alone.
use lockr.Base.{◌≡◌, false, ℕ, Bytes, has_prefix}
use lockr.Keys.{totp_path}
use lockr.Platform.{Platform}
use lockr.Platform.Laws.{StoreLaws}
use lockr.Storage.Frame.{Spares, frame_rules}
use lockr.Auth.Totp.{TotpRecord, Totp, generate_secret, register_totp, verify}

module _ (p : Platform) (a : Totp) (area : Bytes) where
  pub generate_secret-Spares : Spares p area (generate_secret p a)
  unfolding generate_secret
  generate_secret-Spares = search frame_rules depth 9

  pub verify-Spares : (service : Bytes) (code : ℕ) → Spares p area (verify p a service code)
  unfolding verify
  verify-Spares service code = search frame_rules depth 9

  module _ (store : StoreLaws p)
      (out : (name : Bytes) → has_prefix (totp_path name) area ≡ false) where
    pub register_totp-Spares : (rec : TotpRecord) → Spares p area (register_totp p a rec)
    unfolding register_totp
    register_totp-Spares rec = search (frame_rules, out, store) depth 9
