-- ===== src/Config/Valid.antt =====
-- Which configurations `Load` accepts.
use lockr.Base.{
  [], ◌≡◌, ◌≢◌, ◌↔◌, Bytes, ◌==◌, ==_sound, refl, ap, ◌∙◌, false, Bool-cases, inl, inr, arith,
}
use mathlib.Core.Path.{subst}
use lockr.Result.{ok, Result-cases}
use lockr.Config.{Config, defaults, validate, ConfigFiles, load}

-- The three fields that a configuration must have.
pub record IsValid (c : Config) : Type 0 where
  pub addr : c.server.addr ≢ []
  pub data_dir : c.storage.data_dir ≢ []
  pub master_key_path : c.storage.master_key_path ≢ []

not_empty : (b : Bytes) → b ≢ [] → (b == []) ≡ false
not_empty b n = elim (Bool-cases (b == [])) [ inl e ↦ absurd (n (==_sound b [] e)) | inr f ↦ f ]

validate-IsValid : (c : Config) → (validate c ≡ ok tt) ↔ IsValid c
unfolding validate ◌==◌
validate-IsValid c = (
  λ h. record {
    addr = λ e. ground arith;
    data_dir = λ e. ground arith;
    master_key_path = λ e. ground arith;
  },
  λ v.
      let a = not_empty c.server.addr v.addr in
      let b = not_empty c.storage.data_dir v.data_dir in
      let d = not_empty c.storage.master_key_path v.master_key_path in rw a (rw b (rw d refl)),
)

-- Load answers with a configuration exactly if the file can be read, its text gives that
-- configuration when it is decoded onto the defaults, and the address of the server, the directory
-- of the data and the path of the master key are not empty.
pub load-IsValid :
    (fs : ConfigFiles) (path : Bytes) (cfg : Config)
    → (load fs path ≡ ok cfg) ↔ (
        (text : Bytes) × (fs.read_file path ≡ ok text)
        × (fs.unmarshal text defaults ≡ ok cfg)
        × IsValid cfg)
unfolding load
load-IsValid fs path cfg = (there, back)
  where
    there :
        load fs path ≡ ok cfg
        → (text : Bytes) × (fs.read_file path ≡ ok text)
          × (fs.unmarshal text defaults ≡ ok cfg)
          × IsValid cfg
    there h = elim (Result-cases (fs.read_file path)) [
      | inr (x, e) ↦ ground arith
      | inl (text, e) ↦ elim (Result-cases (fs.unmarshal text defaults)) [
        | inr (x, d) ↦ ground arith
        | inl (c, d) ↦ elim (Result-cases (validate c)) [
          | inr (x, v) ↦ ground arith
          | inl (u, v) ↦
              let same : c ≡ cfg = ground arith in
              (text, e, d ∙ ap ok same, subst IsValid same ((validate-IsValid c).0 v))
        ]
      ]
    ]

    back :
        (text : Bytes) × (fs.read_file path ≡ ok text)
          × (fs.unmarshal text defaults ≡ ok cfg)
          × IsValid cfg
        → load fs path ≡ ok cfg
    back (text, e, d, v) = let h = (validate-IsValid cfg).1 v in ground arith
