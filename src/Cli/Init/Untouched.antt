-- ===== src/Cli/Init/Untouched.antt =====
-- The files that init leaves as they are once the master key is saved.
use lockr.Base.{◌≡◌, ◌≢◌, ◌∙◌, refl, ℕ, List, Bytes, codes, inl, inr}
use lockr.Result.{Result, ok, err, Exec, Result-cases}
use lockr.Result.Follows.{IsPreorder, Follows, follows_rules}
use lockr.Platform.{Platform, World}
use lockr.Cli.Files.{Os, OsLaws, only_owner}
use lockr.Cli.Certificates.{
  X509, Machine, on_os, on_world, write_pem_with_mode, write_pem, generate_ca, generate_server_pair,
  generate_tls_certs,
}
use lockr.Cli.Init.{
  Setup, tls_dir, config_path, config_if_missing, write_config, bootstrap_in, open_and_bootstrap,
  finish,
}

module _ (p : Platform) {S : Type 0} (os : Os S) (laws : OsLaws os) (file : Bytes) where
  -- The file has the contents that it had.
  abbrev Same : S → S → Type 0
  Same s t = os.contents t file ≡ os.contents s file

  abbrev SameOn : Machine p S → Machine p S → Type 0
  SameOn s t = Same s.os t.os

  SameOn-IsPreorder : IsPreorder SameOn
  SameOn-IsPreorder = record { here = λ s. refl; along = λ s t u a b. b ∙ a }

  Same-IsPreorder : IsPreorder Same
  Same-IsPreorder = record { here = λ s. refl; along = λ s t u a b. b ∙ a }

  Same-on_os : {A : Type 0} (m : Exec S A) → Follows Same m → Follows SameOn (on_os m)
  Same-on_os m h = record { at = λ s. h.at s.os }

  Same-on_world : {A : Type 0} (m : Exec (World p) A) → Follows SameOn (on_world m)
  Same-on_world m = record { at = λ s. refl }

  Same-mkdir_all : (dir : Bytes) (mode : ℕ) → Follows Same (os.mkdir_all dir mode)
  Same-mkdir_all dir mode = record { at = laws.file-mkdir_all dir file mode }

  Same-stat : (path : Bytes) → Follows Same (os.stat path)
  Same-stat path = record { at = laws.file-stat path file }

  write_pem_with_mode-Same :
      (path typ der : Bytes) (mode : ℕ)
      → path ≢ file
      → Follows Same (write_pem_with_mode os path typ der mode)
  unfolding write_pem_with_mode
  write_pem_with_mode-Same path typ der mode n = record {
    at = λ s. elim (Result-cases (os.create path mode s).0) [
      | inl (u, e) ↦
          rw e (laws.other-encode_pem path typ der file _ n ∙ laws.other-create path file mode s n)
      | inr (x, e) ↦ rw e (laws.other-create path file mode s n)
    ];
  }

  write_pem-Same : (path typ der : Bytes) → path ≢ file → Follows Same (write_pem os path typ der)
  unfolding write_pem
  write_pem-Same path typ der n = write_pem_with_mode-Same path typ der only_owner n

  -- The file is none of those that the certificates are written to.
  pub record IsApart : Type 0 where
    pub ca_crt : os.join tls_dir (codes "ca.crt") ≢ file
    pub ca_key : os.join tls_dir (codes "ca.key") ≢ file
    pub server_crt : os.join tls_dir (codes "server.crt") ≢ file
    pub server_key : os.join tls_dir (codes "server.key") ≢ file

  module _ (x509 : X509) (apart : IsApart) where
    generate_ca-Same : Follows SameOn (generate_ca p os x509 tls_dir)
    unfolding generate_ca
    generate_ca-Same =
        search
          (
            follows_rules, SameOn-IsPreorder, Same-on_os, Same-on_world, write_pem_with_mode-Same,
            write_pem-Same, apart.ca_crt, apart.ca_key,
          )
          depth 16

    generate_server_pair-Same :
        (ca : Bytes × Bytes) → Follows SameOn (generate_server_pair p os x509 tls_dir ca)
    unfolding generate_server_pair
    generate_server_pair-Same ca =
        search
          (
            follows_rules, SameOn-IsPreorder, Same-on_os, Same-on_world, write_pem-Same,
            apart.server_crt, apart.server_key,
          )
          depth 16

    generate_tls_certs-Same : Follows SameOn (generate_tls_certs p os x509 tls_dir)
    unfolding generate_tls_certs
    generate_tls_certs-Same =
        search
          (
            follows_rules, SameOn-IsPreorder, Same-on_os, Same-mkdir_all, generate_ca-Same,
            generate_server_pair-Same,
          )
          depth 9

    module _ (setup : Setup p) (not_config : config_path ≢ file) where
      Same-write_file :
          (text : Bytes) (mode : ℕ) → Follows Same (os.write_file config_path text mode)
      Same-write_file text mode = record {
        at = λ s. laws.other-write_file config_path text file mode s not_config;
      }

      config_if_missing-Same :
          (data_dir : Bytes) (found : Result (Unit {0}))
          → Follows SameOn (config_if_missing p os x509 setup data_dir found)
      unfolding config_if_missing
      config_if_missing-Same data_dir found =
          search (follows_rules, SameOn-IsPreorder, Same-on_os, Same-write_file) depth 9

      write_config-Same :
          (data_dir : Bytes) → Follows SameOn (write_config p os x509 setup data_dir)
      unfolding write_config
      write_config-Same data_dir =
          search (follows_rules, SameOn-IsPreorder, Same-on_os, Same-stat, config_if_missing-Same)
            depth 9

      bootstrap_in-Same : (r : Result p.Store) → Follows SameOn (bootstrap_in p os x509 setup r)
      unfolding bootstrap_in
      bootstrap_in-Same (ok db) = record { at = λ s. refl }
      bootstrap_in-Same (err e) = record { at = λ s. refl }

      open_and_bootstrap-Same :
          (dir : Bytes) → Follows SameOn (open_and_bootstrap p os x509 setup dir)
      unfolding open_and_bootstrap
      open_and_bootstrap-Same dir = record {
        at = λ s. (bootstrap_in-Same (setup.open_db dir s.world.db)).at s;
      }

      pub finish-Same :
          (data_dir : Bytes) (warnings : List Bytes)
          → Follows SameOn (finish p os x509 setup data_dir warnings)
      unfolding finish
      finish-Same data_dir warnings =
          search
            (
              follows_rules, SameOn-IsPreorder, generate_tls_certs-Same, write_config-Same,
              open_and_bootstrap-Same,
            )
            depth 9
