-- ===== src/Cli/Init/Opened.antt =====
-- What init leaves in the file of the master key and in the configuration.
use lockr.Base.{◌≡◌, ◌≢◌, ℕ, List, [], Bytes, codes, ◌==◌, inl, inr, arith}
use lockr.Result.{Error, ok, Result-cases, then_inv, wrap_inv, wrap}
use lockr.Platform.{Platform, World, random}
use lockr.Platform.Laws.{CipherLaws, CodecLaws}
use lockr.Storage.Crypto.{master_key_len, generate_master_key, save_master_key, load_master_key}
use lockr.Storage.Crypto.RoundTrip.{load-save_master_key}
use lockr.Cli.Files.{Os, OsLaws, only_owner, read_passphrase, not_empty, scanned}
use lockr.Cli.Certificates.{X509, Machine, on_os, on_world, generate_tls_certs}
use lockr.Cli.Init.{
  Report, Setup, tls_dir, config_path, make_dirs, save_key, save_new_key, write_config, finish,
  run_init,
}
use lockr.Cli.Init.Untouched.{IsApart, finish-Same}

module _ (p : Platform) {S : Type 0} (os : Os S) (laws : OsLaws os) (x509 : X509) (setup : Setup p)
    (cipher : CipherLaws p) (faithful : CodecLaws setup.key_file (λ f. f)) where
  -- What the file holds after the saving of the key opens with the passphrase.
  save_key-opened :
      (path key passphrase : Bytes) (s s' : Machine p S)
      → save_key p os x509 setup path key passphrase s ≡ (ok tt, s')
      → (stored : Bytes) × (os.contents s'.os path ≡ ok stored)
        × (load_master_key p setup.key_file stored passphrase ≡ ok key)
  unfolding save_key
  save_key-opened path key passphrase s s' h =
      let run = save_master_key p setup.key_file key passphrase s.world in
      elim (Result-cases run.0) [
        | inr (x, e) ↦ ground arith
        | inl (stored, e) ↦ (
          stored,
          laws.contents-write_file path stored only_owner s.os s'.os (ground arith),
          load-save_master_key p cipher setup.key_file faithful key passphrase stored s.world run.1
              (ground arith),
        )
      ]

  read_passphrase-not_empty :
      (s t : S) (text : Bytes)
      → read_passphrase os s ≡ (ok text, t)
      → ((os.scan_line s).0 ≡ text) × (text ≢ [])
  unfolding read_passphrase not_empty scanned ◌==◌
  read_passphrase-not_empty s t text h = (ground arith, λ e. ground arith)

  generate_master_key-drawn :
      (w v : World p) (key : Bytes)
      → generate_master_key p w ≡ (ok key, v)
      → p.rand_read w.tick master_key_len ≡ ok key
  unfolding generate_master_key random
  generate_master_key-drawn w v key h = ground arith

  finish-key_path :
      (data_dir : Bytes) (warnings : List Bytes) (s s' : Machine p S) (report : Report)
      → finish p os x509 setup data_dir warnings s ≡ (ok report, s')
      → report.key_path ≡ os.join data_dir (codes "master.key.enc")
  unfolding finish
  finish-key_path data_dir warnings s s' report h =
      let s1 = (generate_tls_certs p os x509 tls_dir s).1 in
      elim (Result-cases (write_config p os x509 setup data_dir s1).0) [
        | inl (config, e) ↦ ground arith
        | inr (x, e) ↦ ground arith
      ]

  save_new_key-opened :
      (path : Bytes) (s s' : Machine p S)
      → save_new_key p os x509 setup path s ≡ (ok tt, s')
      → (key passphrase stored : Bytes) × ((u : S) × ((os.scan_line u).0 ≡ passphrase)
          × (passphrase ≢ []))
        × ((t : ℕ) × (p.rand_read t master_key_len ≡ ok key))
        × (os.contents s'.os path ≡ ok stored)
        × (load_master_key p setup.key_file stored passphrase ≡ ok key)
  unfolding save_new_key
  save_new_key-opened path s s' h =
      let (key, s1, made, h1) =
        then_inv (wrap Error.generate_master_key (on_world (generate_master_key p))) _ s h in
      let (passphrase, s2, asked, h2) = then_inv (on_os (read_passphrase os)) _ s1 h1 in
      let (stored, held, opens) =
        save_key-opened path key passphrase s2 s'
          (wrap_inv Error.save_master_key (save_key p os x509 setup path key passphrase) s2 h2) in
      let typed = read_passphrase-not_empty s1.os s2.os passphrase (ground arith) in
      (
        key,
        passphrase,
        stored,
        (s1.os, typed.0, typed.1),
        (s.world.tick, generate_master_key-drawn s.world s1.world key (ground arith)),
        held,
        opens,
      )

  -- When init succeeds, the file of the master key, if it is none of the files of the certificates
  -- and not the configuration, is the one that the report names and opens with the passphrase that
  -- was typed, which is not empty, to a key that was drawn from the random source, whatever happens
  -- to the certificates, the configuration and the admin token.
  pub run_init-load_master_key :
      (data_dir : Bytes) (s s' : Machine p S) (report : Report)
      → IsApart p os laws (os.join data_dir (codes "master.key.enc"))
      → config_path ≢ os.join data_dir (codes "master.key.enc")
      → run_init p os x509 setup data_dir s ≡ (ok report, s')
      → (key passphrase stored : Bytes) × (report.key_path
          ≡ os.join data_dir (codes "master.key.enc"))
        × ((u : S) × ((os.scan_line u).0 ≡ passphrase) × (passphrase ≢ []))
        × ((t : ℕ) × (p.rand_read t master_key_len ≡ ok key))
        × (os.contents s'.os report.key_path ≡ ok stored)
        × (load_master_key p setup.key_file stored passphrase ≡ ok key)
  unfolding run_init
  run_init-load_master_key data_dir s s' report apart not_config h =
      let path = os.join data_dir (codes "master.key.enc") in
      let (warnings, s1, made, h1) = then_inv (make_dirs p os x509 setup data_dir) _ s h in
      let (u, s2, saved, h2) = then_inv (save_new_key p os x509 setup path) _ s1 h1 in
      let same = (finish-Same p os laws path x509 apart setup not_config data_dir warnings).at s2 in
      let (key, passphrase, stored, asked, drawn, held, opens) =
        save_new_key-opened path s1 s2 saved in
      let named = finish-key_path data_dir warnings s2 s' report h2 in
      (key, passphrase, stored, named, asked, drawn, ground (arith, named, held), opens)
