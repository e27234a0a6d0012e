-- ===== src/Cli/Files.antt =====
-- cmd/lockr/main.go: what the commands take from the operating system, and the passwords that they ask for.
use lockr.Base.{ℕ, ◌≡◌, ◌≢◌, [], Bytes, ◌==◌, if◌then◌else◌}
use lockr.Result.{Result, ok, err, Exec, empty_passphrase, pure, lift, ◌>>=◌}

-- os.MkdirAll, os.WriteFile, os.Stat, an os.OpenFile that truncates and pem.Encode into the file,
-- filepath.Join, and the text that fmt.Scanln reads into a string ("" when it fails). Permissions are
-- numbers; `S` is all that a call may change.
pub record Os (S : Type 0) : Type 0 where
  pub contents : S → Bytes → Result Bytes
  pub mkdir_all : Bytes → ℕ → Exec S (Unit {0})
  pub write_file : Bytes → Bytes → ℕ → Exec S (Unit {0})
  pub stat : Bytes → Exec S (Unit {0})
  pub create : Bytes → ℕ → Exec S (Unit {0})
  pub encode_pem : Bytes → Bytes → Bytes → Exec S (Unit {0})
  pub join : Bytes → Bytes → Bytes
  pub scan_line : S → Bytes × S

-- The permissions 0700, 0600 and 0644.
abbrev pub only_owner_dir : ℕ
only_owner_dir = 448

abbrev pub only_owner : ℕ
only_owner = 384

abbrev pub readable : ℕ
readable = 420

-- A file that was written has the data that was written, and a call changes no file but the one that it
-- names.
pub record OsLaws {S : Type 0} (os : Os S) : Type 0 where
  pub contents-write_file :
      (path data' : Bytes) (mode : ℕ) (s s' : S)
      → os.write_file path data' mode s ≡ (ok tt, s')
      → os.contents s' path ≡ ok data'
  pub other-write_file :
      (path data' other : Bytes) (mode : ℕ) (s : S)
      → path ≢ other
      → os.contents (os.write_file path data' mode s).1 other ≡ os.contents s other
  pub other-create :
      (path other : Bytes) (mode : ℕ) (s : S)
      → path ≢ other
      → os.contents (os.create path mode s).1 other ≡ os.contents s other
  pub other-encode_pem :
      (path typ der other : Bytes) (s : S)
      → path ≢ other
      → os.contents (os.encode_pem path typ der s).1 other ≡ os.contents s other
  pub file-mkdir_all :
      (dir file : Bytes) (mode : ℕ) (s : S)
      → os.contents (os.mkdir_all dir mode s).1 file ≡ os.contents s file
  pub file-stat :
      (path file : Bytes) (s : S) → os.contents (os.stat path s).1 file ≡ os.contents s file
  pub file-scan_line :
      (file : Bytes) (s : S) → os.contents (os.scan_line s).1 file ≡ os.contents s file

module _ {S : Type 0} (os : Os S) where
  unfoldable pub not_empty : Bytes → Result Bytes
  not_empty text = if text == [] then err empty_passphrase else ok text

  unfoldable pub scanned : Exec S Bytes
  scanned s = let (text, s') = os.scan_line s in (ok text, s')

  unfoldable pub read_passphrase : Exec S Bytes
  unfolding scanned
  read_passphrase = do text ← scanned; lift (not_empty text)

  -- The password of the flag, or of the prompt if the flag is empty.
  unfoldable pub password_of : Bytes → Exec S Bytes
  password_of flag = if flag == [] then read_passphrase else pure flag
