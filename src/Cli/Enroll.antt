-- ===== src/Cli/Enroll.antt =====
-- cmd/lockr/main.go: the command enroll with the file of the private key, and the commands that may ask
-- for a password.
use lockr.Base.{◌∷◌, [], ◌++◌, Option, none, some, Bytes, codes, not, ◌&&◌, ◌==◌, if◌then◌else◌}
use lockr.Result.{
  Result, ok, err, Exec, decode_private_key, unexpected_format, map_err, lift, ◌>>=◌, ◌>>◌,
}
use lockr.Client.Net.{Wire, Fields, strings, at_key, as_string, as_object}
use lockr.Cli.{Flags, Output, saved, print_response, new_admin_client, post}
use lockr.Cli.Commands.{user_create_cmd, user_reset_password_cmd, login_cmd}
use lockr.Cli.Files.{Os, only_owner_dir, only_owner, password_of}

-- s, _ := v.(string)
unfoldable pub text_or_empty : Option Bytes → Bytes
text_or_empty none = []
text_or_empty (some text) = text

unfoldable pub data_object : Option Fields → Result Fields
data_object none = err unexpected_format
data_object (some fields) = ok fields

module _ {S : Type 0} (os : Os S) (wire : Wire S) (flags : Flags) where
  print_saved : Bytes → Fields → Result Output
  print_saved path resp = elim (print_response flags resp) [
    | ok out ↦ ok (saved path out)
    | err e ↦ err e
  ]

  unfoldable pub save_enrollment_keys : Bytes → Bytes → Fields → Exec S Output
  unfolding print_saved
  save_enrollment_keys dir service resp = do
    os.mkdir_all dir only_owner_dir
    fields ← lift (data_object (as_object (at_key (codes "data") resp)))
    key ← lift (
        map_err decode_private_key
          (wire.hex_decode (text_or_empty (as_string (at_key (codes "private_key") fields)))))
    os.write_file (os.join dir (service ++ codes ".key")) (wire.hex_encode key) only_owner
    lift (print_saved (os.join dir (service ++ codes ".key")) resp)

  module _ (decode_map : Bytes → Result Fields) where
    enrolled : Bytes → Bytes → Bytes → Fields → Exec S Output
    enrolled service auth_method output_dir resp =
        let saving = save_enrollment_keys output_dir service resp in
        if not (output_dir == []) && not (auth_method == codes "totp")
        then saving
        else lift (print_response flags resp)

    unfoldable pub enroll_cmd : Bytes → Bytes → Bytes → Bytes → Exec S Output
    unfolding enrolled
    enroll_cmd service auth_method policy output_dir = do
      c ← lift (new_admin_client wire flags)
      resp ← post wire decode_map c (codes "/v1/sys/enroll") (
          strings (
            (codes "service", service)
            ∷ (codes "auth_method", auth_method)
            ∷ (codes "policy", policy)
            ∷ []))
      enrolled service auth_method output_dir resp

    -- The commands with a password of a flag or of the prompt, which is asked for first.
    unfoldable pub user_create_asked : Bytes → Bytes → Bytes → Exec S Output
    user_create_asked username policy flag = do
      password ← password_of os flag
      user_create_cmd wire decode_map flags username policy password

    unfoldable pub user_reset_password_asked : Bytes → Bytes → Exec S Output
    user_reset_password_asked username flag = do
      password ← password_of os flag
      user_reset_password_cmd wire decode_map flags username password

    unfoldable pub login_asked : Bytes → Bytes → Exec S Output
    login_asked username flag = do
      password ← password_of os flag
      login_cmd wire decode_map flags username password
