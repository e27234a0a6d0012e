-- ===== src/Auth/Admin/Spares.antt =====
-- The administrators leave the records outside auth/admins/ alone.
use lockr.Base.{◌≡◌, false, List, [], ◌∷◌, Bytes, if◌then◌else◌, has_prefix}
use lockr.Keys.{admin_path}
use lockr.Platform.{Platform}
use lockr.Platform.Laws.{StoreLaws}
use lockr.Result.{try, lift}
use lockr.Result.Follows.{Follows-lift, Follows-if, Follows-bind}
use lockr.Storage.Frame.{Spares, Frame-IsPreorder, frame_rules}
use lockr.Auth.Admin.{
  AdminAuth, create, has_admins, accepts, verify, verify_keys, read_record, delete,
}

module _ (p : Platform) (a : AdminAuth) (area : Bytes) where
  pub has_admins-Spares : Spares p area (has_admins p a)
  unfolding has_admins
  has_admins-Spares = search frame_rules

  read_record-Spares : (key : Bytes) → Spares p area (read_record p a key)
  unfolding read_record
  read_record-Spares key = search frame_rules depth 9

  verify_keys-Spares :
      (token : Bytes) (keys : List Bytes) → Spares p area (verify_keys p a token keys)
  unfolding verify_keys
  verify_keys-Spares token [] = search frame_rules
  verify_keys-Spares token (key ∷ keys) =
      Follows-bind (Frame-IsPreorder p area) (try (read_record p a key))
        (λ found. if accepts p a token found then lift found else verify_keys p a token keys)
        (search (frame_rules, read_record-Spares))
        (λ found.
          Follows-if (Frame-IsPreorder p area) (accepts p a token found) (lift found)
            (verify_keys p a token keys) (Follows-lift (Frame-IsPreorder p area) found)
            (verify_keys-Spares token keys))

  pub verify-Spares : (token : Bytes) → Spares p area (verify p a token)
  unfolding verify
  verify-Spares token = search (frame_rules, verify_keys-Spares) depth 9

  module _ (store : StoreLaws p)
      (out : (name : Bytes) → has_prefix (admin_path name) area ≡ false) where
    pub create-Spares : (name policy : Bytes) → Spares p area (create p a name policy)
    unfolding create
    create-Spares name policy = search (frame_rules, out, store) depth 9

    pub delete-Spares : (name : Bytes) → Spares p area (delete p a name)
    unfolding delete
    delete-Spares name = search (frame_rules, out, store) depth 9
