-- ===== src/Auth/User/Spares.antt =====
-- The users leave the records outside auth/users/ alone.
use lockr.Base.{◌≡◌, false, List, [], ◌∷◌, Bytes, has_prefix}
use lockr.Keys.{user_path}
use lockr.Platform.{Platform}
use lockr.Platform.Laws.{StoreLaws}
use lockr.Result.{try, pure, ◌>>=◌}
use lockr.Result.Follows.{Follows-bind}
use lockr.Storage.Frame.{Spares, Frame-IsPreorder, frame_rules}
use lockr.Auth.User.{
  UserRecord, UserAuth, save_user, create, get, verify, read_user, list_user, list_users, list,
  delete, change_policy, change_password,
}

module _ (p : Platform) (a : UserAuth) (area : Bytes) where
  get-Spares : (username : Bytes) → Spares p area (get p a username)
  unfolding get
  get-Spares username = search frame_rules depth 9

  pub verify-Spares : (username password : Bytes) → Spares p area (verify p a username password)
  unfolding verify
  verify-Spares username password = search (frame_rules, get-Spares) depth 9

  read_user-Spares : (key : Bytes) → Spares p area (read_user p a key)
  unfolding read_user
  read_user-Spares key = search frame_rules depth 9

  list_users-Spares : (keys : List Bytes) → Spares p area (list_users p a keys)
  unfolding list_users
  list_users-Spares [] = search frame_rules
  list_users-Spares (key ∷ keys) =
      Follows-bind (Frame-IsPreorder p area) (try (read_user p a key))
        (λ found. do rest ← list_users p a keys; pure (list_user found rest))
        (search (frame_rules, read_user-Spares))
        (λ found. search (frame_rules, list_users-Spares keys))

  pub list-Spares : Spares p area (list p a)
  unfolding list
  list-Spares = search (frame_rules, list_users-Spares) depth 9

  module _ (store : StoreLaws p)
      (out : (name : Bytes) → has_prefix (user_path name) area ≡ false) where
    save_user-Spares :
        (username : Bytes) (rec : UserRecord) → Spares p area (save_user p a username rec)
    unfolding save_user
    save_user-Spares username rec = search (frame_rules, out, store) depth 9

    pub create-Spares :
        (username password policy : Bytes) → Spares p area (create p a username password policy)
    unfolding create
    create-Spares username password policy = search (frame_rules, save_user-Spares) depth 12

    pub delete-Spares : (username : Bytes) → Spares p area (delete p a username)
    unfolding delete
    delete-Spares username = search (frame_rules, out, store) depth 9

    pub change_policy-Spares :
        (username policy : Bytes) → Spares p area (change_policy p a username policy)
    unfolding change_policy
    change_policy-Spares username policy =
        search (frame_rules, get-Spares, save_user-Spares) depth 9

    pub change_password-Spares :
        (username new_password : Bytes) → Spares p area (change_password p a username new_password)
    unfolding change_password
    change_password-Spares username new_password =
        search (frame_rules, get-Spares, save_user-Spares) depth 9
