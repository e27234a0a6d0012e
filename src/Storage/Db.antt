-- ===== src/Storage/Db.antt =====
-- internal/storage/badger.go: single keys.
use lockr.Base.{ℕ, Bool, true, false, Bytes, if◌then◌else◌}
use lockr.Result.{Error, not_found, key_not_found, Result, ok, err, Exec}
use lockr.Platform.{Platform, World, ask, update}

unfoldable pub is_key_not_found : Error → Bool
is_key_not_found key_not_found = true
is_key_not_found e = false

-- errors.Is(err, badger.ErrKeyNotFound) becomes ErrNotFound
abbrev pub translate : Result Bytes → Result Bytes
translate (ok v) = ok v
translate (err e) = err (if is_key_not_found e then not_found else e)

module _ (p : Platform) where
  unfoldable pub get : Bytes → Exec (World p) Bytes
  get key = ask p (λ t s. translate (p.view_get t s key))

  unfoldable pub set : Bytes → Bytes → Exec (World p) (Unit {0})
  set key value = update p (λ t s. p.update_set t s key value)

  unfoldable pub set_with_ttl : Bytes → Bytes → ℕ → Exec (World p) (Unit {0})
  set_with_ttl key value ttl = update p (λ t s. p.update_set_ttl t s key value ttl)

  unfoldable pub delete : Bytes → Exec (World p) (Unit {0})
  delete key = update p (λ t s. p.update_delete t s key)
