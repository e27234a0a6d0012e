-- ===== src/Policy/Builtin.antt =====
-- What the three built-in policies allow, where no loaded policy hides them.
use lockr.Base.{
  true, false, ◌||◌, ◌&&◌, none, some, ◌≡◌, refl, Bytes, codes, ◌==◌, if◌then◌else◌, has_prefix,
  has_suffix, trim_suffix, arith,
}
use lockr.Base.Assoc.{lookup, lookup-insert}
use lockr.Keys.{kv_path, transit_path}
use lockr.Policy.{
  Capability, Policy, cap_read, cap_list, cap_encrypt, cap_decrypt, Engine, builtins, admin_policy,
  readonly_policy, match_path, has_capability, check_rules, find_policy, check_policy, allowed,
  set_policy,
}

find_policy-builtin :
    (e : Engine) (name : Bytes)
    → lookup name e.policies ≡ none
    → find_policy e name ≡ lookup name builtins
unfolding find_policy
find_policy-builtin e name h = rw (h, find_policy)

module _ (path : Bytes) where
  match-kv_on_transit : match_path (codes "secrets/kv/*") (transit_path path) ≡ false
  unfolding match_path transit_path has_suffix trim_suffix has_prefix ◌==◌
  match-kv_on_transit = refl

  match-transit_on_transit : match_path (codes "secrets/transit/*") (transit_path path) ≡ true
  unfolding match_path transit_path has_suffix trim_suffix has_prefix ◌==◌
  match-transit_on_transit = refl

  match-kv_on_kv : match_path (codes "secrets/kv/*") (kv_path path) ≡ true
  unfolding match_path kv_path has_suffix trim_suffix has_prefix ◌==◌
  match-kv_on_kv = refl

builtin_admin : lookup (codes "admin") builtins ≡ some admin_policy
unfolding lookup builtins ◌==◌
builtin_admin = refl

builtin_readonly : lookup (codes "readonly") builtins ≡ some readonly_policy
unfolding lookup builtins ◌==◌
builtin_readonly = refl

-- The built-in "admin" policy, if no loaded policy hides it, allows exactly encrypt and decrypt on a
-- transit key: not the write and read that rotation, creation and inspection of the key ask for.
pub allowed-admin_transit :
    (e : Engine) (key : Bytes) (cap : Capability)
    → lookup (codes "admin") e.policies ≡ none
    → allowed e (codes "admin") (transit_path key) cap ≡ (cap_encrypt == cap || cap_decrypt == cap)
unfolding allowed check_policy check_rules has_capability ◌==◌
allowed-admin_transit e key cap h = rw (find_policy-builtin e (codes "admin") h) (
    rw builtin_admin
      (rw (match-kv_on_transit key) (rw (match-transit_on_transit key) (ground arith))))

-- The built-in "readonly" policy, if no loaded policy hides it, allows exactly read and list, on
-- exactly the paths of KV secrets.
pub allowed-readonly :
    (e : Engine) (path : Bytes) (cap : Capability)
    → lookup (codes "readonly") e.policies ≡ none
    → allowed e (codes "readonly") path cap
      ≡ (match_path (codes "secrets/kv/*") path && (cap_read == cap || cap_list == cap))
unfolding allowed check_policy check_rules has_capability ◌==◌
allowed-readonly e path cap h =
    rw (find_policy-builtin e (codes "readonly") h) (rw builtin_readonly (ground arith))

-- Registering a policy replaces the one of that name and leaves every other name as it was.
pub find_policy-set_policy :
    (p : Policy) (e : Engine) (name : Bytes)
    → find_policy (set_policy p e) name ≡ (if p.name == name then some p else find_policy e name)
unfolding find_policy set_policy
find_policy-set_policy p e name =
    rw (lookup-insert p.name name p e.policies, find_policy) (ground arith)
