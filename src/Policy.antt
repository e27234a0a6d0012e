-- ===== src/Policy.antt =====
-- internal/policy/policy.go: rules, path patterns, and the engine that answers whether a named policy
-- allows a capability on a path.
pub mod Match
pub mod Decision
pub mod Builtin
pub mod Loading
pub mod Reload
use lockr.Base.{
  Bool, true, false, not, ◌||◌, List, [], ◌∷◌, ◌++◌, Option, none, some, Bytes, codes, ◌==◌,
  has_prefix, has_suffix, trim_suffix, if◌then◌else◌,
}
use lockr.Base.Assoc.{Assoc, lookup, insert}
use lockr.Result.{
  Error, not_exist, read_policy_dir, load_policy, missing_name, Result, ok, err, Exec,
}

abbrev pub Capability : Type 0
Capability = Bytes

abbrev pub cap_read : Capability
cap_read = codes "read"

abbrev pub cap_write : Capability
cap_write = codes "write"

abbrev pub cap_delete : Capability
cap_delete = codes "delete"

abbrev pub cap_list : Capability
cap_list = codes "list"

abbrev pub cap_encrypt : Capability
cap_encrypt = codes "encrypt"

abbrev pub cap_decrypt : Capability
cap_decrypt = codes "decrypt"

pub record Rule : Type 0 where
  pub path : Bytes
  pub capabilities : List Capability
  pub deny : Bool

pub record Policy : Type 0 where
  pub name : Bytes
  pub description : Bytes
  pub rules : List Rule

abbrev pub readonly_policy : Policy
readonly_policy = record {
  name = codes "readonly";
  description = codes "Read and list all KV secrets";
  rules =
      record { path = codes "secrets/kv/*"; capabilities = cap_read ∷ cap_list ∷ []; deny = false }
      ∷ [];
}

abbrev full_kv : Rule
full_kv = record {
  path = codes "secrets/kv/*";
  capabilities = cap_read ∷ cap_write ∷ cap_delete ∷ cap_list ∷ [];
  deny = false;
}

abbrev use_transit : Rule
use_transit = record {
  path = codes "secrets/transit/*";
  capabilities = cap_encrypt ∷ cap_decrypt ∷ [];
  deny = false;
}

abbrev pub readwrite_policy : Policy
readwrite_policy = record {
  name = codes "readwrite";
  description = codes "Full access to KV secrets and transit encrypt/decrypt";
  rules = full_kv ∷ use_transit ∷ [];
}

abbrev pub admin_policy : Policy
admin_policy = record {
  name = codes "admin";
  description = codes "Full access to all secret engines";
  rules = full_kv ∷ use_transit ∷ [];
}

unfoldable pub builtins : Assoc Policy
builtins =
    (codes "readonly", readonly_policy)
    ∷ (codes "readwrite", readwrite_policy)
    ∷ (codes "admin", admin_policy)
    ∷ []

-- The lock of the engine guards each map access; the map is the state.
pub record Engine : Type 0 where
  pub policies : Assoc Policy
  pub dir : Bytes

unfoldable pub new_engine : Bytes → Engine
new_engine dir = record { policies = []; dir = dir }

unfoldable pub match_path : Bytes → Bytes → Bool
match_path pattern path =
    let prefix = trim_suffix pattern (codes "/*") in
    if has_suffix pattern (codes "/*")
    then has_prefix path (prefix ++ codes "/") || path == prefix
    else pattern == path

unfoldable pub has_capability : List Capability → Capability → Bool
has_capability [] target = false
has_capability (c ∷ caps) target = if c == target then true else has_capability caps target

-- The loop of `Allowed` over the rules; a matching deny rule returns at once.
unfoldable pub check_rules : Bytes → Capability → Bool → List Rule → Bool
check_rules path cap allowed [] = allowed
check_rules path cap allowed (rule ∷ rules) =
    let skipped = check_rules path cap allowed rules in
    let taken =
      check_rules path cap (if has_capability rule.capabilities cap then true else allowed) rules in
    if not (match_path rule.path path) then skipped else if rule.deny then false else taken

-- A loaded policy hides a built-in one of the same name.
unfoldable pub find_policy : Engine → Bytes → Option Policy
find_policy e name = elim (lookup name e.policies) [ some p ↦ some p | none ↦ lookup name builtins ]

unfoldable pub check_policy : Bytes → Capability → Option Policy → Bool
check_policy path cap none = false
check_policy path cap (some p) = check_rules path cap false p.rules

unfoldable pub allowed : Engine → Bytes → Bytes → Capability → Bool
allowed e policy_name path cap =
    if policy_name == codes "root" then true else check_policy path cap (find_policy e policy_name)

unfoldable pub set_policy : Policy → Engine → Engine
set_policy p e = record e { policies = insert p.name p e.policies }

-- Engine.Get: the loaded policies only.
unfoldable pub get : Engine → Bytes → Option Policy
get e name = lookup name e.policies

unfoldable pub is_yaml : Bytes → Bool
is_yaml name = has_suffix name (codes ".yaml") || has_suffix name (codes ".yml")

pub record DirEntry : Type 0 where
  pub name : Bytes
  pub is_dir : Bool

-- What the engine takes from the file system and the YAML library.
pub record Files : Type 0 where
  pub read_dir : Bytes → Result (List DirEntry)
  pub read_file : Bytes → Result Bytes
  pub join : Bytes → Bytes → Bytes
  pub unmarshal_policy : Bytes → Result Policy

module _ (fs : Files) where
  parse_policy : Bytes → Result Policy → Result Policy
  parse_policy path (err e) = err e
  parse_policy path (ok p) = if p.name == [] then err (missing_name path) else ok p

  unfoldable pub load_file : Bytes → Result Policy
  unfolding parse_policy
  load_file path = elim (fs.read_file path) [
    | err e ↦ err e
    | ok d ↦ parse_policy path (fs.unmarshal_policy d)
  ]

  -- The loop of `LoadAll`, into the fresh map `loaded`.
  unfoldable pub load_entries : Bytes → Assoc Policy → List DirEntry → Result (Assoc Policy)
  load_entries dir loaded [] = ok loaded
  load_entries dir loaded (entry ∷ entries) =
      let skipped = load_entries dir loaded entries in
      let read : Result (Assoc Policy) = elim (load_file (fs.join dir entry.name)) [
        | err e ↦ err (load_policy entry.name e)
        | ok p ↦ load_entries dir (insert p.name p loaded) entries
      ] in
      if entry.is_dir || not (is_yaml entry.name) then skipped else read

  is_not_exist : Error → Bool
  is_not_exist not_exist = true
  is_not_exist e = false

  replace_policies : Engine → Result (Assoc Policy) → Result (Unit {0}) × Engine
  replace_policies e (ok loaded) = (ok tt, record e { policies = loaded })
  replace_policies e (err x) = (err x, e)

  load_dir : Engine → Result (List DirEntry) → Result (Unit {0}) × Engine
  unfolding is_not_exist replace_policies
  load_dir e (err x) = if is_not_exist x then (ok tt, e) else (err (read_policy_dir e.dir x), e)
  load_dir e (ok entries) = replace_policies e (load_entries e.dir [] entries)

  unfoldable pub load_all : Exec Engine (Unit {0})
  unfolding load_dir
  load_all e = load_dir e (fs.read_dir e.dir)

  -- LoadPolicy: one file.
  unfoldable pub load_one : Bytes → Exec Engine (Unit {0})
  load_one path e = elim (load_file path) [
    | err x ↦ (err x, e)
    | ok p ↦ (ok tt, record e { policies = insert p.name p e.policies })
  ]
