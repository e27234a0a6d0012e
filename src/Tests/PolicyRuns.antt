-- ===== src/Tests/PolicyRuns.antt =====
-- Policy decisions on the built-in policies, on one with a deny rule, and on a directory of two files.
use lockr.Base.{
  true, false, List, [], ◌∷◌, ◌++◌, none, ◌≡◌, refl, ◌↔◌, Mem, Bytes, codes, ◌==◌, has_prefix,
  has_suffix, trim_suffix,
}
use lockr.Base.Assoc.{lookup, insert}
use lockr.Result.{not_exist, load_policy, ok, err}
use lockr.Policy.{
  Rule, Policy, Engine, DirEntry, Files, cap_read, cap_list, allowed, check_policy, check_rules,
  find_policy, get, has_capability, is_yaml, load_all, load_entries, load_file, match_path,
}
use lockr.Policy.Match.{Matches, match_path_iff, has_capability_iff}
use lockr.Policy.Decision.{MayAccess, allowed_iff}
use lockr.Policy.Loading.{last_named, loads, load_all-lookup}

abbrev pattern : Bytes
pattern = codes "secrets/kv/prod/*"

match_path_iff_example :
    (match_path pattern (codes "secrets/kv/prod/db") ≡ true)
    ↔ Matches pattern (codes "secrets/kv/prod/db")
match_path_iff_example = match_path_iff pattern (codes "secrets/kv/prod/db")

has_capability_iff_example :
    (has_capability (cap_read ∷ cap_list ∷ []) cap_list ≡ true)
    ↔ Mem cap_list (cap_read ∷ cap_list ∷ [])
has_capability_iff_example = has_capability_iff (cap_read ∷ cap_list ∷ []) cap_list

abbrev open_rule : Rule
open_rule = record { path = codes "secrets/kv/*"; capabilities = cap_read ∷ []; deny = false }

abbrev closed_rule : Rule
closed_rule = record { path = pattern; capabilities = []; deny = true }

abbrev team : Policy
team = record { name = codes "team"; description = []; rules = open_rule ∷ closed_rule ∷ [] }

abbrev engine : Engine
engine = record { policies = (codes "team", team) ∷ []; dir = codes "policies" }

denied : allowed engine (codes "team") (codes "secrets/kv/prod/db") cap_read ≡ false
unfolding allowed check_policy find_policy lookup check_rules match_path has_capability has_prefix
    has_suffix trim_suffix ◌==◌
denied = refl

granted : allowed engine (codes "team") (codes "secrets/kv/dev/db") cap_read ≡ true
unfolding allowed check_policy find_policy lookup check_rules match_path has_capability has_prefix
    has_suffix trim_suffix ◌==◌
granted = refl

allowed_iff_example :
    (allowed engine (codes "team") (codes "secrets/kv/prod/db") cap_read ≡ true)
    ↔ MayAccess engine (codes "team") (codes "secrets/kv/prod/db") cap_read
allowed_iff_example = allowed_iff engine (codes "team") (codes "secrets/kv/prod/db") cap_read

no_admin : lookup (codes "admin") engine.policies ≡ none
unfolding lookup ◌==◌
no_admin = refl

no_readonly : lookup (codes "readonly") engine.policies ≡ none
unfolding lookup ◌==◌
no_readonly = refl

abbrev listing : List DirEntry
listing =
    record { name = codes "team.yaml"; is_dir = false }
    ∷ record { name = codes "notes.txt"; is_dir = false }
    ∷ record { name = codes "old"; is_dir = true }
    ∷ []

-- A file with one rule set, read whatever its text.
abbrev files : Files
files = record {
  read_dir = λ d. ok listing;
  read_file = λ f. ok f;
  join = λ d f. d ++ codes "/" ++ f;
  unmarshal_policy = λ d. ok team;
}

abbrev unreadable : Files
unreadable = record files { read_file = λ f. err not_exist }

loaded : (load_all files engine).0 ≡ ok tt
unfolding load_all load_entries is_yaml load_file has_suffix insert ◌==◌
loaded = refl

load_all-lookup_example :
    get (load_all files engine).1 (codes "team")
    ≡ last_named (codes "team") none (loads files (codes "policies") listing)
load_all-lookup_example = load_all-lookup files engine listing (codes "team") refl loaded

not_loaded : (load_all unreadable engine).0 ≡ err (load_policy (codes "team.yaml") not_exist)
unfolding load_all load_entries is_yaml load_file has_suffix insert ◌==◌
not_loaded = refl
