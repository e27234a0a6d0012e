-- ===== src/Policy/Reload.antt =====
-- Where the policies in force come from, over any number of loads of a directory that may change in between.
use lockr.Base.{
  ℕ, not, ◌||◌, ◌==◌, ==_sound, Bool-cases, true, false, List, [], ◌∷◌, Mem, Option, Option-cases,
  none, some, inl, inr, ◌⊎◌, ◌≡◌, refl, ◌∙◌, ap, Bytes, arith, if◌then◌else◌,
}
use lockr.Base.Assoc.{lookup}
use lockr.Result.{Result, ok, err, Result-cases}
use lockr.Policy.{
  Policy, Engine, DirEntry, Files, is_yaml, load_file, load_entries, load_all, new_engine, builtins,
  find_policy,
}
use lockr.Policy.Loading.{loads, last_named, load_entries-lookup}

-- A directory that was read at some time replaced all policies.
pub record Replaced (files : ℕ → Files) (before after : Engine) : Type 0 where
  pub time : ℕ
  pub entries : List DirEntry
  pub read : (files time).read_dir before.dir ≡ ok entries
  pub loaded : load_entries (files time) before.dir [] entries ≡ ok after.policies
  pub dir : after.dir ≡ before.dir

-- The policies stay, or the directory that was read at some time replaced them.
abbrev pub IsLoaded : (ℕ → Files) → Engine → Engine → Type 0
IsLoaded files before after = (after ≡ before) ⊎ Replaced files before after

pub IsLoaded-trans :
    (files : ℕ → Files) (d e f : Engine)
    → IsLoaded files d e
    → IsLoaded files e f
    → IsLoaded files d f
IsLoaded-trans files d e f (inl a) b = rw (← a) b
IsLoaded-trans files d e f (inr a) (inl b) = inr (rw b a)
IsLoaded-trans files d e f (inr a) (inr b) = inr (record {
  time = b.time;
  entries = b.entries;
  read = rw (← a.dir) b.read;
  loaded = rw (← a.dir) b.loaded;
  dir = b.dir ∙ a.dir;
})

-- A load leaves the policies as they are, if there is no directory or a file fails, or replaces them.
pub load_all-IsLoaded :
    (files : ℕ → Files) (t : ℕ) (e : Engine) → IsLoaded files e (load_all (files t) e).1
unfolding load_all
load_all-IsLoaded files t e = elim (Result-cases ((files t).read_dir e.dir)) [
  | inr (x, r) ↦ rw r (inl (ground arith))
  | inl (entries, r) ↦ elim (Result-cases (load_entries (files t) e.dir [] entries)) [
    | inr (x, q) ↦ rw r (rw q (inl refl))
    | inl (m, q) ↦
        rw r (rw q (inr (record { time = t; entries = entries; read = r; loaded = q; dir = refl })))
  ]
]

last_named_inv :
    (name : Bytes) (found : Option Policy) (rs : List (Result Policy)) (pol : Policy)
    → last_named name found rs ≡ some pol
    → (found ≡ some pol) ⊎ (Mem (ok pol) rs × (pol.name ≡ name))
unfolding last_named
last_named_inv name found [] pol h = inl h
last_named_inv name found (err x ∷ rs) pol h = elim (last_named_inv name found rs pol h) [
  | inl e ↦ inl e
  | inr (m, e) ↦ inr (inr m, e)
]
last_named_inv name found (ok q ∷ rs) pol h =
    elim (last_named_inv name (if q.name == name then some q else found) rs pol h) [
      | inr (m, e) ↦ inr (inr m, e)
      | inl e ↦ elim (Bool-cases (q.name == name)) [
        | inr n ↦ inl (rw n at e)
        | inl y ↦
            let same : q ≡ pol = cc (rw y at e) in
            inr (inl (ap ok (cc (same))), rw (← same) (==_sound q.name name y))
      ]
    ]

-- A file of the directory that declares the policy, as it stood at some time.
pub record DeclaredIn (fs : Files) (dir : Bytes) (entries : List DirEntry) (pol : Policy)
    : Type 0 where
  pub file : DirEntry
  pub listed : Mem file entries
  pub regular : file.is_dir ≡ false
  pub yaml : is_yaml file.name ≡ true
  pub parsed : load_file fs (fs.join dir file.name) ≡ ok pol

mem-loads :
    (fs : Files) (dir : Bytes) (entries : List DirEntry) (pol : Policy)
    → Mem (ok pol) (loads fs dir entries)
    → DeclaredIn fs dir entries pol
unfolding loads
mem-loads fs dir [] pol m = elim m [ ]
mem-loads fs dir (x ∷ xs) pol m = elim (Bool-cases (x.is_dir || not (is_yaml x.name))) [
  | inl skip ↦ later (mem-loads fs dir xs pol (rw skip at m))
  | inr read ↦ elim (rw read at m) [
    | inl e ↦ record {
      file = x;
      listed = inl refl;
      regular = ground arith;
      yaml = ground arith;
      parsed = cc;
    }
    | inr k ↦ later (mem-loads fs dir xs pol k)
  ]
]
  where
    later : DeclaredIn fs dir xs pol → DeclaredIn fs dir (x ∷ xs) pol
    later d = record {
      file = d.file;
      listed = inr d.listed;
      regular = d.regular;
      yaml = d.yaml;
      parsed = d.parsed;
    }

-- A policy that a file of the directory declares under the name.
pub record Declared (files : ℕ → Files) (dir name : Bytes) (pol : Policy) : Type 0 where
  pub time : ℕ
  pub entries : List DirEntry
  pub read : (files time).read_dir dir ≡ ok entries
  pub named : pol.name ≡ name
  pub declared : DeclaredIn (files time) dir entries pol

lookup-IsLoaded :
    (files : ℕ → Files) (dir name : Bytes) (e : Engine) (pol : Policy)
    → IsLoaded files (new_engine dir) e
    → lookup name e.policies ≡ some pol
    → Declared files dir name pol
unfolding new_engine lookup
lookup-IsLoaded files dir name e pol (inl same) h = cc (rw same at h)
lookup-IsLoaded files dir name e pol (inr r) h =
    let last = load_entries-lookup (files r.time) dir name [] r.entries e.policies r.loaded in
    elim (last_named_inv name none (loads (files r.time) dir r.entries) pol (rw last at h)) [
      | inl n ↦ cc
      | inr (m, named) ↦ record {
        time = r.time;
        entries = r.entries;
        read = r.read;
        named = named;
        declared = mem-loads (files r.time) dir r.entries pol m;
      }
    ]

-- A policy that is found after any loads of the directory is one of the file of a name, or built in.
pub find_policy-IsLoaded :
    (files : ℕ → Files) (dir name : Bytes) (e : Engine) (pol : Policy)
    → IsLoaded files (new_engine dir) e
    → find_policy e name ≡ some pol
    → Declared files dir name pol ⊎ (lookup name builtins ≡ some pol)
unfolding find_policy
find_policy-IsLoaded files dir name e pol h found = elim (Option-cases (lookup name e.policies)) [
  | inl n ↦ inr (rw (n, find_policy) at found)
  | inr (q, y) ↦
      let same : q ≡ pol = cc (rw (y, find_policy) at found) in
      inl (lookup-IsLoaded files dir name e pol h (rw (← same) y))
]
