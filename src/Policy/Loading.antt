-- ===== src/Policy/Loading.antt =====
-- Loading policies from files: a directory replaces the loaded policies as a whole or not at all.
use lockr.Base.{
  not, ◌||◌, Bool-cases, List, [], ◌∷◌, Option, none, some, inl, inr, ◌≡◌, Bytes, ◌==◌, arith,
  if◌then◌else◌,
}
use lockr.Base.Assoc.{Assoc, lookup, insert, lookup-insert}
use lockr.Result.{Error, Result, ok, err, Result-cases, load_policy}
use lockr.Policy.{Policy, Engine, DirEntry, Files, is_yaml, load_file, load_entries, load_all, get}

module _ (fs : Files) where
  -- The policy files of a directory listing, each with what reading it gives.
  unfoldable pub loads : Bytes → List DirEntry → List (Result Policy)
  loads dir [] = []
  loads dir (x ∷ xs) =
      if x.is_dir || not (is_yaml x.name)
      then loads dir xs
      else load_file fs (fs.join dir x.name) ∷ loads dir xs

-- The last of the readings that succeeded with a policy of the name, or `found`.
unfoldable pub last_named : Bytes → Option Policy → List (Result Policy) → Option Policy
last_named name found [] = found
last_named name found (err x ∷ rs) = last_named name found rs
last_named name found (ok p ∷ rs) = last_named name (if p.name == name then some p else found) rs

module _ (fs : Files) (dir : Bytes) where
  pub load_entries-lookup :
      (name : Bytes) (loaded : Assoc Policy) (xs : List DirEntry) (m : Assoc Policy)
      → load_entries fs dir loaded xs ≡ ok m
      → lookup name m ≡ last_named name (lookup name loaded) (loads fs dir xs)
  unfolding load_entries loads last_named
  load_entries-lookup name loaded [] m h = ground arith
  load_entries-lookup name loaded (x ∷ xs) m h =
      elim (Bool-cases (x.is_dir || not (is_yaml x.name))) [
        | inl skip ↦ rw skip (load_entries-lookup name loaded xs m (rw skip at h))
        | inr read ↦ elim (Result-cases (load_file fs (fs.join dir x.name))) [
          | inl (p, e) ↦
              let rest =
                load_entries-lookup name (insert p.name p loaded) xs m (rw (read, e) at h) in
              rw (read, e) (rw (lookup-insert p.name name p loaded) at rest)
          | inr (x', e) ↦ absurd (failed x' (rw (read, e) at h))
        ]
      ]
    where
      failed : (x' : Error) → err (load_policy x.name x') ≡ ok m → ⊥
      failed x' q = cc

-- A directory that is read without an error replaces all loaded policies: every name then has the
-- policy of the last file that declares it, and no other.
pub load_all-lookup :
    (fs : Files) (e : Engine) (entries : List DirEntry) (name : Bytes)
    → fs.read_dir e.dir ≡ ok entries
    → (load_all fs e).0 ≡ ok tt
    → get (load_all fs e).1 name ≡ last_named name none (loads fs e.dir entries)
unfolding load_all get lookup
load_all-lookup fs e entries name r h = elim (Result-cases (load_entries fs e.dir [] entries)) [
  | inl (m, q) ↦ rw (r, q) (load_entries-lookup fs e.dir name [] entries m q)
  | inr (x, q) ↦ cc (rw (r, q) at h)
]

-- A load that fails, at the directory or at any file, leaves the engine as it was.
pub load_all_failed :
    (fs : Files) (e : Engine) (x : Error) → (load_all fs e).0 ≡ err x → (load_all fs e).1 ≡ e
unfolding load_all
load_all_failed fs e x h = elim (Result-cases (fs.read_dir e.dir)) [
  | inl (entries, r) ↦ elim (Result-cases (load_entries fs e.dir [] entries)) [
    | inl (m, q) ↦ cc (rw (r, q) at h)
    | inr (y, q) ↦ rw (r, q)
  ]
  | inr (y, r) ↦ rw r (ground arith)
]
