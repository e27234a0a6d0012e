-- ===== src/Tests/KvRuns.antt =====
-- Secrets on the toy platform: three writes, a delete and a rollback.
use lockr.Base.{ℕ, ◌+◌, ◌-◌, ◌≡◌, ◌≢◌, refl, [], none, some, Bytes, codes, ◌==◌, inl, inr, arith}
use lockr.Base.Assoc.{lookup, insert, without}
use lockr.Base.Int.{int_lt, int_incr, format_int}
use lockr.Base.Decimal.{decimal}
use lockr.Keys.{kv_meta_key, kv_version_key}
use lockr.Result.{ok, err, not_found, is_not_found}
use lockr.Platform.{World, now, random}
use lockr.Storage.Db as Db
use lockr.Storage.Db.{is_key_not_found}
use lockr.Storage.Crypto.{encrypt, decrypt, aesgcm_encrypt, aesgcm_decrypt, new_gcm, derive_key}
use lockr.Storage.Sealed.{at}
use lockr.Secrets.Kv.{
  KvEntry, KvMeta, max_versions, get_meta, get_version, write_meta, write_version, prune, bump,
  new_entry, or_fresh, store_entry, set, get, get_from, delete, versions, rollback,
}
use lockr.Secrets.Kv.Records.{compacted}
use lockr.Secrets.Kv.Secret.{
  History, IsSecret, Starts, answer, get-answer, set-IsSecret, record_version,
}
use lockr.Secrets.Kv.Operations.{
  set_other_path, delete-IsSecret, rollback-IsSecret, window, versions-window,
}
use Prim.Native.Nat.{min}
use lockr.Secrets.Kv.{versions_from, oldest_version}
use lockr.Secrets.Kv.Progress.{Healthy, set-Starts}
use lockr.Secrets.Kv.Rounds.{versions_from-max_versions}
use lockr.Tests.Toy.{toy_cipher_laws, toy, toy_kv, toy_kv_laws, toy_compact}

abbrev pub path : Bytes
path = codes "prod/db"

abbrev empty : World toy
empty = record { db = []; tick = 0 }

abbrev pub first : World toy
first = (set toy toy_kv path (some (codes "1")) empty).1

abbrev fresh : KvMeta
fresh = record { path = path; current_version = 0; deleted_at = none }

abbrev first_entry : KvEntry
first_entry = record {
  path = path;
  version = 1;
  value = some (codes "1");
  created_at = 1000000000;
  deleted_at = none;
}

-- All that a run computes through.
running : Unit {0}
unfolding set get_meta Db.get Db.set is_key_not_found lookup insert without ◌==◌ or_fresh
    is_not_found bump store_entry now write_version write_meta encrypt aesgcm_encrypt derive_key
    new_gcm random new_entry prune int_incr int_lt delete decrypt aesgcm_decrypt kv_meta_key
    kv_version_key format_int decimal rollback get get_from get_version
running = tt

nothing_there : Starts toy toy_kv [] path fresh
unfolding get_meta Db.get is_key_not_found lookup or_fresh is_not_found
nothing_there = (err not_found, (λ t. refl), refl)

first_written : set toy toy_kv path (some (codes "1")) empty ≡ (ok first_entry, first)
unfolding running
first_written = refl

abbrev no_history : History
no_history v = first_entry

abbrev pub current : KvMeta
current = bump fresh

abbrev pub history : History
history = record_version 1 (compacted toy_compact first_entry) no_history

set-IsSecret_example :
    IsSecret toy toy_kv first.db path
      (bump fresh)
      (record_version (0 + 1) (compacted toy_compact first_entry) no_history)
    × ((bump fresh).current_version ≡ 0 + 1)
    × ((bump fresh).deleted_at ≡ none)
    × (first_entry.value ≡ some (codes "1"))
    × (first_entry.version ≡ 0 + 1)
    × (first_entry.path ≡ path)
set-IsSecret_example =
    set-IsSecret toy toy_kv toy_kv_laws path (some (codes "1")) fresh no_history empty first
      first_entry nothing_there refl (omega arith) (λ u lo hi near. absurd (omega arith))
      first_written

pub after_first : IsSecret toy toy_kv first.db path current history
after_first = set-IsSecret_example.0

bumped : current.current_version ≡ 1
unfolding bump int_incr
bumped = refl

live : current.deleted_at ≡ none
unfolding bump
live = refl

get-answer_example :
    (get toy toy_kv path 0 (at toy first.db 9)).0 ≡ answer toy toy_kv path current history 0
get-answer_example =
    get-answer toy toy_kv first.db path current history 0 9 after_first (omega arith) (inl refl)

get_past : (get toy toy_kv path 7 (at toy first.db 9)).0 ≡ answer toy toy_kv path current history 7
get_past =
    get-answer toy toy_kv first.db path current history 7 9 after_first (omega arith)
      (inr (omega (arith, bumped)))

versions-window_example :
    (versions toy toy_kv path (at toy first.db 9)).0
    ≡ ok (
        window
          (min current.current_version max_versions)
          (current.current_version + 1 - min current.current_version max_versions)
          history)
versions-window_example =
    versions-window toy toy_kv first.db path current history 9 after_first (omega (arith, bumped))

abbrev deleted : World toy
deleted = (delete toy toy_kv path first).1

was_deleted : delete toy toy_kv path first ≡ (ok tt, deleted)
unfolding running
was_deleted = refl

delete-IsSecret_example :
    (time : ℕ) × IsSecret toy toy_kv deleted.db path
      (record current { deleted_at = some time })
      history
delete-IsSecret_example =
    delete-IsSecret toy toy_kv toy_kv_laws path current history first deleted after_first
      was_deleted

abbrev rolled : World toy
rolled = (rollback toy toy_kv path 1 first).1

abbrev rolled_entry : KvEntry
rolled_entry = record {
  path = path;
  version = 2;
  value = some (codes "1");
  created_at = 9000000000;
  deleted_at = none;
}

was_rolled : rollback toy toy_kv path 1 first ≡ (ok rolled_entry, rolled)
unfolding running
was_rolled = refl

rollback-IsSecret_example :
    IsSecret toy toy_kv rolled.db path
      (bump current)
      (record_version (current.current_version + 1) (compacted toy_compact rolled_entry) history)
    × (rolled_entry.value ≡ (history 1).value)
    × (rolled_entry.version ≡ current.current_version + 1)
rollback-IsSecret_example =
    rollback-IsSecret toy toy_kv toy_kv_laws path 1 current history first rolled rolled_entry
      after_first live (omega arith) (omega (arith, bumped)) (omega (arith, bumped))
      (omega (arith, bumped)) was_rolled

abbrev other : Bytes
other = codes "dev/db"

abbrev second_world : World toy
second_world = (set toy toy_kv other (some (codes "2")) first).1

abbrev other_fresh : KvMeta
other_fresh = record { path = other; current_version = 0; deleted_at = none }

abbrev other_entry : KvEntry
other_entry = record {
  path = other;
  version = 1;
  value = some (codes "2");
  created_at = 7000000000;
  deleted_at = none;
}

other_written : set toy toy_kv other (some (codes "2")) first ≡ (ok other_entry, second_world)
unfolding running
other_written = refl

other-Starts : Starts toy toy_kv first.db other other_fresh
unfolding running
other-Starts = (err not_found, (λ t. refl), refl)

other_ne : other ≢ path
other_ne e = ground arith

set_other_path_example : IsSecret toy toy_kv second_world.db path current history
set_other_path_example =
    set_other_path toy toy_kv toy_kv_laws other path (some (codes "2")) other_fresh current history
      first second_world other_entry other_ne other-Starts refl (omega arith) other_written
      after_first

healthy : Healthy toy toy_kv
healthy = record {
  written = λ t s k v. (_, refl);
  drawn = λ t n. (_, refl);
  derived = λ master info. (_, refl);
  meta_encoded = λ m. (_, refl);
  entry_encoded = λ e. (_, refl);
}

set-Starts_example : (e : KvEntry) × ((set toy toy_kv path (some (codes "1")) empty).0 ≡ ok e)
set-Starts_example =
    set-Starts toy toy_kv toy_cipher_laws healthy path (some (codes "1")) fresh empty nothing_there

versions_from-max_versions_example :
    versions_from toy toy_kv (max_versions + 5) path (oldest_version 12) 12 first
    ≡ versions_from toy toy_kv max_versions path (oldest_version 12) 12 first
versions_from-max_versions_example =
    versions_from-max_versions toy toy_kv 5 path 12 first (omega arith) (omega arith)
