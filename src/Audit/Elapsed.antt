-- ===== src/Audit/Elapsed.antt =====
-- Writing an entry does not go back in the count of outside calls.
use lockr.Base.{ℕ, Option, none, some, Bytes, inl, inr}
use lockr.Result.{ok, Exec, Result-cases}
use lockr.Result.Follows.{IsPreorder, Follows, Over, Over-IsPreorder, follows_rules}
use lockr.Platform.{Platform, World}
use lockr.Storage.Elapsed.{Later, Later-IsPreorder, elapsed_rules}
use lockr.Audit.{Entry, Logger, LogState, on_db, time_of, write_entry, append, log}

module _ (p : Platform) where
  abbrev pub LaterLog : LogState p → LogState p → Type 0
  LaterLog = Over (λ (s : LogState p). s.world) (Later p)

  log_order : IsPreorder LaterLog
  log_order = Over-IsPreorder (λ s. s.world) (Later-IsPreorder p)

  module _ (l : Logger) where
    Later-on_db :
        {A : Type 0} (m : Exec (World p) A) → Follows (Later p) m → Follows LaterLog (on_db p l m)
    Later-on_db m h = record { at = λ s. h.at s.world }

    Later-read : {A : Type 0} (f : World p → A) → Follows (Later p) (λ w. (ok (f w), w))
    Later-read f = record { at = (Later-IsPreorder p).here }

    Later-time_of : (t : Option ℕ) → Follows (Later p) (time_of p l t)
    unfolding time_of
    Later-time_of none = search elapsed_rules
    Later-time_of (some t) = search elapsed_rules

    Later-write_entry : (time : ℕ) (e : Entry) → Follows (Later p) (write_entry p l time e)
    unfolding write_entry
    Later-write_entry time e = search elapsed_rules depth 9

    Later-append : (line : Bytes) → Follows LaterLog (append p l line)
    unfolding append
    Later-append line = record {
      at = λ s. elim (Result-cases (l.append_line s.world.tick line s.lines)) [
        | inl (after, e) ↦ rw e (log_order.here s)
        | inr (x, e) ↦ rw e (log_order.here s)
      ];
    }

    pub Later-log : (e : Entry) → Follows LaterLog (log p l e)
    unfolding log
    Later-log e =
        search
          (
            follows_rules, log_order, Later-on_db, Later-read, Later-time_of, Later-write_entry,
            Later-append,
          )
          depth 12
