-- ===== src/Audit/Onward.antt =====
-- Writing an entry leaves the records outside audit/ alone, and the file only grows.
use lockr.Base.{
  ℕ, ◌≡◌, sym, ◌∙◌, ap, false, List, [], ◌∷◌, ◌++◌, Option, none, some, Bytes, has_prefix, inl, inr,
}
use lockr.Base.Int.{Int64}
use lockr.Result.{ok, Exec, Result-cases}
use lockr.Result.Follows.{IsPreorder, Follows, follows_rules}
use lockr.Platform.{Platform, World}
use lockr.Platform.Laws.{StoreLaws}
use lockr.Storage.Frame.{Frame, Spares, Frame-IsPreorder, frame_rules}
use lockr.Audit.{
  Entry, Logger, LogState, QueryOptions, audit_key, time_of, write_entry, append, log, on_db,
  since_of, query,
}
use mathlib.Core.List.{append-nil, append_assoc}

-- The second list is the first and what was added at its end.
abbrev pub IsExtended : List Bytes → List Bytes → Type 0
IsExtended before after = (added : List Bytes) × (after ≡ before ++ added)

pub IsExtended-refl : (a : List Bytes) → IsExtended a a
IsExtended-refl a = ([], sym (append-nil a))

pub IsExtended-trans : (a b c : List Bytes) → IsExtended a b → IsExtended b c → IsExtended a c
IsExtended-trans a b c (x, e) (y, f) = (x ++ y, f ∙ ap (λ t. t ++ y) e ∙ append_assoc a x y)

-- A write to the file that succeeds adds its line at the end.
pub record FileLaws (l : Logger) : Type 0 where
  pub appends :
      (t : ℕ) (line : Bytes) (before after : List Bytes)
      → l.append_line t line before ≡ ok after
      → after ≡ before ++ line ∷ []

module _ (p : Platform) (area : Bytes) where
  -- What happens to the database and the file.
  pub record Onward (s t : LogState p) : Type 0 where
    pub frame : Frame p area s.world t.world
    pub lines : IsExtended s.lines t.lines

  pub Onward-IsPreorder : IsPreorder Onward
  Onward-IsPreorder = record {
    here = λ s. record {
      frame = (Frame-IsPreorder p area).here s.world;
      lines = IsExtended-refl s.lines;
    };
    along = λ s t u a b. record {
      frame = (Frame-IsPreorder p area).along s.world t.world u.world a.frame b.frame;
      lines = IsExtended-trans s.lines t.lines u.lines a.lines b.lines;
    };
  }

  module _ (l : Logger) where
    since_of-Spares : (d : Int64) → Spares p area (since_of p l d)
    unfolding since_of
    since_of-Spares d = search frame_rules

    Spares-read : {A : Type 0} (f : World p → A) → Spares p area (λ w. (ok (f w), w))
    Spares-read f = record { at = (Frame-IsPreorder p area).here }

    pub query-Spares : (opts : QueryOptions) → Spares p area (query p l opts)
    unfolding query
    query-Spares opts = search (frame_rules, since_of-Spares, Spares-read) depth 9

    Onward-on_db :
        {A : Type 0} (m : Exec (World p) A) → Spares p area m → Follows Onward (on_db p l m)
    Onward-on_db m h = record {
      at = λ s. record { frame = h.at s.world; lines = IsExtended-refl s.lines };
    }

    module _ (store : StoreLaws p) (file : FileLaws l)
        (out : (time id : Bytes) → has_prefix (audit_key time id) area ≡ false) where
      append-Onward : (line : Bytes) → Follows Onward (append p l line)
      unfolding append
      append-Onward line = record {
        at = λ s. elim (Result-cases (l.append_line s.world.tick line s.lines)) [
          | inl (after, e) ↦ rw e (record {
            frame = (Frame-IsPreorder p area).here s.world;
            lines = (line ∷ [], file.appends s.world.tick line s.lines after e);
          })
          | inr (x, e) ↦ rw e (Onward-IsPreorder.here s)
        ];
      }

      write_entry-Spares : (time : ℕ) (e : Entry) → Spares p area (write_entry p l time e)
      unfolding write_entry
      write_entry-Spares time e = search (frame_rules, out, store) depth 9

      time_of-Spares : (t : Option ℕ) → Spares p area (time_of p l t)
      unfolding time_of
      time_of-Spares none = search frame_rules
      time_of-Spares (some t) = search frame_rules

      pub log-Onward : (e : Entry) → Follows Onward (log p l e)
      unfolding log
      log-Onward e =
          search
            (
              follows_rules, Onward-IsPreorder, Onward-on_db, append-Onward, write_entry-Spares,
              time_of-Spares, Spares-read,
            )
            depth 9
