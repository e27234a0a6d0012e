-- ===== src/Audit/Written.antt =====
-- What writing an entry does to the database and to the file.
use lockr.Base.{ℕ, suc, List, Bytes, ◌≡◌, refl, some, inl, inr}
use lockr.Result.{Error, ok, err, Result-cases}
use lockr.Platform.{Platform, World}
use lockr.Platform.Laws.{StoreLaws}
use lockr.Storage.Db as Db
use lockr.Storage.Sealed.{SameBut, Stored, set-SameBut, set_effect}
use lockr.Audit.{Entry, Logger, LogState, audit_key, time_of, stamped, write_entry, append, log}

module _ (p : Platform) (store : StoreLaws p) (l : Logger) where
  write_entry-SameBut :
      (time : ℕ) (e : Entry) (w : World p)
      → SameBut p (audit_key (l.rfc3339_nano time) e.id) w.db (write_entry p l time e w).1.db
  unfolding write_entry
  write_entry-SameBut time e w t j n = elim (Result-cases (l.entries.marshal e)) [
    | inr (x, q) ↦ rw q refl
    | inl (d, q) ↦
        let kept = set-SameBut p store (audit_key (l.rfc3339_nano time) e.id) d w t j n in
        elim (Result-cases (Db.set p (audit_key (l.rfc3339_nano time) e.id) d w).0) [
          | inl (u, r) ↦ rw q (rw r kept)
          | inr (x, r) ↦ rw q (rw r kept)
        ]
  ]

  -- An entry with a timestamp: only its own record changes, whatever fails.
  pub log-SameBut :
      (e : Entry) (time : ℕ) (s : LogState p)
      → e.timestamp ≡ some time
      → SameBut p
          (audit_key (l.rfc3339_nano time) (l.ulid s.world.tick time))
          s.world.db
          (log p l e s).1.world.db
  unfolding log time_of stamped append
  log-SameBut e time s h t j n =
      let kept = write_entry-SameBut time (stamped p l e time s.world.tick) s.world t j n in
      elim (Result-cases (write_entry p l time (stamped p l e time s.world.tick) s.world).0) [
        | inl (d, q) ↦
            elim (Result-cases (
              l.append_line (write_entry p l time (stamped p l e time s.world.tick) s.world).1.tick
                d s.lines)) [
                  | inl (ls, r) ↦ rw h (rw q (rw r kept))
                  | inr (x, r) ↦ rw h (rw q (rw r kept))
                ]
        | inr (x, q) ↦ rw h (rw q kept)
      ]

-- What writing an entry comes to: its encoding is stored under its key and is a line of the file, or one of
-- the three steps failed, and the file is as it was.
pub data Outcome (p : Platform) (l : Logger) (entry : Entry) (time : ℕ) (lines : List Bytes)
    (after : LogState p) : Type 0 where
  written :
      (d : Bytes) (t : ℕ)
      → l.entries.marshal entry ≡ ok d
      → Stored p after.world.db (audit_key (l.rfc3339_nano time) entry.id) d
      → l.append_line t d lines ≡ ok after.lines
      → Outcome p l entry time lines after
  not_encoded :
      (x : Error)
      → l.entries.marshal entry ≡ err x
      → after.lines ≡ lines
      → Outcome p l entry time lines after
  not_stored :
      (d : Bytes) (t : ℕ) (x : Error)
      → l.entries.marshal entry ≡ ok d
      → p.update_set t after.world.db (audit_key (l.rfc3339_nano time) entry.id) d ≡ err x
      → after.lines ≡ lines
      → Outcome p l entry time lines after
  not_appended :
      (d : Bytes) (t : ℕ) (x : Error)
      → l.entries.marshal entry ≡ ok d
      → Stored p after.world.db (audit_key (l.rfc3339_nano time) entry.id) d
      → l.append_line t d lines ≡ err x
      → after.lines ≡ lines
      → Outcome p l entry time lines after

module _ (p : Platform) (store : StoreLaws p) (l : Logger) where
  log-written :
      (e : Entry) (time : ℕ) (s : LogState p) (d : Bytes) (b : p.Store)
      → l.entries.marshal (stamped p l e time s.world.tick) ≡ ok d
      → p.update_set s.world.tick s.world.db
          (audit_key (l.rfc3339_nano time) (l.ulid s.world.tick time))
          d
        ≡ ok b
      → e.timestamp ≡ some time
      → Outcome p l (stamped p l e time s.world.tick) time s.lines (log p l e s).1
  unfolding log write_entry time_of stamped append Db.set
  log-written e time s d b encoded stored h =
      let key = audit_key (l.rfc3339_nano time) (l.ulid s.world.tick time) in
      let w' : World p = record { db = b; tick = suc s.world.tick } in
      let (held, others) = set_effect p store key d s.world w' (unfold Db.set in rw stored refl) in
      elim (Result-cases (l.append_line (suc s.world.tick) d s.lines)) [
        | inl (ls, r) ↦
            rw h (rw encoded (rw stored (rw r (written d (suc s.world.tick) encoded held r))))
        | inr (x, r) ↦ rw h (
            rw encoded (rw stored (rw r (not_appended d (suc s.world.tick) x encoded held r refl))))
      ]

  -- Every entry with a timestamp has one of the outcomes.
  pub log-Outcome :
      (e : Entry) (time : ℕ) (s : LogState p)
      → e.timestamp ≡ some time
      → Outcome p l (stamped p l e time s.world.tick) time s.lines (log p l e s).1
  unfolding log write_entry time_of stamped append Db.set
  log-Outcome e time s h =
      let key = audit_key (l.rfc3339_nano time) (l.ulid s.world.tick time) in
      elim (Result-cases (l.entries.marshal (stamped p l e time s.world.tick))) [
        | inr (x, q) ↦ rw h (rw q (not_encoded x q refl))
        | inl (d, q) ↦ elim (Result-cases (p.update_set s.world.tick s.world.db key d)) [
          | inr (x, r) ↦ rw h (rw q (rw r (not_stored d s.world.tick x q r refl)))
          | inl (b, r) ↦ log-written e time s d b q r h
        ]
      ]
