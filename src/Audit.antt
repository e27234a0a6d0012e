-- ===== src/Audit.antt =====
-- internal/audit/audit.go: one entry for each request, in the database and in a file, and the query
-- over the entries.
pub mod Asked
pub mod Filter
pub mod Written
pub mod Onward
pub mod Elapsed
use lockr.Base.{
  ℕ, suc, ◌-◌, Bool, true, false, not, ◌&&◌, ◌||◌, List, [], ◌∷◌, ◌++◌, Option, none, some, Bytes,
  codes, ◌==◌, ltb, leb, length, if◌then◌else◌,
}
use lockr.Base.Assoc.{Assoc}
use lockr.Base.Int.{Int64, int_lt}
use lockr.Result.{
  Error, Result, ok, err, Exec, marshal_audit, write_audit, wrap, map_err, pure, lift, ◌>>=◌, ◌>>◌,
}
use lockr.Platform.{Platform, World, now, Codec}
use lockr.Storage.Db as Db
use lockr.Storage.Listing.{scan}

-- The timestamp is `none` for the zero time.
pub record Entry : Type 0 where
  pub id : Bytes
  pub timestamp : Option ℕ
  pub identity : Bytes
  pub auth_method : Bytes
  pub operation : Bytes
  pub path : Bytes
  pub secret_version : Int64
  pub source_ip : Bytes
  pub request_id : Bytes
  pub status : Bytes
  pub policy : Bytes
  pub error_message : Bytes
  pub duration_ms : ℕ

-- encoding/json for the entry, the ULID for a time, drawn from the entropy of the logger, the layout
-- RFC3339Nano, writing a line to the log file (its lines before and after), and the order in which
-- the values of a map are ranged over; each call may answer differently.
pub record Logger : Type 0 where
  pub entries : Codec Entry
  pub ulid : ℕ → ℕ → Bytes
  pub rfc3339_nano : ℕ → Bytes
  pub append_line : ℕ → Bytes → List Bytes → Result (List Bytes)
  pub range_values : ℕ → Assoc Bytes → List Bytes

-- A duration that is not positive stands for no bound in time, an empty text for no filter, a limit
-- that is not positive for no limit.
pub record QueryOptions : Type 0 where
  pub identity : Bytes
  pub since : Int64
  pub path : Bytes
  pub limit : Int64

-- The world, and the lines of the log file.
pub record LogState (p : Platform) : Type 0 where
  pub world : World p
  pub lines : List Bytes

unfoldable pub audit_key : Bytes → Bytes → Bytes
audit_key time id = codes "audit/" ++ (time ++ (codes "/" ++ id))

-- The tests of the loop of Query, on an entry that was decoded.
unfoldable pub too_old : Option ℕ → Option ℕ → Bool
too_old none t = false
too_old (some since) none = true
too_old (some since) (some t) = ltb t since

unfoldable pub matches : QueryOptions → Option ℕ → Entry → Bool
matches opts since e =
    if not (opts.identity == []) && not (e.identity == opts.identity)
    then false
    else if too_old since e.timestamp
    then false
    else if not (opts.path == []) && not (e.path == opts.path)
    then false
    else true

-- opts.Limit > 0 && len(results) >= opts.Limit
unfoldable pub is_full : Int64 → List Entry → Bool
is_full limit results = int_lt 0 limit && leb limit (length results)

-- The results after a value, and whether the loop stops there.
unfoldable pub with_value : QueryOptions → Option ℕ → List Entry → Result Entry → List Entry
with_value opts since results (err x) = results
with_value opts since results (ok e) = if matches opts since e then results ++ e ∷ [] else results

unfoldable pub stops : QueryOptions → Option ℕ → List Entry → Result Entry → Bool
stops opts since results (err x) = false
stops opts since results (ok e) = matches opts since e && is_full opts.limit results

-- The loop of Query over the values in the order of the range.
unfoldable pub query_from :
    (Bytes → Result Entry) → QueryOptions → Option ℕ → List Entry → List Bytes → List Entry
query_from read opts since results [] = results
query_from read opts since results (d ∷ ds) =
    let after = with_value opts since results (read d) in
    let rest = query_from read opts since after ds in
    if stops opts since after (read d) then after else rest

module _ (p : Platform) (l : Logger) where
  open l use {entries, ulid, rfc3339_nano, append_line, range_values}

  -- A call that leaves the file alone.
  abbrev pub on_db : {A : Type 0} → Exec (World p) A → Exec (LogState p) A
  on_db m s = let (r, w) = m s.world in (r, record s { world = w })

  appended : LogState p → Result (List Bytes) → Result (Unit {0}) × LogState p
  appended s (ok lines) = (ok tt, record s { lines = lines })
  appended s (err e) = (err e, s)

  -- fmt.Fprintf(l.f, "%s\n", data)
  append : Bytes → Exec (LogState p) (Unit {0})
  unfolding appended
  append line s = appended s (append_line s.world.tick line s.lines)

  -- if e.Timestamp.IsZero() { e.Timestamp = time.Now().UTC() }
  unfoldable pub time_of : Option ℕ → Exec (World p) ℕ
  time_of none = now p
  time_of (some t) = pure t

  unfoldable pub stamped : Entry → ℕ → ℕ → Entry
  stamped e time tick = record e { timestamp = some time; id = ulid tick time }

  unfoldable pub write_entry : ℕ → Entry → Exec (World p) Bytes
  write_entry time e = do
    encoded ← lift (map_err marshal_audit (entries.marshal e))
    wrap write_audit (Db.set p (audit_key (rfc3339_nano time) e.id) encoded)
    pure encoded

  unfoldable pub log : Entry → Exec (LogState p) (Unit {0})
  unfolding append
  log e = do
    time ← on_db (time_of e.timestamp)
    tick ← on_db (λ w. (ok w.tick, w))
    encoded ← on_db (write_entry time (stamped e time tick))
    append encoded

  -- The duration may be negative; time.Now() is later than any duration after the epoch, or the
  -- bound is before every entry with a timestamp.
  unfoldable pub since_of : Int64 → Exec (World p) (Option ℕ)
  since_of since =
      let bound : Exec (World p) (Option ℕ) = (do time ← now p; pure (some (time - since))) in
      if int_lt 0 since then bound else pure none

  unfoldable pub query : QueryOptions → Exec (World p) (List Entry)
  query opts = do
    stored ← scan p (codes "audit/")
    since ← since_of opts.since
    values ← (λ w. (ok (range_values w.tick stored), w))
    pure (query_from entries.unmarshal opts since [] values)
