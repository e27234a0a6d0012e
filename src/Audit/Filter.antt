-- ===== src/Audit/Filter.antt =====
-- What Query returns, for whatever order the entries are ranged over.
use lockr.Base.{
  ◌≤◌, ◌-◌, ◌⊎◌, none, some, ℕ, zero, suc, ◌+◌, ◌≡◌, refl, sym, ◌∙◌, ap, true, false, Bool-cases,
  List, [], ◌∷◌, ◌++◌, Option, Bytes, length, take, drop, take-append-drop, length-append, codes,
  inl, inr, if◌then◌else◌, arith,
}
use mathlib.Core.List.{Perm}
use mathlib.Core.List.Perm
use mathlib.Core.List.{Permᴰ, append_assoc, append-nil}
use mathlib.Core.Logic.{∥∥₁_elim, ∥∥₁_prop}
use Prim.Native.Nat.{min}
use native.Mathlib.Nat.{ℕ_set}
use lockr.Base.Int.{Int64, IsNat, int_lt, int_lt_nat}
use lockr.Result.{Result, ok, err, Result-cases}
use lockr.Platform.{Platform, World, now}
use lockr.Storage.Listing.{scan}
use lockr.Storage.Elapsed.{Later-scan}
use lockr.Base.Assoc.{Assoc}
use lockr.Audit.Asked.{Picked, nil, unreadable, other, picked, matches_iff}
use lockr.Audit.{
  since_of, Entry, QueryOptions, Logger, matches, is_full, with_value, stops, query_from, query,
}

-- What a limit leaves of a list: all of it, if the limit is not positive.
pub limited : Int64 → List Entry → List Entry
limited limit es = if int_lt 0 limit then take limit es else es

module _ (read : Bytes → Result Entry) (opts : QueryOptions) (since : Option ℕ) where
  -- One value: the entry that it holds, if it can be read and matches.
  pub wanted : Result Entry → List Entry → List Entry
  wanted (err x) rest = rest
  wanted (ok e) rest = if matches opts since e then e ∷ rest else rest

  -- The entries that can be read and match, in the order of the values.
  pub kept : List Bytes → List Entry
  unfolding wanted
  kept [] = []
  kept (d ∷ ds) = wanted (read d) (kept ds)

  kept-Picked : (ds : List Bytes) → Picked read opts since ds (kept ds)
  unfolding kept wanted
  kept-Picked [] = nil
  kept-Picked (d ∷ ds) = elim (Result-cases (read d)) [
    | inr (x, e) ↦ rw e (unreadable e (kept-Picked ds))
    | inl (y, e) ↦ elim (Bool-cases (matches opts since y)) [
      | inl m ↦ rw (e, m) (picked e ((matches_iff opts since y).0 m) (kept-Picked ds))
      | inr n ↦ rw (e, n) (other e (λ f. cc (n, (matches_iff opts since y).1 f)) (kept-Picked ds))
    ]
  ]

  query_from-all :
      (results : List Entry) (ds : List Bytes)
      → int_lt 0 opts.limit ≡ false
      → query_from read opts since results ds ≡ results ++ kept ds
  unfolding query_from kept wanted is_full with_value stops
  query_from-all results [] h = sym (append-nil results)
  query_from-all results (d ∷ ds) h = elim (Result-cases (read d)) [
    | inr (x, e) ↦ rw e (query_from-all results ds h)
    | inl (y, e) ↦ elim (Bool-cases (matches opts since y)) [
      | inr n ↦ rw e (rw n (query_from-all results ds h))
      | inl m ↦ rw e (
          rw m (
            rw h
              (query_from-all (results ++ y ∷ []) ds h ∙ append_assoc results (y ∷ []) (kept ds))))
    ]
  ]

  query_from-limit :
      (n : ℕ) (results : List Entry) (ds : List Bytes)
      → int_lt 0 opts.limit ≡ true
      → length results + suc n ≡ opts.limit
      → query_from read opts since results ds ≡ results ++ take (suc n) (kept ds)
  unfolding query_from kept wanted is_full with_value stops
  query_from-limit n results [] h room = sym (append-nil results)
  query_from-limit zero results (d ∷ ds) h room = elim (Result-cases (read d)) [
    | inr (x, e) ↦ rw e (query_from-limit zero results ds h room)
    | inl (y, e) ↦ elim (Bool-cases (matches opts since y)) [
      | inr k ↦ rw e (rw k (query_from-limit zero results ds h room))
      | inl m ↦ let len = length-append results (y ∷ []) in rw e (rw m (rw h (ground arith)))
    ]
  ]
  query_from-limit (suc n) results (d ∷ ds) h room = elim (Result-cases (read d)) [
    | inr (x, e) ↦ rw e (query_from-limit (suc n) results ds h room)
    | inl (y, e) ↦ elim (Bool-cases (matches opts since y)) [
      | inr k ↦ rw e (rw k (query_from-limit (suc n) results ds h room))
      | inl m ↦
          let len = length-append results (y ∷ []) in
          let rest =
            query_from-limit n (results ++ y ∷ []) ds h (omega arith)
            ∙ append_assoc results (y ∷ []) (take (suc n) (kept ds)) in
          rw e (rw m (rw h (ground arith)))
    ]
  ]

  pub query_from-limited :
      (ds : List Bytes)
      → IsNat opts.limit
      → query_from read opts since [] ds ≡ limited opts.limit (kept ds)
  unfolding limited
  query_from-limited ds nat = elim (Bool-cases (int_lt 0 opts.limit)) [
    | inr n ↦ rw n (query_from-all [] ds n)
    | inl y ↦ rw y (positive opts.limit refl y)
  ]
    where
      positive :
          (limit : Int64)
          → opts.limit ≡ limit
          → int_lt 0 opts.limit ≡ true
          → query_from read opts since [] ds ≡ take opts.limit (kept ds)
      positive zero e y = absurd (ground (arith, int_lt_nat 0 opts.limit))
      positive (suc n) e y =
          query_from-limit n [] ds y (omega arith) ∙ ap (λ (k : ℕ). take k (kept ds)) (sym e)

  wanted-perm :
      (r : Result Entry) {es fs : List Entry} → Perm es fs → Perm (wanted r es) (wanted r fs)
  unfolding wanted
  wanted-perm (err x) h = h
  wanted-perm (ok e) h = elim (Bool-cases (matches opts since e)) [
    | inl y ↦ rw y (Perm.cons e h)
    | inr n ↦ rw n h
  ]

  wanted-swap :
      (r q : Result Entry) (es : List Entry)
      → Perm (wanted r (wanted q es)) (wanted q (wanted r es))
  unfolding wanted
  wanted-swap (err x) q es = Perm.refl _
  wanted-swap (ok e) (err x) es = Perm.refl _
  wanted-swap (ok e) (ok g) es = elim (Bool-cases (matches opts since e)) [
    | inl y ↦ elim (Bool-cases (matches opts since g)) [
      | inl z ↦ rw y (rw z (Perm.swap g e es))
      | inr n ↦ rw y (rw n (Perm.refl _))
    ]
    | inr n ↦ rw n (Perm.refl _)
  ]

  kept-permᴰ : {ds es : List Bytes} → Permᴰ ds es → Perm (kept ds) (kept es)
  unfolding kept
  kept-permᴰ Permᴰ.nil = Perm.refl _
  kept-permᴰ (Permᴰ.cons {a} e p) = rw (← e) (wanted-perm (read a) (kept-permᴰ p))
  kept-permᴰ (Permᴰ.swap {a} {b} {l} e f) =
      rw (← e) (rw (← f) (wanted-swap (read a) (read b) (kept l)))
  kept-permᴰ (Permᴰ.trans p q) = Perm.trans (kept-permᴰ p) (kept-permᴰ q)

module _ (read : Bytes → Result Entry) (opts : QueryOptions) (since : Option ℕ) where
  pub kept-perm :
      {ds es : List Bytes} → Perm ds es → Perm (kept read opts since ds) (kept read opts since es)
  kept-perm p = ∥∥₁_elim p ∥∥₁_prop (kept-permᴰ read opts since)

length-permᴰ : {es fs : List Entry} → Permᴰ es fs → length es ≡ length fs
length-permᴰ Permᴰ.nil = refl
length-permᴰ (Permᴰ.cons e p) = omega (arith, length-permᴰ p)
length-permᴰ (Permᴰ.swap e f) = omega arith
length-permᴰ (Permᴰ.trans p q) = length-permᴰ p ∙ length-permᴰ q

length-perm : {es fs : List Entry} → Perm es fs → length es ≡ length fs
length-perm p = ∥∥₁_elim p (ℕ_set _ _) length-permᴰ

-- A selection from the entries that match: as many as the limit allows, and a part of them in any
-- order.
pub record Selected (limit : Int64) (matching es : List Entry) : Type 0 where
  pub size : length es ≡ (if int_lt 0 limit then min limit (length matching) else length matching)
  pub left : List Entry
  pub part : Perm (es ++ left) matching

length-take : (n : ℕ) (es : List Entry) → length (take n es) ≡ min n (length es)
length-take zero es = ground arith
length-take (suc n) [] = ground arith
length-take (suc n) (e ∷ es) = ground (arith, length-take n es)

limited-Selected :
    (limit : Int64) (es matching : List Entry)
    → Perm es matching
    → Selected limit matching (limited limit es)
unfolding limited
limited-Selected limit es matching p = elim (Bool-cases (int_lt 0 limit)) [
  | inl y ↦ record {
    size = rw y (length-take limit es ∙ ap (λ (k : ℕ). min limit k) (length-perm p));
    left = drop limit es;
    part = rw y (rw (take-append-drop limit es) p);
  }
  | inr n ↦ record { size = rw n (length-perm p); left = []; part = rw n (rw (append-nil es) p) }
]

-- The values of a map.
unfoldable pub values : Assoc Bytes → List Bytes
values [] = []
values ((k, v) ∷ m) = v ∷ values m

-- The bound in time for a duration: none, if it is not positive, and else the duration before the time
-- that the clock showed at an outside call from the one numbered `from` on.
abbrev pub IsBound : (p : Platform) → ℕ → Int64 → Option ℕ → Type 0
IsBound p from d since =
    ((int_lt 0 d ≡ false) × (since ≡ none))
    ⊎ ((int_lt 0 d ≡ true) × ((t : ℕ) × (from ≤ t) × (since ≡ some (p.clock t - d))))

since_of-IsBound :
    (p : Platform) (l : Logger) (d : Int64) (w : World p) (from : ℕ) (since : Option ℕ)
    → from ≤ w.tick
    → (since_of p l d w).0 ≡ ok since
    → IsBound p from d since
unfolding since_of now
since_of-IsBound p l d w from since late h = elim (Bool-cases (int_lt 0 d)) [
  | inl y ↦ inr (y, (w.tick, late, ground arith))
  | inr n ↦ inl (n, ground arith)
]

-- If ranging over a map yields its values in some order and the limit is at least 0, a Query that
-- succeeds answers with a selection of the stored entries that can be read and have the identity and
-- the path of its options, if they name them, and a timestamp that is not before the bound: all of
-- them, or as many as the limit allows, in any order. There is no bound if the duration of the
-- options is not positive, and else it is that duration before the time of the Query.
pub query-Selected :
    (p : Platform) (l : Logger)
    → ((t : ℕ) (m : Assoc Bytes) → Perm (l.range_values t m) (values m))
    → (opts : QueryOptions) (w : World p) (stored : Assoc Bytes) (es : List Entry)
    → IsNat opts.limit
    → (scan p (codes "audit/") w).0 ≡ ok stored
    → (query p l opts w).0 ≡ ok es
    → (since : Option ℕ) × (matching : List Entry) × IsBound p w.tick opts.since since
      × Picked l.entries.unmarshal opts since (values stored) matching
      × Selected opts.limit matching es
unfolding query
query-Selected p l order opts w stored es nat s h =
    let w1 = (scan p (codes "audit/") w).1 in
    elim (Result-cases (since_of p l opts.since w1).0) [
      | inr (x, e) ↦ ground arith
      | inl (since, e) ↦
          let read = l.entries.unmarshal in
          let w2 = (since_of p l opts.since w1).1 in
          let vs = l.range_values w2.tick stored in
          let out : es ≡ query_from read opts since [] vs = ground arith in
          let exact = query_from-limited read opts since vs nat in
          let perm = kept-perm read opts since (order w2.tick stored) in
          (
            since,
            kept read opts since (values stored),
            since_of-IsBound p l opts.since w1 w.tick since ((Later-scan p (codes "audit/")).at w)
                e,
            kept-Picked read opts since (values stored),
            rw out (
                rw exact (
                  limited-Selected opts.limit (kept read opts since vs)
                    (kept read opts since (values stored)) perm)),
          )
    ]
