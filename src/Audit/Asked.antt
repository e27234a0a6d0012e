-- ===== src/Audit/Asked.antt =====
-- The entries that the options of a Query ask for, described without its loop.
use lockr.Base.{
  ◌≤◌, ◌⊎◌, ◌↔◌, none, some, not, ◌&&◌, ◌==◌, ==_sound, ==_complete, ℕ, ◌≡◌, refl, true, false,
  Bool-cases, List, [], ◌∷◌, Option, Bytes, inl, inr, arith,
}
use lockr.Result.{Error, Result, ok, err}
use lockr.Audit.{Entry, QueryOptions, too_old, matches}

-- A timestamp that is not before the bound, if there is one.
abbrev IsRecent : Option ℕ → Option ℕ → Type 0
IsRecent none t = Unit
IsRecent (some bound) none = ⊥
IsRecent (some bound) (some t) = bound ≤ t

-- What the options ask of an entry: the identity and the path, if they name them, and a timestamp that is
-- not before the bound.
pub record Fits (opts : QueryOptions) (since : Option ℕ) (e : Entry) : Type 0 where
  pub identity : (opts.identity ≡ []) ⊎ (e.identity ≡ opts.identity)
  pub path : (opts.path ≡ []) ⊎ (e.path ≡ opts.path)
  pub recent : IsRecent since e.timestamp

-- The entries of a list of values that can be read and that the options ask for, in the order of the
-- values.
pub data Picked (read : Bytes → Result Entry) (opts : QueryOptions) (since : Option ℕ)
    : List Bytes → List Entry → Type 0 where
  nil : Picked read opts since [] []
  unreadable :
      {d : Bytes} {ds : List Bytes} {es : List Entry} {x : Error}
      → read d ≡ err x
      → Picked read opts since ds es
      → Picked read opts since (d ∷ ds) es
  other :
      {d : Bytes} {ds : List Bytes} {es : List Entry} {e : Entry}
      → read d ≡ ok e
      → (Fits opts since e → ⊥)
      → Picked read opts since ds es
      → Picked read opts since (d ∷ ds) es
  picked :
      {d : Bytes} {ds : List Bytes} {es : List Entry} {e : Entry}
      → read d ≡ ok e
      → Fits opts since e
      → Picked read opts since ds es
      → Picked read opts since (d ∷ ds) (e ∷ es)

unnamed_or_same_iff :
    (asked is : Bytes)
    → ((not (asked == []) && not (is == asked)) ≡ false) ↔ ((asked ≡ []) ⊎ (is ≡ asked))
unnamed_or_same_iff asked is = (
  λ h. elim (Bool-cases (asked == [])) [
    | inl y ↦ inl (==_sound asked [] y)
    | inr n ↦ elim (Bool-cases (is == asked)) [
      | inl y ↦ inr (==_sound is asked y)
      | inr m ↦ cc (rw (n, m) at h)
    ]
  ],
  λ q. elim q [
    | inl e ↦ rw (==_complete asked [] e) refl
    | inr e ↦ rw (==_complete is asked e) (ground arith)
  ],
)

too_old_iff : (since t : Option ℕ) → (too_old since t ≡ false) ↔ IsRecent since t
unfolding too_old
too_old_iff none t = (λ h. tt, λ r. refl)
too_old_iff (some bound) none = (λ h. cc, λ r. absurd r)
too_old_iff (some bound) (some t) = (λ h. ground arith, λ r. ground arith)

pub matches_iff :
    (opts : QueryOptions) (since : Option ℕ) (e : Entry)
    → (matches opts since e ≡ true) ↔ Fits opts since e
unfolding matches
matches_iff opts since e =
    let (named, back_named) = unnamed_or_same_iff opts.identity e.identity in
    let (at_path, back_path) = unnamed_or_same_iff opts.path e.path in
    let (recent, back_recent) = too_old_iff since e.timestamp in
    (
      λ h. record {
        identity = named (ground arith);
        path = at_path (ground arith);
        recent = recent (ground arith);
      },
      λ f.
          let a = back_named f.identity in
          let b = back_path f.path in let d = back_recent f.recent in ground arith,
    )
