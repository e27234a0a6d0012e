-- ===== src/Storage/Listing/Prefix.antt =====
-- Seeking to a prefix and reading while it holds finds exactly the keys with the prefix, if the
-- iterator yields its keys in increasing order.
use lockr.Base.{
  true, false, Bool-cases, [], ◌∷◌, ◌≡◌, refl, inl, inr, All, Mem, ◌↔◌, Bytes, has_prefix,
  if◌then◌else◌, arith,
}
use lockr.Storage.Listing.{Items, keys, bytes_lt, seek, while_valid}

-- Keys in strictly increasing order.
abbrev pub IsSorted : Items → Type 0
IsSorted [] = Unit
IsSorted ((k, v) ∷ items) = All (λ i. bytes_lt k i.0 ≡ true) items × IsSorted items

-- The items with the prefix, in their order: the reference.
pub with_prefix : Bytes → Items → Items
with_prefix p [] = []
with_prefix p ((k, v) ∷ items) =
    if has_prefix k p then (k, v) ∷ with_prefix p items else with_prefix p items

-- A key before the prefix does not have it.
has_prefix_of_lt : (k p : Bytes) → bytes_lt k p ≡ true → has_prefix k p ≡ false
unfolding bytes_lt has_prefix
has_prefix_of_lt k [] h = cc
has_prefix_of_lt [] (c ∷ p) h = refl
has_prefix_of_lt (a ∷ k) (c ∷ p) h = ground (arith, has_prefix_of_lt k p)

-- Past the keys with the prefix, no later key has it.
has_prefix_past :
    (k j p : Bytes)
    → bytes_lt k p ≡ false
    → has_prefix k p ≡ false
    → bytes_lt k j ≡ true
    → has_prefix j p ≡ false
unfolding bytes_lt has_prefix
has_prefix_past k j [] h n l = cc
has_prefix_past [] j (c ∷ p) h n l = cc
has_prefix_past (a ∷ k) [] (c ∷ p) h n l = refl
has_prefix_past (a ∷ k) (b ∷ j) (c ∷ p) h n l = ground (arith, has_prefix_past k j p)

bytes_lt_trans_prefix :
    (k j p : Bytes) → bytes_lt k p ≡ false → bytes_lt k j ≡ true → bytes_lt j p ≡ false
unfolding bytes_lt
bytes_lt_trans_prefix k j [] h l = refl
bytes_lt_trans_prefix [] j (c ∷ p) h l = cc
bytes_lt_trans_prefix (a ∷ k) [] (c ∷ p) h l = cc
bytes_lt_trans_prefix (a ∷ k) (b ∷ j) (c ∷ p) h l = ground (arith, bytes_lt_trans_prefix k j p)

none_past :
    (p k : Bytes) (items : Items)
    → bytes_lt k p ≡ false
    → has_prefix k p ≡ false
    → All (λ i. bytes_lt k i.0 ≡ true) items
    → with_prefix p items ≡ []
unfolding with_prefix
none_past p k [] h n s = refl
none_past p k ((j, v) ∷ items) h n (l, s) =
    rw (has_prefix_past k j p h n l) (none_past p k items h n s)

while_valid-eq :
    (p : Bytes) (items : Items)
    → All (λ i. bytes_lt i.0 p ≡ false) items
    → IsSorted items
    → while_valid p items ≡ with_prefix p items
unfolding while_valid with_prefix
while_valid-eq p [] h s = refl
while_valid-eq p ((k, v) ∷ items) (h, hs) (l, s) = elim (Bool-cases (has_prefix k p)) [
  | inl y ↦ rw y (rw (while_valid-eq p items hs s))
  | inr n ↦ rw (n, none_past p k items h n l)
]

not_before :
    (p k : Bytes) (items : Items)
    → bytes_lt k p ≡ false
    → All (λ i. bytes_lt k i.0 ≡ true) items
    → All (λ i. bytes_lt i.0 p ≡ false) items
not_before p k [] h s = tt
not_before p k ((j, v) ∷ items) h (l, s) =
    (bytes_lt_trans_prefix k j p h l, not_before p k items h s)

-- Seek and ValidForPrefix over items in increasing key order visit exactly the items whose keys have
-- the prefix, in order.
pub while_valid-seek :
    (p : Bytes) (items : Items)
    → IsSorted items
    → while_valid p (seek p items) ≡ with_prefix p items
unfolding seek with_prefix
while_valid-seek p [] s = unfold while_valid in refl
while_valid-seek p ((k, v) ∷ items) (l, s) = elim (Bool-cases (bytes_lt k p)) [
  | inl b ↦ rw (b, has_prefix_of_lt k p b) (while_valid-seek p items s)
  | inr n ↦
      let all = while_valid-eq p ((k, v) ∷ items) (n, not_before p k items n l) (l, s) in
      rw n (unfold with_prefix in all)
]

-- The keys of the reference.
pub mem-with_prefix :
    (dir k : Bytes) (items : Items)
    → Mem k (keys (with_prefix dir items)) ↔ (Mem k (keys items) × (has_prefix k dir ≡ true))
unfolding with_prefix
mem-with_prefix dir k [] = (λ m. elim m [ ], λ (m, h). elim m [ ])
mem-with_prefix dir k ((j, v) ∷ items) =
    let (there, back) = mem-with_prefix dir k items in
    elim (Bool-cases (has_prefix j dir)) [
      | inl y ↦ rw y (
        λ m. elim m [ inl e ↦ (inl e, rw e y) | inr l ↦ (inr (there l).0, (there l).1) ],
        λ (m, h). elim m [ inl e ↦ inl e | inr l ↦ inr (back (l, h)) ],
      )
      | inr n ↦ rw n (
        λ m. (inr (there m).0, (there m).1),
        λ (m, h). elim m [ inl e ↦ cc (n, rw e at h) | inr l ↦ back (l, h) ],
      )
    ]
