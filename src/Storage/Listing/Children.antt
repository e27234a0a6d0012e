-- ===== src/Storage/Listing/Children.antt =====
-- `ListDirect`: the immediate children of a path, each once.
use lockr.Base.{
  true, Bool-cases, List, [], ◌∷◌, ◌++◌, ◌≡◌, ◌↔◌, refl, sym, ◌⊎◌, inl, inr, Mem, mem-append_left,
  Bytes, codes, cut, has_prefix, has_prefix_iff, trim_prefix-append, ap, ◌==◌, ==_sound,
  ==_complete, if◌then◌else◌, arith,
}
use lockr.Base.Decimal.{NoByte}
use lockr.Base.Segments.{NoByte-cut, cut_cases, cut_whole, cut-append}
use lockr.Result.{ok}
use lockr.Platform.{Platform, World}
use lockr.Storage.Listing.{
  Items, keys, close_child, child_of, contains, children_from, with_slash, list, list_direct,
}
use lockr.Storage.Listing.Prefix.{IsSorted, with_prefix, mem-with_prefix, while_valid-seek}

-- No element stands twice.
abbrev pub Nodup : List Bytes → Type 0
Nodup [] = Unit
Nodup (x ∷ xs) = (Mem x xs → ⊥) × Nodup xs

contains_sound : (xs : List Bytes) (a : Bytes) → contains xs a ≡ true → Mem a xs
unfolding contains
contains_sound [] a h = cc
contains_sound (x ∷ xs) a h = elim (Bool-cases (x == a)) [
  | inl e ↦ inl (sym (==_sound x a e))
  | inr n ↦ inr (contains_sound xs a (ground arith))
]

contains_complete : (xs : List Bytes) (a : Bytes) → Mem a xs → contains xs a ≡ true
unfolding contains
contains_complete [] a m = elim m [ ]
contains_complete (x ∷ xs) a (inl e) = rw (==_complete x a (sym e))
contains_complete (x ∷ xs) a (inr m) = ground (arith, contains_complete xs a m)

mem_snoc_inv : (a x : Bytes) (xs : List Bytes) → Mem a (xs ++ x ∷ []) → Mem a xs ⊎ (a ≡ x)
mem_snoc_inv a x [] (inl e) = inr e
mem_snoc_inv a x [] (inr m) = elim m [ ]
mem_snoc_inv a x (y ∷ xs) (inl e) = inl (inl e)
mem_snoc_inv a x (y ∷ xs) (inr m) = elim (mem_snoc_inv a x xs m) [
  | inl l ↦ inl (inr l)
  | inr e ↦ inr e
]

mem_snoc : (x : Bytes) (xs : List Bytes) → Mem x (xs ++ x ∷ [])
mem_snoc x [] = inl refl
mem_snoc x (y ∷ xs) = inr (mem_snoc x xs)

Nodup-snoc : (x : Bytes) (xs : List Bytes) → Nodup xs → (Mem x xs → ⊥) → Nodup (xs ++ x ∷ [])
Nodup-snoc x [] d n = ((λ m. m), tt)
Nodup-snoc x (y ∷ xs) (f, d) n = (
  λ m. elim (mem_snoc_inv y x xs m) [ inl l ↦ f l | inr e ↦ n (inl (sym e)) ],
  Nodup-snoc x xs d (λ m. n (inr m)),
)

-- One round of the loop.
add_child : List Bytes → Bytes → List Bytes
add_child result child = if contains result child then result else result ++ child ∷ []

add_child-Nodup :
    (result : List Bytes) (child : Bytes) → Nodup result → Nodup (add_child result child)
unfolding add_child
add_child-Nodup result child d = elim (Bool-cases (contains result child)) [
  | inl y ↦ rw y d
  | inr n ↦ rw n (Nodup-snoc child result d (λ m. cc (n, contains_complete result child m)))
]

mem-add_child :
    (a : Bytes) (result : List Bytes) (child : Bytes)
    → Mem a (add_child result child) ↔ (Mem a result ⊎ (a ≡ child))
unfolding add_child
mem-add_child a result child = elim (Bool-cases (contains result child)) [
  | inl y ↦
      rw y (λ m. inl m, λ q. elim q [ inl m ↦ m | inr e ↦ rw e (contains_sound result child y) ])
  | inr n ↦ rw n (
    mem_snoc_inv a child result,
    λ q. elim q [
      | inl m ↦ mem-append_left a result (child ∷ []) m
      | inr e ↦ rw e (mem_snoc child result)
    ],
  )
]

-- The child of the directory in which a key lies: the key itself, if it goes on after the directory
-- without a "/", and else what comes before its next "/", with the "/".
abbrev pub IsChild : Bytes → Bytes → Bytes → Type 0
IsChild dir k a =
    (segment : Bytes) × NoByte b'/' segment
    × (((k ≡ dir ++ segment) × (a ≡ dir ++ segment))
        ⊎ ((rest : Bytes) × (k ≡ dir ++ (segment ++ b'/' ∷ rest))
            × (a ≡ (dir ++ segment) ++ codes "/")))

child_of-IsChild : (dir k : Bytes) → has_prefix k dir ≡ true → IsChild dir k (child_of dir k)
unfolding child_of close_child
child_of-IsChild dir k h =
    let (rest, whole) = (has_prefix_iff k dir).0 h in
    rw whole (
      rw (trim_prefix-append dir rest) (
        (cut b'/' rest).0,
        NoByte-cut b'/' rest,
        elim (cut_cases b'/' rest) [
          | inl (e, same) ↦ inl (ap (λ t. dir ++ t) same, rw e refl)
          | inr (r, e, same) ↦ inr (r, ap (λ t. dir ++ t) same, rw e refl)
        ],
      ))

IsChild-child_of : (dir k a : Bytes) → IsChild dir k a → a ≡ child_of dir k
unfolding child_of close_child
IsChild-child_of dir k a (segment, clean, inl (whole, e)) =
    rw whole (rw (trim_prefix-append dir segment) (rw (cut_whole b'/' segment clean) e))
IsChild-child_of dir k a (segment, clean, inr (rest, whole, e)) = rw whole (
    rw (trim_prefix-append dir (segment ++ b'/' ∷ rest))
      (rw (cut-append b'/' segment rest clean) e))

IsChild-has_prefix : (dir k a : Bytes) → IsChild dir k a → has_prefix k dir ≡ true
IsChild-has_prefix dir k a (segment, clean, inl (whole, e)) =
    (has_prefix_iff k dir).1 (segment, whole)
IsChild-has_prefix dir k a (segment, clean, inr (rest, whole, e)) =
    (has_prefix_iff k dir).1 (segment ++ b'/' ∷ rest, whole)

-- Some key of the list lies in the child.
abbrev pub HasChild : Bytes → Bytes → List Bytes → Type 0
HasChild dir a ks = (k : Bytes) × Mem k ks × IsChild dir k a

-- Some key of the list is taken to the child by the code.
abbrev FromKey : Bytes → Bytes → List Bytes → Type 0
FromKey prefix a ks = (k : Bytes) × Mem k ks × (a ≡ child_of prefix k)

FromKey-HasChild :
    (dir a : Bytes) (items : Items)
    → FromKey dir a (keys (with_prefix dir items)) ↔ HasChild dir a (keys items)
FromKey-HasChild dir a items = (
  λ (k, m, e).
      let (stored, under) = (mem-with_prefix dir k items).0 m in
      (k, stored, rw e (child_of-IsChild dir k under)),
  λ (k, m, c). (
    k,
    (mem-with_prefix dir k items).1 (m, IsChild-has_prefix dir k a c),
    IsChild-child_of dir k a c,
  ),
)

module _ (prefix : Bytes) where
  children_from-Nodup :
      (result ks : List Bytes) → Nodup result → Nodup (children_from prefix result ks)
  unfolding children_from add_child
  children_from-Nodup result [] d = d
  children_from-Nodup result (k ∷ ks) d =
      children_from-Nodup (add_child result (child_of prefix k)) ks
        (add_child-Nodup result (child_of prefix k) d)

  mem-children_from_sound :
      (a : Bytes) (result ks : List Bytes)
      → Mem a (children_from prefix result ks)
      → Mem a result ⊎ FromKey prefix a ks
  unfolding children_from add_child
  mem-children_from_sound a result [] m = inl m
  mem-children_from_sound a result (k ∷ ks) m =
      elim (mem-children_from_sound a (add_child result (child_of prefix k)) ks m) [
        | inl l ↦ elim ((mem-add_child a result (child_of prefix k)).0 l) [
          | inl old ↦ inl old
          | inr e ↦ inr (k, inl refl, e)
        ]
        | inr (j, h, e) ↦ inr (j, inr h, e)
      ]

  mem-children_from_old :
      (a : Bytes) (result ks : List Bytes) → Mem a result → Mem a (children_from prefix result ks)
  unfolding children_from add_child
  mem-children_from_old a result [] m = m
  mem-children_from_old a result (k ∷ ks) m =
      mem-children_from_old a (add_child result (child_of prefix k)) ks
        ((mem-add_child a result (child_of prefix k)).1 (inl m))

  mem-children_from_new :
      (a k : Bytes) (result ks : List Bytes)
      → Mem k ks
      → a ≡ child_of prefix k
      → Mem a (children_from prefix result ks)
  unfolding children_from add_child
  mem-children_from_new a k result [] m e = elim m [ ]
  mem-children_from_new a k result (j ∷ ks) (inl q) e =
      mem-children_from_old a (add_child result (child_of prefix j)) ks
        ((mem-add_child a result (child_of prefix j)).1 (inr (rw (← q) e)))
  mem-children_from_new a k result (j ∷ ks) (inr m) e =
      mem-children_from_new a k (add_child result (child_of prefix j)) ks m e

-- If the database yields its items in key order and ListDirect succeeds, it lists without repetition
-- exactly the path, its "/" and one segment for each stored key below the path, where the segment
-- has no "/", ends the key, or is followed by a "/" in the key, which then also closes it in the
-- list.
pub list_direct_iff :
    (p : Platform) (prefix : Bytes) (w : World p) (items : Items) (children : List Bytes)
    → p.view_items w.tick w.db ≡ ok items
    → IsSorted items
    → (list_direct p prefix w).0 ≡ ok children
    → Nodup children × ((a : Bytes) → Mem a children ↔ HasChild (with_slash prefix) a (keys items))
unfolding list_direct list
list_direct_iff p prefix w items children v sorted h =
    let dir = with_slash prefix in
    let ks = keys (with_prefix dir items) in
    let listed : children ≡ children_from dir [] ks =
      ground (arith, while_valid-seek dir items sorted) in
    rw listed (
      children_from-Nodup dir [] ks tt,
      λ a. (
        λ m.
            (FromKey-HasChild dir a items).0
              (elim (mem-children_from_sound dir a [] ks m) [ inl l ↦ absurd l | inr c ↦ c ]),
        λ c.
            let (k, m, e) = (FromKey-HasChild dir a items).1 c in
            mem-children_from_new dir a k [] ks m e,
      ),
    )
