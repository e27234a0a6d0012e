-- ===== src/Storage/Sealed.antt =====
-- Records that are sealed under their own key: what a write leaves for the reads of every key.
use lockr.Base.{ℕ, false, ◌≡◌, ◌≢◌, Bytes, ◌==◌, ==_sound, ==_refl, inl, inr, Bool-cases, arith}
use lockr.Result.{Result, ok, err, Result-cases, key_not_found, ◌>>=◌}
use lockr.Platform.{Platform, World, random}
use lockr.Platform.Laws.{StoreLaws, CipherLaws}
use lockr.Storage.Db.{translate, set, delete}
use lockr.Storage.Crypto.{Crypto, aesgcm_encrypt, encrypt, decrypt}
use lockr.Storage.Crypto.RoundTrip.{decrypt-encrypt}

module _ (p : Platform) where
  -- A state of the database, read at some later time.
  abbrev pub at : p.Store → ℕ → World p
  at s t = record { db = s; tick = t }

  -- Every read of `k` finds the bytes `v`; no read of `k` finds anything.
  abbrev pub Stored : p.Store → Bytes → Bytes → Type 0
  Stored s k v = (t : ℕ) → p.view_get t s k ≡ ok v

  abbrev pub Missing : p.Store → Bytes → Type 0
  Missing s k = (t : ℕ) → p.view_get t s k ≡ err key_not_found

  -- Two states of the database agree on every key but `k`.
  abbrev pub SameBut : Bytes → p.Store → p.Store → Type 0
  SameBut k s s' = (t : ℕ) (j : Bytes) → k ≢ j → p.view_get t s' j ≡ p.view_get t s j

  pub db-encrypt : (c : Crypto) (k d : Bytes) (w : World p) → (encrypt p c k d w).1.db ≡ w.db
  unfolding encrypt aesgcm_encrypt random
  db-encrypt c k d w = ground arith

  -- What decrypting the value of a key gives.
  abbrev pub opened : Crypto → Bytes → Result Bytes → Result Bytes
  opened c k (ok data') = decrypt p c k data'
  opened c k (err e) = err e

module _ (p : Platform) (store : StoreLaws p) where
  pub ne_false : (k j : Bytes) → k ≢ j → (k == j) ≡ false
  ne_false k j n = elim (Bool-cases (k == j)) [ inl e ↦ absurd (n (==_sound k j e)) | inr f ↦ f ]

  -- A successful `Set` stores the value and leaves the other keys alone.
  pub set_effect :
      (k v : Bytes) (w w' : World p)
      → set p k v w ≡ (ok tt, w')
      → Stored p w'.db k v × SameBut p k w.db w'.db
  unfolding set
  set_effect k v w w' h = elim (Result-cases (p.update_set w.tick w.db k v)) [
    | inl (s, e) ↦
        let same : w'.db ≡ s = ground arith in
        rw same (
          (λ t. rw (store.get-set w.tick t w.db s k v k e) (rw (==_refl k))),
          λ t j n. rw (store.get-set w.tick t w.db s k v j e) (rw (ne_false k j n)),
        )
    | inr (x, e) ↦ ground arith
  ]

  -- A successful `Delete` removes the key and leaves the others alone.
  pub delete_effect :
      (k : Bytes) (w w' : World p)
      → delete p k w ≡ (ok tt, w')
      → Missing p w'.db k × SameBut p k w.db w'.db
  unfolding delete
  delete_effect k w w' h = elim (Result-cases (p.update_delete w.tick w.db k)) [
    | inl (s, e) ↦
        let same : w'.db ≡ s = ground arith in
        rw same (
          (λ t. rw (store.get-delete w.tick t w.db s k k e) (rw (==_refl k))),
          λ t j n. rw (store.get-delete w.tick t w.db s k j e) (rw (ne_false k j n)),
        )
    | inr (x, e) ↦ ground arith
  ]

  -- A `Delete`, also a failed one whose error is dropped, leaves the other keys alone.
  pub delete-SameBut : (k : Bytes) (w : World p) → SameBut p k w.db (delete p k w).1.db
  unfolding delete
  delete-SameBut k w t j n = elim (Result-cases (p.update_delete w.tick w.db k)) [
    | inl (s, e) ↦ rw e (rw (store.get-delete w.tick t w.db s k j e) (rw (ne_false k j n)))
    | inr (x, e) ↦ rw e
  ]

  module _ (cipher : CipherLaws p) where
    -- After a sealed write every read of the key opens to the text that was sealed.
    pub sealed_effect :
        (c : Crypto) (k d : Bytes) (w w' : World p)
        → (encrypt p c k d >>= set p k) w ≡ (ok tt, w')
        → ((t : ℕ) → opened p c k (translate (p.view_get t w'.db k)) ≡ ok d)
          × SameBut p k w.db w'.db
    sealed_effect c k d w w' h = elim (Result-cases (encrypt p c k d w).0) [
      | inl (sealed, e) ↦
          let whole : encrypt p c k d w ≡ (ok sealed, (encrypt p c k d w).1) = ground arith in
          let stored : set p k sealed (encrypt p c k d w).1 ≡ (ok tt, w') = ground arith in
          let (here, others) = set_effect k sealed (encrypt p c k d w).1 w' stored in
          (
            (λ t. rw (here t) (decrypt-encrypt p cipher c k d sealed w _ whole)),
            λ t j n. rw (← db-encrypt p c k d w) (others t j n),
          )
      | inr (x, e) ↦ ground arith
    ]

-- A `Set`, also a failed one, leaves the other keys alone.
pub set-SameBut :
    (p : Platform) (store : StoreLaws p) (k v : Bytes) (w : World p)
    → SameBut p k w.db (set p k v w).1.db
unfolding set
set-SameBut p store k v w t j n = elim (Result-cases (p.update_set w.tick w.db k v)) [
  | inl (s, e) ↦ rw e (rw (store.get-set w.tick t w.db s k v j e) (rw (ne_false p store k j n)))
  | inr (x, e) ↦ rw e
]
