-- ===== src/Storage/Frame.antt =====
-- Methods that leave every record under a prefix of the keys alone.
use lockr.Base.{ℕ, ◌≡◌, ◌≢◌, refl, ◌∙◌, true, false, Bytes, has_prefix, inl, inr, arith}
use lockr.Result.{Result, ok, Exec, Result-cases}
use lockr.Result.Follows.{IsPreorder, Follows, Follows-bind, Follows-pure, follows_rules}
use lockr.Platform.{Platform, World, ask, now, random}
use lockr.Platform.Laws.{StoreLaws}
use lockr.Storage.Db as Db
use lockr.Storage.Listing as Listing
use lockr.Storage.Sealed.{ne_false}
use lockr.Storage.Crypto.{Crypto, hash_argon2id, aesgcm_encrypt, encrypt}

module _ (p : Platform) (area : Bytes) where
  -- The reads of the keys with the prefix `area` are the same at every time.
  abbrev pub Frame : World p → World p → Type 0
  Frame w w' =
      (t : ℕ) (j : Bytes) → has_prefix j area ≡ true → p.view_get t w'.db j ≡ p.view_get t w.db j

  pub Frame-IsPreorder : IsPreorder Frame
  Frame-IsPreorder = record { here = λ w t j h. refl; along = λ u v w a b t j h. b t j h ∙ a t j h }

  -- A method that spares the records under the prefix.
  abbrev pub Spares : {A : Type 0} → Exec (World p) A → Type 0
  Spares m = Follows Frame m

  pub Spares-ask : {A : Type 0} (f : ℕ → p.Store → Result A) → Spares (ask p f)
  Spares-ask f = record { at = λ w t j h. refl }

  pub Spares-now : Spares (now p)
  unfolding now
  Spares-now = Spares-ask (λ t s. ok (p.clock t))

  pub Spares-random : (n : ℕ) → Spares (random p n)
  unfolding random
  Spares-random n = Spares-ask (λ t s. p.rand_read t n)

  pub Spares-get : (k : Bytes) → Spares (Db.get p k)
  unfolding Db.get
  Spares-get k = Spares-ask _

  pub Spares-scan_items : (prefix : Bytes) → Spares (Listing.scan_items p prefix)
  unfolding Listing.scan_items
  Spares-scan_items prefix =
      Follows-bind Frame-IsPreorder _ _ (Spares-ask _) (λ a. Follows-pure Frame-IsPreorder _)

  pub Spares-list : (prefix : Bytes) → Spares (Listing.list p prefix)
  unfolding Listing.list
  Spares-list prefix = search (follows_rules, Frame-IsPreorder, Spares-scan_items)

  pub Spares-scan : (prefix : Bytes) → Spares (Listing.scan p prefix)
  unfolding Listing.scan
  Spares-scan prefix = search (follows_rules, Frame-IsPreorder, Spares-scan_items)

  module _ (store : StoreLaws p) where
    apart : (k j : Bytes) → has_prefix k area ≡ false → has_prefix j area ≡ true → k ≢ j
    apart k j out inside e = ground arith

    pub Spares-set : (k v : Bytes) → has_prefix k area ≡ false → Spares (Db.set p k v)
    unfolding Db.set
    Spares-set k v out = record {
      at = λ w t j h. elim (Result-cases (p.update_set w.tick w.db k v)) [
        | inl (s, e) ↦ rw e (
            rw (store.get-set w.tick t w.db s k v j e)
              (rw (ne_false p store k j (apart k j out h)) refl))
        | inr (x, e) ↦ rw e refl
      ];
    }

    pub Spares-set_with_ttl :
        (k v : Bytes) (ttl : ℕ) → has_prefix k area ≡ false → Spares (Db.set_with_ttl p k v ttl)
    unfolding Db.set_with_ttl
    Spares-set_with_ttl k v ttl out = record {
      at = λ w t j h. elim (Result-cases (p.update_set_ttl w.tick w.db k v ttl)) [
        | inl (s, e) ↦ rw e (
            rw (store.get-set_ttl w.tick t w.db s k v j ttl e)
              (rw (ne_false p store k j (apart k j out h)) refl))
        | inr (x, e) ↦ rw e refl
      ];
    }

    pub Spares-delete : (k : Bytes) → has_prefix k area ≡ false → Spares (Db.delete p k)
    unfolding Db.delete
    Spares-delete k out = record {
      at = λ w t j h. elim (Result-cases (p.update_delete w.tick w.db k)) [
        | inl (s, e) ↦ rw e (
            rw (store.get-delete w.tick t w.db s k j e)
              (rw (ne_false p store k j (apart k j out h)) refl))
        | inr (x, e) ↦ rw e refl
      ];
    }

  pub Spares-list_direct : (prefix : Bytes) → Spares (Listing.list_direct p prefix)
  unfolding Listing.list_direct
  Spares-list_direct prefix = search (follows_rules, Frame-IsPreorder, Spares-list)

  pub Spares-hash_argon2id : (password : Bytes) → Spares (hash_argon2id p password)
  unfolding hash_argon2id
  Spares-hash_argon2id password = search (follows_rules, Frame-IsPreorder, Spares-random)

  Spares-aesgcm_encrypt : (key plaintext : Bytes) → Spares (aesgcm_encrypt p key plaintext)
  unfolding aesgcm_encrypt
  Spares-aesgcm_encrypt key plaintext = search (follows_rules, Frame-IsPreorder, Spares-random)

  pub Spares-encrypt : (c : Crypto) (k plaintext : Bytes) → Spares (encrypt p c k plaintext)
  unfolding encrypt
  Spares-encrypt c k plaintext = search (follows_rules, Frame-IsPreorder, Spares-aesgcm_encrypt)

pub ruleset frame_rules = (
  follows_rules, Frame-IsPreorder, Spares-now, Spares-random, Spares-get, Spares-list, Spares-scan,
  Spares-list_direct, Spares-hash_argon2id, Spares-encrypt, Spares-set, Spares-set_with_ttl,
  Spares-delete,
)
