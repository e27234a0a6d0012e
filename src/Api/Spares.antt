-- ===== src/Api/Spares.antt =====
-- The handlers that need only the database: the records that they leave alone.
use lockr.Base.{ℕ, if◌then◌else◌, false, true, ◌||◌, Bool, Bool-cases, inl, inr, Bytes, codes, ◌==◌}
use lockr.Result.{Error, Exec, Result-cases}
use lockr.Result.Follows.{Follows}
use lockr.Platform.{Platform, World}
use lockr.Storage.Frame.{Frame, Spares, Frame-IsPreorder}
use lockr.Policy.{Capability, allowed}
use lockr.Api.{Request, Response, Server, Reply, Handler, respond, answer, permitted, with_admin}

module _ (p : Platform) (area : Bytes) where
  abbrev pub Leaves : Handler p → Type 0
  Leaves m = Follows (Frame p area) m

  pub Leaves-respond : (status : ℕ) (reply : Reply) → Leaves (respond p status reply)
  Leaves-respond status reply = record { at = (Frame-IsPreorder p area).here }

  pub Leaves-answer :
      {A : Type 0} (failed : Error → Response) (reply : A → Reply) (m : Exec (World p) A)
      → Spares p area m
      → Leaves (answer p failed reply m)
  Leaves-answer failed reply m h = record {
    at = λ w. elim (Result-cases (m w).0) [
      | inl (a, e) ↦ rw e (h.at w)
      | inr (x, e) ↦ rw e (h.at w)
    ];
  }

  pub Leaves-permitted :
      (s : Server) (r : Request) (path : Bytes) (cap : Capability) (m : Handler p)
      → Leaves m
      → Leaves (permitted p s r path cap m)
  unfolding permitted
  Leaves-permitted s r path cap m h = record {
    at = λ w. elim (Bool-cases (allowed s.engine r.policy path cap)) [
      | inl y ↦ rw y (h.at w)
      | inr n ↦ rw n ((Frame-IsPreorder p area).here w)
    ];
  }

  pub Leaves-with_admin :
      (s : Server) (r : Request) (m : Handler p) → Leaves m → Leaves (with_admin p s r m)
  unfolding with_admin
  Leaves-with_admin s r m h = record {
    at = λ w. elim (Bool-cases (s.dev_mode || r.auth_method == codes "admin_token")) [
      | inl y ↦ rw y (h.at w)
      | inr n ↦ rw n ((Frame-IsPreorder p area).here w)
    ];
  }

  pub Leaves-if : (b : Bool) (m n : Handler p) → Leaves m → Leaves n → Leaves (if b then m else n)
  Leaves-if true m n hm hn = hm
  Leaves-if false m n hm hn = hn

  pub ruleset leaves_rules =
      (Leaves-respond, Leaves-answer, Leaves-permitted, Leaves-with_admin, Leaves-if)
