-- ===== src/Result/Follows.antt =====
-- What every run of a method does to its state, as a relation between the state before and after: one
-- rule for each way to build a method.
use lockr.Base.{Bool, true, false, if◌then◌else◌}
use lockr.Result.{Error, Result, ok, err, Exec, wrap, pure, fail, lift, try, resume, ◌>>=◌}

-- A relation that holds of a state and itself, and along two steps.
pub record IsPreorder {S : Type 0} (R : S → S → Type 0) : Type 0 where
  pub here : (s : S) → R s s
  pub along : (s t u : S) → R s t → R t u → R s u

-- After the method the state is related to the one before, whether it succeeds or fails. The answer of
-- the method may be a result or anything else.
pub record Follows {S X : Type 0} (R : S → S → Type 0) (m : S → X × S) : Type 0 where
  pub at : (s : S) → R s (m s).1

-- The relation of the parts of two states.
abbrev pub Over : {S T : Type 0} → (S → T) → (T → T → Type 0) → S → S → Type 0
Over part R s t = R (part s) (part t)

pub Over-IsPreorder :
    {S T : Type 0} (part : S → T) {R : T → T → Type 0} → IsPreorder R → IsPreorder (Over part R)
Over-IsPreorder part o = record {
  here = λ s. o.here (part s);
  along = λ s t u a b. o.along (part s) (part t) (part u) a b;
}

module _ {S : Type 0} {R : S → S → Type 0} (o : IsPreorder R) where
  pub Follows-pure : {A : Type 0} (a : A) → Follows R (pure a)
  Follows-pure a = record { at = o.here }

  pub Follows-fail : {A : Type 0} (e : Error) → Follows R (fail {S = S} {A = A} e)
  Follows-fail e = record { at = o.here }

  pub Follows-lift : {A : Type 0} (r : Result A) → Follows R (lift r)
  Follows-lift r = record { at = o.here }

  pub Follows-wrap :
      {A : Type 0} (f : Error → Error) (m : Exec S A) → Follows R m → Follows R (wrap f m)
  Follows-wrap f m h = record { at = λ s. h.at s }

  pub Follows-try : {A : Type 0} (m : Exec S A) → Follows R m → Follows R (try m)
  Follows-try m h = record { at = λ s. h.at s }

  pub Follows-if :
      {A : Type 0} (b : Bool) (m n : Exec S A)
      → Follows R m
      → Follows R n
      → Follows R (if b then m else n)
  Follows-if true m n hm hn = hm
  Follows-if false m n hm hn = hn

  rest_at :
      {A B : Type 0} (r : Result A) (f : A → Exec S B) (s : S)
      → ((a : A) → Follows R (f a))
      → R s (resume f r s).1
  rest_at (ok a) f s h = (h a).at s
  rest_at (err e) f s h = o.here s

  pub Follows-bind :
      {A B : Type 0} (m : Exec S A) (f : A → Exec S B)
      → Follows R m
      → ((a : A) → Follows R (f a))
      → Follows R (m >>= f)
  Follows-bind m f hm hf = record {
    at = λ s. let (r, t) = m s in o.along s t (resume f r t).1 (hm.at s) (rest_at r f t hf);
  }

pub ruleset follows_rules =
    (Follows-pure, Follows-fail, Follows-lift, Follows-wrap, Follows-try, Follows-if, Follows-bind)
