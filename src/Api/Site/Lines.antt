-- ===== src/Api/Site/Lines.antt =====
-- Handlers that leave the file of the audit log alone.
use lockr.Base.{◌≡◌, refl, ◌∙◌, inl, inr}
use lockr.Result.{Error, Exec, Result-cases}
use lockr.Platform.{Platform, World}
use lockr.Api.{Response}
use lockr.Api.Site.{SiteState, Action, in_world, on_result}

module _ (p : Platform) where
  -- A method that leaves the file of the audit log.
  abbrev pub Keeps : {A : Type 0} → (SiteState p → A × SiteState p) → Type 0
  Keeps m = (s : SiteState p) → (m s).1.lines ≡ s.lines

  pub on_result-Keeps :
      {A : Type 0} (failed : Error → Action p) (done : A → Action p) (m : Exec (SiteState p) A)
      → ((e : Error) → Keeps (failed e))
      → ((a : A) → Keeps (done a))
      → Keeps m
      → Keeps (on_result p failed done m)
  on_result-Keeps failed done m f d k s = elim (Result-cases (m s).0) [
    | inl (a, e) ↦ rw e (d a (m s).1 ∙ k s)
    | inr (x, e) ↦ rw e (f x (m s).1 ∙ k s)
  ]

  -- A call of the database, and then one of two responses.
  pub plain-Keeps :
      {A : Type 0} (failed : Error → Response) (done : A → Response) (m : Exec (World p) A)
      → Keeps (on_result p (λ e s. (failed e, s)) (λ a s. (done a, s)) (in_world p m))
  plain-Keeps failed done m =
      on_result-Keeps _ _ (in_world p m) (λ e s. refl) (λ a s. refl) (λ s. refl)
