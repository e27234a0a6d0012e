-- ===== src/Api/Site/Onward.antt =====
-- What the methods of the server do to the records outside some folders, to the file of the audit log and
-- to the policies.
use lockr.Base.{
  if◌then◌else◌, true, ℕ, ◌≡◌, refl, inl, inr, Bool, false, Option, none, some, Bytes, has_prefix,
}
use lockr.Result.{Error, Exec, Result-cases}
use lockr.Result.Follows.{IsPreorder, Follows}
use lockr.Platform.{Platform, World}
use lockr.Platform.Laws.{StoreLaws}
use lockr.Policy.{Files, load_all}
use lockr.Policy.Reload.{IsLoaded, IsLoaded-trans, load_all-IsLoaded}
use lockr.Storage.Frame.{Frame, Spares, Frame-IsPreorder}
use lockr.Auth.Challenge.{AuthState}
use lockr.Auth.Challenge.Spares as Challenge
use lockr.Audit.{Logger, audit_key}
use lockr.Audit.Onward as Log
use lockr.Audit.Onward.{IsExtended, IsExtended-refl, IsExtended-trans, FileLaws}
use lockr.Api.{Reply, Handler}
use lockr.Api.Site.{
  HttpRequest, Context, Site, SiteState, Action, entry_of, reply_with, on_world, in_world, in_auth,
  in_engine, on_result, write_log, logged, log_auth_attempt,
}
use lockr.Api.Authenticate.{Caller}

-- The file law of the audit log, if there is one.
abbrev pub FileLaw : Option Logger → Type 0
FileLaw none = Unit
FileLaw (some l) = FileLaws l

module _ (p : Platform) (area : Bytes) (files : ℕ → Files) where
  -- The records under the prefix stay, the file of the audit log only grows, and new policies are
  -- those that the files of the directory declare at the time of a load.
  pub record Onward (s t : SiteState p) : Type 0 where
    pub frame : Frame p area s.auth.world t.auth.world
    pub lines : IsExtended s.lines t.lines
    pub engine : IsLoaded files s.engine t.engine

  pub site_order : IsPreorder Onward
  site_order = record {
    here = λ s. record {
      frame = (Frame-IsPreorder p area).here s.auth.world;
      lines = IsExtended-refl s.lines;
      engine = inl refl;
    };
    along = λ s t u a b. record {
      frame =
          (Frame-IsPreorder p area).along s.auth.world t.auth.world u.auth.world a.frame b.frame;
      lines = IsExtended-trans s.lines t.lines u.lines a.lines b.lines;
      engine = IsLoaded-trans files s.engine t.engine u.engine a.engine b.engine;
    };
  }

  -- A method of the server, with any answer.
  abbrev pub Advances : {X : Type 0} → (SiteState p → X × SiteState p) → Type 0
  Advances m = Follows Onward m

  pub Advances-reply_with : (status : ℕ) (reply : Reply) → Advances (reply_with p status reply)
  Advances-reply_with status reply = record { at = site_order.here }

  pub Advances-on_result :
      {A : Type 0} (failed : Error → Action p) (done : A → Action p) (m : Exec (SiteState p) A)
      → ((e : Error) → Advances (failed e))
      → ((a : A) → Advances (done a))
      → Advances m
      → Advances (on_result p failed done m)
  Advances-on_result failed done m hf hd hm = record {
    at = λ s. elim (Result-cases (m s).0) [
      | inl (a, e) ↦
          rw e (site_order.along s (m s).1 (done a (m s).1).1 (hm.at s) ((hd a).at (m s).1))
      | inr (x, e) ↦
          rw e (site_order.along s (m s).1 (failed x (m s).1).1 (hm.at s) ((hf x).at (m s).1))
    ];
  }

  on_world_at :
      (s : SiteState p) (w : World p)
      → Frame p area s.auth.world w
      → Onward s (record s { auth = record s.auth { world = w } })
  on_world_at s w h = record { frame = h; lines = IsExtended-refl s.lines; engine = inl refl }

  pub Advances-in_world :
      {A : Type 0} (m : Exec (World p) A) → Spares p area m → Advances (in_world p m)
  Advances-in_world m h = record { at = λ s. on_world_at s (m s.auth.world).1 (h.at s.auth.world) }

  pub Advances-on_world : (m : Handler p) → Follows (Frame p area) m → Advances (on_world p m)
  Advances-on_world m h = record { at = λ s. on_world_at s (m s.auth.world).1 (h.at s.auth.world) }

  pub Advances-in_auth :
      {A : Type 0} (m : Exec (AuthState p) A) → Challenge.Keeps p area m → Advances (in_auth p m)
  Advances-in_auth m h = record {
    at = λ s. record { frame = h.at s.auth; lines = IsExtended-refl s.lines; engine = inl refl };
  }

  pub Advances-load_all : Advances (in_engine p (λ t. load_all (files t)))
  Advances-load_all = record {
    at = λ s. record {
      frame = λ t j h. refl;
      lines = IsExtended-refl s.lines;
      engine = load_all-IsLoaded files s.auth.world.tick s.engine;
    };
  }

  pub Advances-if :
      (b : Bool) (m n : Action p) → Advances m → Advances n → Advances (if b then m else n)
  Advances-if true m n hm hn = hm
  Advances-if false m n hm hn = hn

  pub ruleset advances_rules = (
    Advances-reply_with, Advances-on_result, Advances-in_world, Advances-on_world, Advances-in_auth,
    Advances-load_all, Advances-if,
  )

  module _ (store : StoreLaws p)
      (out : (time id : Bytes) → has_prefix (audit_key time id) area ≡ false) where
    write_log-Onward :
        (l : Logger)
        → FileLaws l
        → (h : HttpRequest) (ctx : Context) (who : Caller) (status : Bytes) (s : SiteState p)
        → Onward s (write_log p l h ctx who status s)
    unfolding write_log
    write_log-Onward l file h ctx who status s =
        let done = (Log.log-Onward p area l store file out (entry_of h ctx who status _ _)).at _ in
        record { frame = done.frame; lines = done.lines; engine = inl refl }

    pub logged-Onward :
        (log : Option Logger)
        → FileLaw log
        → (h : HttpRequest) (ctx : Context) (who : Caller) (status : Bytes) (s : SiteState p)
        → Onward s (logged p log h ctx who status s)
    unfolding logged
    logged-Onward none file h ctx who status s = site_order.here s
    logged-Onward (some l) file h ctx who status s = write_log-Onward l file h ctx who status s

    pub log_auth_attempt-Advances :
        (c : Site)
        → FileLaw c.audit_log
        → (h : HttpRequest) (ctx : Context) (identity method status : Bytes) (next : Action p)
        → Advances next
        → Advances (log_auth_attempt p c h ctx identity method status next)
    unfolding log_auth_attempt
    log_auth_attempt-Advances c file h ctx identity method status next hn = record {
      at = λ s. site_order.along s _ _ (logged-Onward c.audit_log file h ctx _ status s) (hn.at _);
    }
