-- ===== src/Api/Manage/Lines.antt =====
-- The handlers of users and of the system leave the file of the audit log alone.
use lockr.Base.{
  [], ◌||◌, refl, Bool-cases, inl, inr, Option, none, some, Bytes, codes, ◌==◌, has_suffix,
}
use lockr.Result.{Result, ok, err, Exec, Result-cases}
use lockr.Platform.{Platform, World, now}
use lockr.Policy.{load_all}
use lockr.Auth.User as User
use lockr.Auth.Admin as Admin
use lockr.Auth.Challenge.{register_service, delete_service}
use lockr.Auth.Totp.{register_totp}
use lockr.Audit.{Logger, query}
use lockr.Api.Site.{HttpRequest, Site, in_engine}
use lockr.Api.Site.Lines.{Keeps, on_result-Keeps, plain-Keeps}
use lockr.Api.Manage.{
  failed, create_decoded, handle_user_create, handle_user_list, handle_user_delete, update_decoded,
  handle_user_update, handle_status, enroll_ed25519, enroll_totp, enroll_decoded, handle_enroll,
  handle_revoke, audit_query, handle_audit, create_admin, handle_admin_create, handle_admin_delete,
  handle_policy_reload, query_options, user_name,
}

module _ (p : Platform) (c : Site) (h : HttpRequest) where
  pub handle_user_create-Keeps : Keeps p (handle_user_create p c h)
  unfolding handle_user_create create_decoded failed
  handle_user_create-Keeps s = elim (Result-cases (c.input.decode_user h.body)) [
    | inr (x, e) ↦ rw e refl
    | inl ((username, (password, policy)), e) ↦
        elim (Bool-cases (username == [] || password == [] || policy == [])) [
          | inl y ↦ rw e (rw y refl)
          | inr n ↦
              rw e (rw n (plain-Keeps p _ _ (User.create p c.users username password policy) s))
        ]
  ]

  pub handle_user_list-Keeps : Keeps p (handle_user_list p c h)
  unfolding handle_user_list failed
  handle_user_list-Keeps = plain-Keeps p _ _ (User.list p c.users)

  update_decoded-Keeps :
      (change : Bytes → Exec (World p) (Unit {0})) (text : Bytes) (r : Result Bytes)
      → Keeps p (update_decoded p c h change text r)
  unfolding update_decoded failed
  update_decoded-Keeps change text (err e) s = refl
  update_decoded-Keeps change text (ok v) s = elim (Bool-cases (v == [])) [
    | inl y ↦ rw y refl
    | inr n ↦ rw n (plain-Keeps p _ _ (change v) s)
  ]

  enroll_ed25519-Keeps : (service policy : Bytes) → Keeps p (enroll_ed25519 p c h service policy)
  unfolding enroll_ed25519 failed
  enroll_ed25519-Keeps service policy =
      on_result-Keeps p _ _ _ (λ e s. refl)
        (λ keys. plain-Keeps p _ _ (register_service p c.services _)) (λ s. refl)

  enroll_totp-Keeps : (service policy : Bytes) → Keeps p (enroll_totp p c h service policy)
  unfolding enroll_totp failed
  enroll_totp-Keeps service policy =
      on_result-Keeps p _ _ _ (λ e s. refl)
        (λ secret. plain-Keeps p _ _ (register_totp p c.totps _)) (λ s. refl)

  pub handle_enroll-Keeps : Keeps p (handle_enroll p c h)
  unfolding handle_enroll enroll_decoded
  handle_enroll-Keeps s = elim (Result-cases (c.input.decode_enrollment h.body)) [
    | inr (x, e) ↦ rw e refl
    | inl ((service, (method, policy)), e) ↦ elim (Bool-cases (service == [] || policy == [])) [
      | inl y ↦ rw e (rw y refl)
      | inr n ↦ elim (Bool-cases (method == [] || method == codes "ed25519")) [
        | inl ed ↦ rw e (rw n (rw ed (enroll_ed25519-Keeps service policy s)))
        | inr other ↦ elim (Bool-cases (method == codes "totp")) [
          | inl to ↦ rw e (rw n (rw other (rw to (enroll_totp-Keeps service policy s))))
          | inr bad ↦ rw e (rw n (rw other (rw bad refl)))
        ]
      ]
    ]
  ]

  pub handle_user_delete-Keeps : Keeps p (handle_user_delete p c h)
  unfolding handle_user_delete failed
  handle_user_delete-Keeps = plain-Keeps p _ _ (User.delete p c.users _)

  pub handle_user_update-Keeps : Keeps p (handle_user_update p c h)
  unfolding handle_user_update
  handle_user_update-Keeps s =
      elim (Bool-cases (has_suffix (user_name p c h h.url_path) (codes "/policy"))) [
        | inl y ↦ rw y (update_decoded-Keeps _ _ _ s)
        | inr n ↦ elim (Bool-cases (has_suffix (user_name p c h h.url_path) (codes "/password"))) [
          | inl y ↦ rw n (rw y (update_decoded-Keeps _ _ _ s))
          | inr m ↦ rw n (rw m refl)
        ]
      ]

  pub handle_status-Keeps : Keeps p (handle_status p c h)
  unfolding handle_status failed
  handle_status-Keeps = plain-Keeps p _ _ (now p)

  pub handle_revoke-Keeps : Keeps p (handle_revoke p c h)
  unfolding handle_revoke failed
  handle_revoke-Keeps = plain-Keeps p _ _ (delete_service p c.services _)

  pub handle_audit-Keeps : Keeps p (handle_audit p c h)
  unfolding handle_audit audit_query failed
  handle_audit-Keeps = of c.audit_log
    where
      of : (l : Option Logger) → Keeps p (audit_query p c h l)
      of none s = refl
      of (some l) s = plain-Keeps p _ _ (query p l (query_options p c h)) s

  pub handle_admin_create-Keeps : Keeps p (handle_admin_create p c h)
  unfolding handle_admin_create create_admin failed
  handle_admin_create-Keeps s = elim (Result-cases (c.input.decode_admin h.body)) [
    | inr (x, e) ↦ rw e refl
    | inl ((name, policy), e) ↦ elim (Bool-cases (name == [])) [
      | inl y ↦ rw e (rw y refl)
      | inr n ↦ rw e (rw n (plain-Keeps p _ _ (Admin.create p c.admins name _) s))
    ]
  ]

  pub handle_admin_delete-Keeps : Keeps p (handle_admin_delete p c h)
  unfolding handle_admin_delete failed
  handle_admin_delete-Keeps = plain-Keeps p _ _ (Admin.delete p c.admins _)

  pub handle_policy_reload-Keeps : Keeps p (handle_policy_reload p c h)
  unfolding handle_policy_reload failed
  handle_policy_reload-Keeps =
      on_result-Keeps p _ _ (in_engine p (λ t. load_all (c.files t))) (λ e s. refl) (λ u s. refl)
        (λ s. refl)
