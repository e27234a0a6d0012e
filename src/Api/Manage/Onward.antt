-- ===== src/Api/Manage/Onward.antt =====
-- The handlers of users and of the system write the records of what they manage, and nothing else.
use lockr.Base.{◌≡◌, false, Option, none, some, Bytes, has_prefix}
use lockr.Keys.{user_path, admin_path, service_path, totp_path}
use lockr.Result.{Result, ok, err, Exec}
use lockr.Platform.{Platform, World}
use lockr.Platform.Laws.{StoreLaws}
use lockr.Storage.Frame.{Spares, Spares-ask, frame_rules}
use lockr.Auth.Admin.Spares as Admin
use lockr.Auth.User.Spares as User
use lockr.Auth.Totp.Spares as Totp
use lockr.Auth.Challenge.Spares as Challenge
use lockr.Audit.{Logger}
use lockr.Audit.Onward.{query-Spares}
use lockr.Auth.Totp.{generate_secret}
use lockr.Api.Site.{HttpRequest, Site, in_world}
use lockr.Api.Site.Onward.{Advances, Advances-on_result, Advances-in_world, advances_rules}
use lockr.Api.Manage.{
  failed, create_decoded, handle_user_create, handle_user_list, handle_user_delete, update_decoded,
  handle_user_update, handle_health, handle_status, enroll_ed25519, enroll_totp, enroll_decoded,
  handle_enroll, handle_revoke, audit_query, handle_audit, create_admin, handle_admin_create,
  handle_admin_delete, handle_policy_reload,
}

module _ (p : Platform) (c : Site) (area : Bytes) (h : HttpRequest) where
  pub handle_health-Advances : Advances p area c.files (handle_health p c h)
  unfolding handle_health failed
  handle_health-Advances = search (advances_rules, frame_rules)

  pub handle_status-Advances : Advances p area c.files (handle_status p c h)
  unfolding handle_status failed
  handle_status-Advances = search (advances_rules, frame_rules)

  pub handle_policy_reload-Advances : Advances p area c.files (handle_policy_reload p c h)
  unfolding handle_policy_reload failed
  handle_policy_reload-Advances = search advances_rules

  audit_query-Advances : (l : Option Logger) → Advances p area c.files (audit_query p c h l)
  unfolding audit_query failed
  audit_query-Advances none = search advances_rules
  audit_query-Advances (some l) = search (advances_rules, query-Spares p area l)

  pub handle_audit-Advances : Advances p area c.files (handle_audit p c h)
  unfolding handle_audit
  handle_audit-Advances = search audit_query-Advances

  pub handle_user_list-Advances : Advances p area c.files (handle_user_list p c h)
  unfolding handle_user_list failed
  handle_user_list-Advances = search (advances_rules, User.list-Spares p c.users area)

  module _ (store : StoreLaws p) where
    module _ (out : (name : Bytes) → has_prefix (user_path name) area ≡ false) where
      create_decoded-Advances :
          (r : Result (Bytes × (Bytes × Bytes))) → Advances p area c.files (create_decoded p c h r)
      unfolding create_decoded failed
      create_decoded-Advances (err e) = search advances_rules
      create_decoded-Advances (ok (username, (password, policy))) =
          search (advances_rules, User.create-Spares p c.users area store out)

      pub handle_user_create-Advances : Advances p area c.files (handle_user_create p c h)
      unfolding handle_user_create
      handle_user_create-Advances = search create_decoded-Advances

      pub handle_user_delete-Advances : Advances p area c.files (handle_user_delete p c h)
      unfolding handle_user_delete failed
      handle_user_delete-Advances =
          search (advances_rules, User.delete-Spares p c.users area store out)

      update_decoded-Advances :
          (change : Bytes → Exec (World p) (Unit {0})) (text : Bytes) (r : Result Bytes)
          → ((value : Bytes) → Spares p area (change value))
          → Advances p area c.files (update_decoded p c h change text r)
      unfolding update_decoded failed
      update_decoded-Advances change text (err e) spares = search advances_rules
      update_decoded-Advances change text (ok value) spares = search (advances_rules, spares)

      pub handle_user_update-Advances : Advances p area c.files (handle_user_update p c h)
      unfolding handle_user_update
      handle_user_update-Advances = search (
        advances_rules,
        update_decoded-Advances,
        User.change_policy-Spares p c.users area store out,
        User.change_password-Spares p c.users area store out,
      )

    module _ (out : (name : Bytes) → has_prefix (service_path name) area ≡ false) where
      pub handle_revoke-Advances : Advances p area c.files (handle_revoke p c h)
      unfolding handle_revoke failed
      handle_revoke-Advances =
          search (advances_rules, Challenge.delete_service-Spares p area c.services store out)

      enroll_ed25519-Advances :
          (service policy : Bytes) → Advances p area c.files (enroll_ed25519 p c h service policy)
      unfolding enroll_ed25519 failed
      enroll_ed25519-Advances service policy =
          search
            (
              advances_rules,
              Spares-ask p area,
              Challenge.register_service-Spares p area c.services store out,
            )
            depth 9

      module _ (out_totp : (name : Bytes) → has_prefix (totp_path name) area ≡ false) where
        enroll_totp-Advances :
            (service policy : Bytes) → Advances p area c.files (enroll_totp p c h service policy)
        unfolding enroll_totp failed
        enroll_totp-Advances service policy =
            Advances-on_result p area c.files _ _ (in_world p (generate_secret p c.totps))
              (λ e. search advances_rules)
              (λ secret.
                search (advances_rules, Totp.register_totp-Spares p c.totps area store out_totp))
              (Advances-in_world p area c.files _ (Totp.generate_secret-Spares p c.totps area))

        enroll_decoded-Advances :
            (r : Result (Bytes × (Bytes × Bytes)))
            → Advances p area c.files (enroll_decoded p c h r)
        unfolding enroll_decoded
        enroll_decoded-Advances (err e) = search advances_rules
        enroll_decoded-Advances (ok (service, (auth_method, policy))) =
            search (advances_rules, enroll_ed25519-Advances, enroll_totp-Advances)

        pub handle_enroll-Advances : Advances p area c.files (handle_enroll p c h)
        unfolding handle_enroll
        handle_enroll-Advances = search enroll_decoded-Advances

    module _ (out : (name : Bytes) → has_prefix (admin_path name) area ≡ false) where
      create_admin-Advances :
          (r : Result (Bytes × Bytes)) → Advances p area c.files (create_admin p c h r)
      unfolding create_admin failed
      create_admin-Advances (err e) = search advances_rules
      create_admin-Advances (ok (name, policy)) =
          search (advances_rules, Admin.create-Spares p c.admins area store out)

      pub handle_admin_create-Advances : Advances p area c.files (handle_admin_create p c h)
      unfolding handle_admin_create
      handle_admin_create-Advances = search create_admin-Advances

      pub handle_admin_delete-Advances : Advances p area c.files (handle_admin_delete p c h)
      unfolding handle_admin_delete failed
      handle_admin_delete-Advances =
          search (advances_rules, Admin.delete-Spares p c.admins area store out)
