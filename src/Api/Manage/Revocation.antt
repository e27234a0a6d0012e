-- ===== src/Api/Manage/Revocation.antt =====
-- Revoking a service, and what it leaves.
use lockr.Base.{◌≡◌, ◌≢◌, ap, Bytes, codes, length, length-append, trim_prefix, inl, inr, arith}
use lockr.Keys.{service_path, totp_path}
use lockr.Result.{ok, Result-cases}
use lockr.Platform.{Platform}
use lockr.Platform.Laws.{StoreLaws}
use lockr.Storage.Db as Db
use lockr.Storage.Sealed.{Stored, Missing, delete_effect}
use lockr.Auth.Challenge.{delete_service}
use lockr.Api.{status_is}
use lockr.Api.Site.{HttpRequest, Site, SiteState}
use lockr.Api.Manage.{failed, handle_revoke}

service_path-ne-totp_path : (name : Bytes) → service_path name ≢ totp_path name
unfolding service_path totp_path
service_path-ne-totp_path name e =
    let lengths = ap length e in
    absurd (
      omega (
        arith,
        length-append (codes "auth/services/") name,
        length-append (codes "auth/services/totp/") name,
      ))

-- After a successful revocation of a service the record of its key is gone, and a record for
-- one-time passwords of the same name is still there.
pub handle_revoke-totp :
    (p : Platform) (store : StoreLaws p) (c : Site) (h : HttpRequest) (name stored : Bytes)
    (s s' : SiteState p)
    → trim_prefix h.url_path (codes "/v1/sys/revoke/") ≡ name
    → Stored p s.auth.world.db (totp_path name) stored
    → handle_revoke p c h s ≡ (record { status = 200; reply = status_is (codes "revoked") }, s')
    → Missing p s'.auth.world.db (service_path name)
      × Stored p s'.auth.world.db (totp_path name) stored
unfolding handle_revoke delete_service failed
handle_revoke-totp p store c h name stored s s' named here done =
    let w = s.auth.world in
    let run : Db.delete p (service_path name) w ≡ (ok tt, s'.auth.world) = deleted in
    let (gone, others) = delete_effect p store (service_path name) w s'.auth.world run in
    (gone, λ t. rw (others t (totp_path name) (service_path-ne-totp_path name)) (here t))
  where
    deleted : Db.delete p (service_path name) s.auth.world ≡ (ok tt, s'.auth.world)
    deleted =
        elim (Result-cases
          (Db.delete p (service_path (trim_prefix h.url_path (codes "/v1/sys/revoke/")))
            s.auth.world).0) [
              | inl (u, e) ↦ rw (← named) (ground arith)
              | inr (x, e) ↦ ground arith
            ]
