-- ===== src/Api/Routes/Folders.antt =====
-- The folders of the database that a request may write, by its route.
use lockr.Base.{◌≡◌, refl, true, List, [], ◌∷◌, Bytes, codes}
use lockr.Keys.Folders.{clash, all_clash}
use lockr.Api.Mux.{Routed, moved, not_found, found, route}
use lockr.Api.Site.{HttpRequest, Site}
use lockr.Api.Routes.{
  Inner, logout, whoami, kv, transit, status, enroll, revoke, audit, admin_create, admin_delete,
  policy_reload, users, user, Outer, health, challenge, verify, totp, admin_login, user_login,
  authed, inner_routes, outer_routes,
}

abbrev pub sessions_folder : Bytes
sessions_folder = codes "auth/sessions/"

abbrev pub audit_folder : Bytes
audit_folder = codes "audit/"

abbrev pub written_by : Inner → List Bytes
written_by logout = []
written_by whoami = []
written_by kv = codes "secrets/kv/" ∷ []
written_by transit = codes "secrets/transit/" ∷ []
written_by status = []
written_by enroll = codes "auth/services/" ∷ []
written_by revoke = codes "auth/services/" ∷ []
written_by audit = []
written_by admin_create = codes "auth/admins/" ∷ []
written_by admin_delete = codes "auth/admins/" ∷ []
written_by policy_reload = []
written_by users = codes "auth/users/" ∷ []
written_by user = codes "auth/users/" ∷ []

abbrev pub written_behind : Routed Inner → List Bytes
written_behind (moved to) = []
written_behind not_found = []
written_behind (found r) = written_by r

-- Behind the authentication every request may write sessions and the audit log.
abbrev pub written_at : Site → HttpRequest → Outer → List Bytes
written_at c h health = []
written_at c h challenge = audit_folder ∷ []
written_at c h verify = sessions_folder ∷ audit_folder ∷ []
written_at c h totp = sessions_folder ∷ audit_folder ∷ []
written_at c h admin_login = sessions_folder ∷ audit_folder ∷ []
written_at c h user_login = sessions_folder ∷ audit_folder ∷ []
written_at c h authed =
    sessions_folder
    ∷ audit_folder
    ∷ written_behind (route c.clean_path c.unescape h.route_path inner_routes)

abbrev pub written_through : Site → HttpRequest → Routed Outer → List Bytes
written_through c h (moved to) = []
written_through c h not_found = []
written_through c h (found r) = written_at c h r

unfoldable pub written_folders : Site → HttpRequest → List Bytes
written_folders c h = written_through c h (route c.clean_path c.unescape h.route_path outer_routes)

-- No route writes under a name that is none of a folder's.
abbrev pub nowhere : Bytes
nowhere = codes "_"

written_by-nowhere : (r : Inner) → all_clash (written_by r) nowhere ≡ true
unfolding all_clash clash
written_by-nowhere logout = refl
written_by-nowhere whoami = refl
written_by-nowhere kv = refl
written_by-nowhere transit = refl
written_by-nowhere status = refl
written_by-nowhere enroll = refl
written_by-nowhere Inner.revoke = refl
written_by-nowhere audit = refl
written_by-nowhere admin_create = refl
written_by-nowhere admin_delete = refl
written_by-nowhere policy_reload = refl
written_by-nowhere users = refl
written_by-nowhere user = refl

written_behind-nowhere : (r : Routed Inner) → all_clash (written_behind r) nowhere ≡ true
unfolding all_clash
written_behind-nowhere (moved to) = refl
written_behind-nowhere not_found = refl
written_behind-nowhere (found r) = written_by-nowhere r

written_at-nowhere :
    (c : Site) (h : HttpRequest) (r : Outer) → all_clash (written_at c h r) nowhere ≡ true
unfolding all_clash clash
written_at-nowhere c h health = refl
written_at-nowhere c h challenge = refl
written_at-nowhere c h verify = refl
written_at-nowhere c h totp = refl
written_at-nowhere c h admin_login = refl
written_at-nowhere c h user_login = refl
written_at-nowhere c h authed =
    written_behind-nowhere (route c.clean_path c.unescape h.route_path inner_routes)

written_through-nowhere :
    (c : Site) (h : HttpRequest) (r : Routed Outer)
    → all_clash (written_through c h r) nowhere ≡ true
unfolding all_clash
written_through-nowhere c h (moved to) = refl
written_through-nowhere c h not_found = refl
written_through-nowhere c h (found r) = written_at-nowhere c h r

pub written_folders-nowhere :
    (c : Site) (h : HttpRequest) → all_clash (written_folders c h) nowhere ≡ true
unfolding written_folders
written_folders-nowhere c h =
    written_through-nowhere c h (route c.clean_path c.unescape h.route_path outer_routes)
