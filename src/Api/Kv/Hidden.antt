-- ===== src/Api/Kv/Hidden.antt =====
-- Secrets whose path ends in "/versions": they can be written, but a GET of the path reads the list of
-- the versions of another one.
use lockr.Base.{Bool-cases, ◌≡◌, ◌≢◌, true, codes, has_suffix, trim_suffix, inl, inr, arith}
use lockr.Result.{Result-cases}
use lockr.Platform.{Platform, World}
use lockr.Secrets.Kv as Kv
use lockr.Secrets.Kv.{KvEntry, KvStore, versions}
use lockr.Api.{Request, Server, entry_is, permitted}
use lockr.Api.Kv.{KvInput, kv_name, kv_get}

module _ (p : Platform) (kv : KvStore) (input : KvInput) (s : Server) (r : Request) where
  -- A GET of a path under /v1/secrets/kv/ that ends in "/versions" is never answered with an entry,
  -- whatever is stored under that path.
  pub kv_get_versions :
      (w : World p) (e : KvEntry)
      → has_suffix (kv_name r.url_path) (codes "/versions") ≡ true
      → (kv_get p kv input s r w).0.reply ≢ entry_is e
  unfolding kv_get permitted
  kv_get_versions w e versions' h =
      elim (Bool-cases (has_suffix (kv_name r.url_path) (codes "/"))) [
        | inl dir ↦ elim (Result-cases (Kv.list p (kv_name r.url_path) w).0) [
          | inl (ks, q) ↦ ground arith
          | inr (x, q) ↦ ground arith
        ]
        | inr file ↦
            elim (Result-cases
              (versions p kv (trim_suffix (kv_name r.url_path) (codes "/versions")) w).0) [
                | inl (vs, q) ↦ ground arith
                | inr (x, q) ↦ ground arith
              ]
      ]
