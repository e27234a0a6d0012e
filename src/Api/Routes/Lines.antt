-- ===== src/Api/Routes/Lines.antt =====
-- What a request behind the authentication leaves in the audit log.
use lockr.Base.{[]}
use lockr.Result.{Result, ok, err}
use lockr.Platform.{Platform}
use lockr.Api.Authenticate.{Access, unauthorized}
use lockr.Api.Site.{Site}

-- The decision of the authentication, which never ends in an error.
pub access_of : Result Access → Access
access_of (ok access) = access
access_of (err e) = unauthorized []
