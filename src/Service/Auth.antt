-- ===== src/Service/Auth.antt =====
-- The authentication of requests (crates/vergil-service/src/auth.rs).
use vergil.Prelude.{String, not, Option, if◌then◌else◌, Result, ok, err, ◌>>=◌, ok_or}
use vergil.Prelude.Chars.{Text, codes, eqb, strip_prefix}

pub data AuthError : Type 0 where
  missing_header malformed rejected : AuthError

pub record AuthIdentity : Type 0 where
  pub tenant_id : String

pub record AuthProvider : Type 0 where
  pub authenticate : Option Text → Result AuthError AuthIdentity

pub record SingleTokenAuth : Type 0 where
  pub expected : Text
  pub tenant_id : String

unfoldable pub new : Text → SingleTokenAuth
new expected = record { expected = expected; tenant_id = "internal" }

unfoldable pub with_tenant_id : String → SingleTokenAuth → SingleTokenAuth
with_tenant_id tenant auth = record auth { tenant_id = tenant }

unfoldable pub authenticate : SingleTokenAuth → Option Text → Result AuthError AuthIdentity
authenticate auth auth_header = ok_or auth_header missing_header >>= λ header.
    ok_or (strip_prefix (codes "Bearer ") header) malformed >>= λ token.
    if not (eqb token auth.expected) then err rejected else ok record { tenant_id = auth.tenant_id }

unfoldable pub provider : SingleTokenAuth → AuthProvider
provider auth = record { authenticate = authenticate auth }
