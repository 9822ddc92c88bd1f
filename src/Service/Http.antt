-- ===== src/Service/Http.antt =====
-- What a handler of the service may raise: FastAPI's `HTTPException`, and the errors of the code that
-- it calls and does not catch.
use authz.Base.{ℕ, String, List, []}
use authz.Policies.Value.{str, Fields, end, field, PyError}
use authz.Security.SigningKeys.{KeyError}

pub record HttpException : Type 0 where
  pub status_code : ℕ
  pub detail : Fields
  pub headers : List (String × String)

pub data Raised : Type 0 where
  http : HttpException → Raised
  python : PyError → Raised
  not_signed : String → Raised
  no_key : KeyError → Raised

-- `HTTPException(status_code=…, detail={…})`
abbrev pub http_error : ℕ → Fields → Raised
http_error status_code detail =
    http (record { status_code = status_code; detail = detail; headers = [] })

abbrev pub one_field : String → String → Fields
one_field key text = field key (str text) end
