-- ===== src/Envelope.antt =====
-- app/core/errors.py: the envelope that every error response has, and its status. The message of an
-- exception and the details of a validation error are those of FastAPI.
use nexus_ai.Base.{ℕ, Option, none, some, [], ◌∷◌, if◌then◌else◌, leb, nat_eq}
use nexus_ai.Base.Dict
use nexus_ai.Base.Dict.{Dict}
use nexus_ai.Base.Text.{Text, codes}

abbrev pub status_codes : Dict ℕ Text
status_codes =
    (400, codes "bad_request")
    ∷ (401, codes "unauthorized")
    ∷ (403, codes "forbidden")
    ∷ (404, codes "not_found")
    ∷ (405, codes "method_not_allowed")
    ∷ (409, codes "conflict")
    ∷ (422, codes "validation_error")
    ∷ (429, codes "rate_limited")
    ∷ []

unfoldable pub code_for : ℕ → Text
unfolding Dict.lookup
code_for status = elim (Dict.lookup status status_codes) [
  | some code ↦ code
  | none ↦ if leb 500 status then codes "server_error" else codes "http_error"
]

-- `error_body`
pub record Envelope : Type 0 where
  pub code : Text
  pub message : Text
  pub request_id : Option Text
  pub details : Option Text

-- What reaches the three handlers.
pub data Failure : Type 0 where
  http : ℕ → Text → Failure
  validation : Text → Failure
  unhandled : Failure

-- The status and the body of the response.
unfoldable pub status_of : Option Text → Failure → ℕ × Envelope
unfolding code_for
status_of request_id (http status detail) = (
  status,
  record { code = code_for status; message = detail; request_id = request_id; details = none },
)
status_of request_id (validation errors) = (
  422,
  record {
    code = codes "validation_error";
    message = codes "Request validation failed";
    request_id = request_id;
    details = some errors;
  },
)
status_of request_id unhandled = (
  500,
  record {
    code = codes "server_error";
    message = codes "Internal server error";
    request_id = request_id;
    details = none;
  },
)
