-- ===== src/Services/Errors.antt =====
-- csilservices/errors.go: the failures a caller may see.
use tinku.Prelude.{ℕ, String, Option, none, some, str_eq, if◌then◌else◌}
use tinku.Prelude.Result.{AppError, Error, app, err_not_found, err_limit_reached, internal}

abbrev pub code_invalid : ℕ
code_invalid = 1

abbrev pub code_unauthenticated : ℕ
code_unauthenticated = 2

abbrev pub code_forbidden : ℕ
code_forbidden = 3

abbrev pub code_not_found : ℕ
code_not_found = 4

abbrev pub code_unavailable : ℕ
code_unavailable = 5

abbrev pub invalid : String → String → Error
invalid field message =
    app (record { code = code_invalid; message = message; field = field; resource_type = "" })

abbrev pub unauthenticated : String → Error
unauthenticated message =
    app (record { code = code_unauthenticated; message = message; field = ""; resource_type = "" })

abbrev pub forbidden : String → Error
forbidden message =
    app (record { code = code_forbidden; message = message; field = ""; resource_type = "" })

abbrev pub not_found : String → String → Error
not_found resource_type message =
    app (record {
      code = code_not_found;
      message = message;
      field = "";
      resource_type = resource_type;
    })

abbrev pub unavailable : String → Error
unavailable message =
    app (record { code = code_unavailable; message = message; field = ""; resource_type = "" })

-- The wire type: an empty field or resource type is left out.
pub record ServiceError : Type 0 where
  pub code : ℕ
  pub message : String
  pub field : Option String
  pub resource_type : Option String

unfoldable pub service_error : AppError → ServiceError
service_error e = record {
  code = e.code;
  message = e.message;
  field = if str_eq e.field "" then none else some e.field;
  resource_type = if str_eq e.resource_type "" then none else some e.resource_type;
}

unfoldable pub as_app_error : Error → Option AppError
as_app_error (app e) = some e
as_app_error err_not_found = none
as_app_error err_limit_reached = none
as_app_error (internal m) = none
