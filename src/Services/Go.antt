-- ===== src/Services/Go.antt =====
-- What the services call of Go's own libraries: text functions, the timezone database, URLs.
use tinku.Prelude.{String, Bool, Option, List}

pub record GoLib : Type 0 where
  -- strings.TrimSpace, strings.ToLower, strings.EqualFold
  pub trim_space : String → String
  pub to_lower : String → String
  pub equal_fold : String → String → Bool
  -- strings.FieldsFunc(s, unicode.IsSpace)
  pub fields : String → List String
  -- strings.Join(parts, " \n")
  pub join : String → String → String
  -- time.LoadLocation gives no error
  pub known_timezone : String → Bool
  -- url.Parse: the scheme and the host, where it gives no error
  pub parse_url : String → Option (String × String)
