-- ===== src/Webhooks/Change.antt =====
-- `webhooks.Change` and `webhooks.Details` of webhooks/webhooks.go.
use tinku.Prelude.{ℕ, String, Bool, Option, List}
use tinku.Prelude.Int.{ℤ}

abbrev pub action_created : String
action_created = "created"

abbrev pub action_updated : String
action_updated = "updated"

abbrev pub action_cancelled : String
action_cancelled = "cancelled"

abbrev pub action_deleted : String
action_deleted = "deleted"

abbrev pub subject_organization : String
subject_organization = "organization"

abbrev pub subject_gathering : String
subject_gathering = "gathering"

abbrev pub subject_event : String
subject_event = "event"

abbrev pub subject_series : String
subject_series = "series"

-- The rule of a series; `RuleDetails` is `webhooks.Recurrence`.
pub record RuleDetails : Type 0 where
  pub freq : String
  pub interval : ℤ
  pub ordinal : Option ℤ
  pub weekday : String
  pub day_of_month : Option ℤ
  pub start_time : String
  pub timezone : String

-- `webhooks.Location`: the postal half of a location.
pub record Place : Type 0 where
  pub name : String
  pub address : String
  pub locality : String
  pub region : String
  pub postal_code : String
  pub country : String

pub record Details : Type 0 where
  pub description : String
  pub blurb : String
  pub starts_at : Option ℕ
  pub ends_at : Option ℕ
  pub timezone : String
  pub is_online : Bool
  pub is_in_person : Bool
  pub online_url : String
  pub location : Option Place
  pub recurrence : Option RuleDetails

pub record Change : Type 0 where
  pub action : String
  pub subject : String
  pub id : String
  pub name : String
  pub gathering_id : String
  pub organization_ids : List String
  pub details : Option Details
  pub at : ℕ
