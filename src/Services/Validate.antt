-- ===== src/Services/Validate.antt =====
-- `validateEvent` of csilservices/events.go, `searchText` and `locationSearchParts` of text.go, and
-- `validateOrganizationText` of organizations.go.
pub mod Rules
use tinku.Prelude.{
  Bool, true, false, Option, none, some, ◌||◌, leb, ◌==◌, is_some, ℕ, String, List, [], ◌∷◌, not,
  ◌&&◌, str_eq, ltb, if◌then◌else◌,
}
use tinku.Prelude.Int.{ℤ, pos, negsuc}
use tinku.Prelude.Result.{Result, ok, err}
use tinku.Store.Model.{Location, EventInput, location_is_zero}
use tinku.Store.Series.{
  Recurrence, freq_weekly, freq_monthly, freq_quarterly, freq_yearly, time_weekday,
}
use tinku.Services.Errors.{invalid}
use tinku.Services.Go.{GoLib}
use tinku.Services.Text.{rune_count, word_count, is_web_url}

abbrev pub max_title_runes : ℕ
max_title_runes = 200

abbrev pub max_description_runes : ℕ
max_description_runes = 10000

abbrev pub max_name_runes : ℕ
max_name_runes = 120

abbrev pub max_blurb_words : ℕ
max_blurb_words = 300

module _ (go : GoLib) where
  unfoldable pub join_parts : List String → String
  join_parts [] = ""
  join_parts (p ∷ []) = p
  join_parts (p ∷ q ∷ ps) = go.join p (join_parts (q ∷ ps))

  unfoldable pub search_text : List String → String
  search_text parts = go.to_lower (join_parts parts)

  unfoldable pub location_search_parts : Location → List String
  location_search_parts l =
      l.name ∷ l.address ∷ l.locality ∷ l.region ∷ l.postal_code ∷ l.country ∷ []

  -- The checks in the code's order; the input comes back with its search text.
  unfoldable pub validate_event : EventInput → Result EventInput
  validate_event in_ =
      if str_eq in_.title ""
      then err (invalid "title" "an event needs a title")
      else if ltb max_title_runes (rune_count in_.title)
      then err (invalid "title" "a title is at most 200 characters")
      else if ltb max_description_runes (rune_count in_.description)
      then err (invalid "description" "a description is at most 10000 characters")
      else if not in_.is_online && not in_.is_in_person
      then err (invalid "is_online" "an event is online, in person, or both")
      else if in_.is_in_person && location_is_zero in_.location
      then err (invalid "location" "an in-person event needs a location")
      else if not (str_eq in_.online_url "") && not (is_web_url go in_.online_url)
      then err (invalid "online_url" "an online link is an http or https URL")
      else if ltb in_.ends_at in_.starts_at
      then err (invalid "ends_at" "an event cannot end before it starts")
      else if not (go.known_timezone in_.timezone)
      then err (invalid "timezone" "unknown timezone")
      else ok (record in_ {
        search_text =
            search_text (in_.title ∷ in_.description ∷ location_search_parts in_.location);
      })

abbrev bad_rule {ℓ} : {A : Type ℓ} → String → Result A
bad_rule message = err (invalid "recurrence" message)

-- `validateRecurrence` of events.go, from the `switch` on.
abbrev check_freq : Recurrence → Result (Unit {0})
check_freq r =
    if str_eq r.freq freq_weekly
    then if is_some r.weekday then ok tt else bad_rule "a weekly rule needs a weekday"
    else if str_eq r.freq freq_monthly || str_eq r.freq freq_quarterly || str_eq r.freq freq_yearly
    then if not (is_some r.weekday) && not (is_some r.day_of_month)
      then bad_rule "this rule needs a weekday with an ordinal, or a day of the month"
      else if is_some r.weekday && not (is_some r.ordinal)
      then bad_rule "a weekday rule over months or longer needs an ordinal"
      else ok tt
    else bad_rule "a frequency is weekly, monthly, quarterly or yearly"

abbrev known_weekday : Option String → Bool
known_weekday none = true
known_weekday (some w) = is_some (time_weekday w)

-- 1 to 5, or -1; and 1 to 31.
abbrev known_ordinal : Option ℤ → Bool
known_ordinal none = true
known_ordinal (some (pos n)) = ltb 0 n && leb n 5
known_ordinal (some (negsuc n)) = n == 0

abbrev pub known_day : Option ℤ → Bool
known_day none = true
known_day (some (pos n)) = ltb 0 n && leb n 31
known_day (some (negsuc n)) = false

abbrev is_positive : ℤ → Bool
is_positive (pos n) = ltb 0 n
is_positive (negsuc n) = false

abbrev check_parts : Recurrence → Result (Unit {0})
check_parts r =
    if not (known_weekday r.weekday)
    then bad_rule "unknown weekday"
    else if not (known_ordinal r.ordinal)
    then bad_rule "an ordinal is 1 to 5, or -1 for the last"
    else if not (known_day r.day_of_month)
    then bad_rule "a day of the month is 1 to 31"
    else if not (is_positive r.interval)
    then bad_rule "an interval is 1 or more"
    else ok tt

abbrev then_check : Result (Unit {0}) → Result (Unit {0}) → Result (Unit {0})
then_check (ok t) rest = rest
then_check (err e) rest = err e

unfoldable pub validate_recurrence : Recurrence → Result (Unit {0})
validate_recurrence r = then_check (check_freq r) (check_parts r)

-- The three text fields of an organization or a gathering.
pub record OwnText : Type 0 where
  pub name : String
  pub blurb : String
  pub description : String

-- The fields, trimmed, or the first rule that they break.
unfoldable pub check_text : GoLib → OwnText → Result OwnText
check_text go t =
    if str_eq t.name ""
    then err (invalid "name" "an organization needs a name")
    else if ltb max_name_runes (rune_count t.name)
    then err (invalid "name" "a name is at most 120 characters")
    else if ltb max_blurb_words (word_count go t.blurb)
    then err (invalid "blurb" "a blurb is at most 300 words")
    else if ltb max_description_runes (rune_count t.description)
    then err (invalid "description" "a description is at most 10000 characters")
    else ok t

unfoldable pub validate_organization_text : GoLib → String → String → String → Result OwnText
unfolding check_text
validate_organization_text go name blurb description = check_text go (record {
  name = go.trim_space name;
  blurb = go.trim_space blurb;
  description = go.trim_space description;
})
