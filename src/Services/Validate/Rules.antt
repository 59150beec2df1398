-- ===== src/Services/Validate/Rules.antt =====
-- What `validateEvent` accepts.
use tinku.Prelude.{true, false, ◌≡◌, ◌↔◌, ◌≤◌, arith, str_eq, ◌||◌}
use tinku.Prelude.Result.{ok, is_ok}
use tinku.Store.Model.{EventInput, location_is_zero}
use tinku.Services.Go.{GoLib}
use tinku.Services.Text.{rune_count, is_web_url}
use tinku.Services.Validate.{validate_event, max_title_runes, max_description_runes}

-- The rules that the schema cannot state, in no order.
pub record IsValidEvent (go : GoLib) (e : EventInput) : Type 0 where
  pub titled : str_eq e.title "" ≡ false
  pub title_short : rune_count e.title ≤ max_title_runes
  pub description_short : rune_count e.description ≤ max_description_runes
  pub somewhere : (e.is_online || e.is_in_person) ≡ true
  pub located : e.is_in_person ≡ true → location_is_zero e.location ≡ false
  pub linked : (str_eq e.online_url "" || is_web_url go e.online_url) ≡ true
  pub ordered : e.starts_at ≤ e.ends_at
  pub zoned : go.known_timezone e.timezone ≡ true

module _ (go : GoLib) (e : EventInput) where
  validate_event_sound : is_ok (validate_event go e) ≡ true → IsValidEvent go e
  unfolding validate_event
  validate_event_sound h = ground arith

  validate_event_complete : IsValidEvent go e → is_ok (validate_event go e) ≡ true
  unfolding validate_event
  validate_event_complete v = ground (arith, v.located)

  -- Validation accepts exactly the inputs that meet every rule, and hands an accepted one on with
  -- nothing but its search text changed.
  pub validate_event_exact :
      (out : EventInput)
      → (is_ok (validate_event go e) ≡ true ↔ IsValidEvent go e)
        × (validate_event go e ≡ ok out → out ≡ record e { search_text = out.search_text })
  unfolding validate_event
  validate_event_exact out = ((validate_event_sound, validate_event_complete), λ h. ground arith)
