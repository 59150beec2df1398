-- ===== src/Examples/Services.antt =====
-- The handlers in the small instance of `World`.
use tinku.Prelude.{
  ap, inl, Bool-cases, ℕ, suc, ltb, if◌then◌else◌, any, Bool, String, true, false, [], ◌∷◌, none,
  some, ◌≡◌, ◌↔◌, ◌⊎◌, inr, refl, str_eq, arith,
}
use tinku.Prelude.Result.{Result, ok, err, is_ok}
use tinku.Store.Model.{
  Organization, EventInput, publish_in, no_location, organization_role_owner,
  organization_role_member,
}
use tinku.Webhooks.Change.{action_deleted}
use tinku.Services.Publish.{resolve_publish, organization_level, gathering_level}
use tinku.Services.Publish.Levels.{Decides, resolve_publish_most_specific}
use tinku.Services.Text.{slugify, write_slug, trim}
use tinku.Services.Validate.{validate_event}
use tinku.Services.Validate.Rules.{IsValidEvent, validate_event_exact}
use tinku.Services.Events.{
  UpdateEventRequest, CreateEventRequest, get_event, update_event, create_event, delete_event,
  attend_event, unattend_event, notify_event, publish,
}
use tinku.Services.Events.Lock.{Refused, Withholds, started_event_frozen, answers_withhold}
use tinku.Services.Events.Authority.{Standing, delete_event_by_rule}
use tinku.Services.Gatherings.{
  OwnerRefInput, UpdateGatheringRequest, update_gathering, delete_gathering, add_gathering_owner,
  remove_gathering_owner,
}
use tinku.Services.Gatherings.Guards.{gathering_only_by}
use tinku.Services.Organizations.{
  UpdateOrganizationRequest, delete_organization, set_organization_member,
  remove_organization_member,
}
use tinku.Services.Organizations.Roster.{organization_only_by, last_owner_keeps}
use tinku.Store.Model.{
  GatheringOffer, offer_accepted, OwnerRef, owner_kind_user, owner_kind_organization,
}
use tinku.Services.Gatherings.{owner_ref, GatheringService}
use tinku.Services.Offers.{respond_to_gathering_offer, withdraw_gathering_offer, adopt_gathering}
use tinku.Services.Offers.Answers.{
  offers_only_by, adopt_gathering_only_by, respond_keeps_answer, KeepsOffer,
}
use tinku.Services.Webhooks.{
  CreateWebhookRequest, UpdateWebhookRequest, list_webhooks, create_webhook, update_webhook,
  delete_webhook,
}
use tinku.Services.Webhooks.Owners.{Manages, ManagesWebhook, webhooks_only_by}
use tinku.Services.Convert.{PublishDecision}
use tinku.Examples.World.{
  webhooks, ann, bob, club, games, soon, past, offer, stale_offer, settings, go, events, gatherings,
  organizations,
}

-- The gathering says neither; one of its organizations says in and the other out.
abbrev quiet : Organization
quiet = record club { id = "quiet"; publish_events = publish_in }

resolve_publish_most_specific_example :
    Decides settings games (quiet ∷ club ∷ []) false "organization"
unfolding resolve_publish organization_level gathering_level any
resolve_publish_most_specific_example =
    resolve_publish_most_specific settings games (quiet ∷ club ∷ [])

abbrev evening : EventInput
evening = record {
  gathering_id = "games";
  series_id = none;
  title = "Chess";
  description = "bring a board";
  search_text = "Chess";
  is_online = true;
  is_in_person = false;
  online_url = "https://chess";
  location = no_location;
  starts_at = 900;
  ends_at = 950;
  timezone = "UTC";
}

validate_event_exact_example :
    (is_ok (validate_event go evening) ≡ true ↔ IsValidEvent go evening)
    × (validate_event go evening ≡ ok evening
        → evening ≡ record evening { search_text = evening.search_text })
validate_event_exact_example = validate_event_exact go evening evening

abbrev rename : String → UpdateEventRequest
rename id = record {
  id = id;
  title = some "Go";
  description = none;
  is_online = none;
  is_in_person = none;
  online_url = none;
  location = none;
  starts_at = none;
  ends_at = none;
  timezone = none;
}

abbrev schedule : CreateEventRequest
schedule = record {
  gathering_id = "games";
  title = "Chess";
  description = "";
  is_online = true;
  is_in_person = false;
  online_url = none;
  location = none;
  starts_at = 900;
  ends_at = 950;
  timezone = "UTC";
}

started_event_frozen_example :
    Refused (update_event events ann (rename "past") 7) 7
    × Refused (attend_event events ann "past" 7) 7
    × Refused (unattend_event events ann "past" 7) 7
started_event_frozen_example =
    started_event_frozen events ann 7 "past" (rename "past") past refl refl (ground arith)

answers_withhold_example :
    Withholds 500 (get_event events bob "past" 7)
    × Withholds 500 (update_event events bob (rename "past") 7)
    × Withholds 500 (create_event events bob schedule 7)
    × Withholds 500 (attend_event events bob "past" 7)
    × Withholds 500 (unattend_event events bob "past" 7)
answers_withhold_example = answers_withhold events bob "past" (rename "past") schedule 7

abbrev ann_at_soon : Standing events ann 7 "soon"
ann_at_soon = record {
  event = soon;
  access = record { is_member = true; is_owner = true };
  organizer = false;
  presenter = false;
  loaded = refl;
  accessed = refl;
  roles = refl;
}

delete_event_by_rule_example :
    delete_event events ann "soon" 7
    ≡ (ok tt, notify_event events action_deleted soon (publish events soon true 8))
delete_event_by_rule_example =
    (delete_event_by_rule events ann 7 "soon" ann_at_soon 8 refl).0 refl refl

abbrev bob_at_soon : Standing events bob 7 "soon"
bob_at_soon = record {
  event = soon;
  access = record { is_member = true; is_owner = false };
  organizer = false;
  presenter = false;
  loaded = refl;
  accessed = refl;
  roles = refl;
}

abbrev renamed : EventInput
renamed = record evening { title = "Go"; search_text = "Go" }

abbrev in_house : PublishDecision
in_house = record { publishing = false; source = "organization"; can_override = true }

abbrev rename_gathering : UpdateGatheringRequest
rename_gathering = record {
  id = "games";
  name = some "Play";
  blurb = none;
  description = none;
  publish_events = none;
}

abbrev as_club : OwnerRefInput
as_club = record { kind = "organization"; id = "club" }

gathering_only_by_example :
    Refused (update_gathering gatherings bob rename_gathering 7) 7
    × Refused (add_gathering_owner gatherings bob "games" as_club 7) 7
    × Refused (remove_gathering_owner gatherings bob "games" as_club 7) 7
    × ((str_eq "bob" "" ≡ true) ⊎ (false ≡ false)
        → Refused (delete_gathering gatherings bob "games" 7) 7)
gathering_only_by_example =
    gathering_only_by gatherings bob 7 "games" games (record { is_member = true; is_owner = false })
      as_club rename_gathering refl refl refl (inr refl)

abbrev rename_organization : UpdateOrganizationRequest
rename_organization = record {
  id = "club";
  name = some "Circle";
  blurb = none;
  description = none;
  publish_events = none;
}

organization_only_by_example : Refused (delete_organization organizations ann "club" 7) 7
organization_only_by_example =
    (organization_only_by organizations ann 7 "club" club organization_role_owner true "bob"
        organization_role_member rename_organization refl refl refl refl).1
      refl

last_owner_keeps_example :
    Refused (set_organization_member organizations ann "club" "ann" organization_role_member 7) 7
    × Refused (remove_organization_member organizations ann "club" "ann" 7) 7
last_owner_keeps_example =
    last_owner_keeps organizations ann 7 "club" club "ann" organization_role_owner refl refl refl
      (ground arith)

offers_only_by_example :
    ((str_eq bob.id "" ≡ false)
        × (true ≡ true)
        × (str_eq organization_role_member organization_role_owner ≡ true)
      ⊎ Refused (respond_to_gathering_offer gatherings bob "offer" true 7) 7)
    × ((str_eq bob.id "" ≡ false) × (false ≡ true)
        ⊎ Refused (withdraw_gathering_offer gatherings bob "offer" 7) 7)
offers_only_by_example =
    offers_only_by gatherings bob 7 "offer" true offer organization_role_member true
      (record { is_member = true; is_owner = false }) refl refl refl

adopt_gathering_only_by_example :
    (str_eq ann.id "" ≡ false)
      × (ann.is_admin ≡ true)
      × (((adopt_gathering gatherings ann "games" "club" 7).1
            ≡ (gatherings.store.add_gathering_owner "games"
                (owner_ref owner_kind_organization "club")
                7).1)
          ⊎ Refused (adopt_gathering gatherings ann "games" "club" 7) 7)
    ⊎ Refused (adopt_gathering gatherings ann "games" "club" 7) 7
adopt_gathering_only_by_example = adopt_gathering_only_by gatherings ann 7 "games" "club"

-- A store that gives the offer as answered once the answer is written.
abbrev accepted_offer : GatheringOffer
accepted_offer = record stale_offer { status = offer_accepted }

abbrev answering : GatheringService ℕ
answering = record gatherings {
  store = record gatherings.store {
    gathering_offer_by_id = λ id s. ok (if ltb s 8 then stale_offer else accepted_offer);
  };
}

is_answered : Result GatheringOffer → Bool
is_answered (ok o) = str_eq o.status offer_accepted
is_answered (err e) = false

stays_answered :
    (t : ℕ)
    → ok (if ltb t 8 then stale_offer else accepted_offer) ≡ ok accepted_offer
    → ok (if ltb (suc t) 8 then stale_offer else accepted_offer) ≡ ok accepted_offer
unfolding is_answered
stays_answered t h = elim (Bool-cases (ltb t 8)) [
  | inl y ↦ let e : false ≡ true = ap is_answered (rw y at h) in absurd cc
  | inr n ↦ let later : ltb (suc t) 8 ≡ false = ground (arith, n) in rw later refl
]

answering-KeepsOffer : KeepsOffer answering stale_offer accepted_offer
answering-KeepsOffer = record {
  owner = λ owner t h. stays_answered t h;
  member = λ user role t h. stays_answered t h;
}

-- The gathering of the offer is gone.
respond_keeps_answer_example :
    ok (
      if ltb (respond_to_gathering_offer answering ann "stale" true 7).1 8
      then stale_offer
      else accepted_offer)
    ≡ ok accepted_offer
respond_keeps_answer_example =
    respond_keeps_answer answering stale_offer accepted_offer answering-KeepsOffer ann "stale" 7 8
      refl refl refl refl refl

abbrev all_taken : String → Bool
all_taken s = true

abbrev bob_ref : OwnerRef
bob_ref = owner_ref owner_kind_user "bob"

abbrev ann_ref : OwnerRef
ann_ref = owner_ref owner_kind_user "ann"

abbrev add_hook : CreateWebhookRequest
add_hook = record {
  owner_kind = "gathering";
  owner_id = "games";
  url = "https://there";
  scope = "all";
  note = "";
  include_details = true;
}

abbrev change_hook : UpdateWebhookRequest
change_hook = record {
  id = "hook";
  url = none;
  scope = none;
  note = none;
  active = some false;
  include_details = none;
}

webhooks_only_by_example :
    (Manages webhooks bob 7 "gathering" "games"
      ⊎ Refused (list_webhooks webhooks bob "gathering" "games" 7) 7)
    × (Manages webhooks bob 7 add_hook.owner_kind add_hook.owner_id
        ⊎ Refused (create_webhook webhooks bob add_hook 7) 7)
    × (ManagesWebhook webhooks bob 7 change_hook.id
        ⊎ Refused (update_webhook webhooks bob change_hook 7) 7)
    × (ManagesWebhook webhooks bob 7 "hook" ⊎ Refused (delete_webhook webhooks bob "hook" 7) 7)
webhooks_only_by_example =
    webhooks_only_by webhooks bob 7 "gathering" "games" add_hook change_hook "hook"

-- Test: what comes of a name, and of a taken one.
slugify_test : slugify go "board  games!" ≡ "board-games"
unfolding slugify write_slug trim
slugify_test = refl
