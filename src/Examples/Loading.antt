-- ===== src/Examples/Loading.antt =====
-- A library of actions, a taxonomy and a table of playbooks as they are loaded.
use razorpay_buildathon.Base.{◌≡◌, ◌<◌, refl, true, false, none, some, [], ◌∷◌}
use razorpay_buildathon.Core.Types.{payment_failure, card}
use razorpay_buildathon.Core.Actions.{
  ActionDef, ActionLibrary, RawAction, RawDefaults, LoadedLibrary, Found, capability_kind,
  simulated, to_action, load_actions, check_action, parse_action_library, get,
}
use razorpay_buildathon.Core.Taxonomy.{
  DeclineEntry, DeclineTaxonomy, Classification, LoadedTaxonomy, hard, classify, classify_entry,
  parse_taxonomy, load_entries, check_entry,
}
use razorpay_buildathon.Core.Playbooks.{
  Playbook, PlaybookTable, LoadedTable, across, plan_for, parse_playbooks, load_playbooks,
  check_playbook, check_steps,
}
use razorpay_buildathon.Core.Playbooks.Plans.{IsRunnable}
use razorpay_buildathon.Engine.Tier0.{
  Tier0Resolver, Tier0Input, resolved, resolve, resolve_classified,
}
use razorpay_buildathon.Engine.Tier0.Resolution.{resolve_safe}

abbrev pub raw_link : RawAction
raw_link = record {
  id = "send_payment_link";
  kind = capability_kind;
  capability = some "createPaymentLink";
  surface = none;
  rails = none;
  amount_capped = some true;
  consumes_contact_budget = some true;
  quiet_hours_enforced = some true;
  requires_approval = none;
  optimizer_selectable = none;
  action_cost_paise = some 200;
  p_recover_default = none;
  p_recover_by_cause = none;
  stop_conditions = none;
}

abbrev pub defaults : RawDefaults
defaults = record { requires_approval = none; surface = none }

abbrev pub link : ActionDef
link = record {
  id = "send_payment_link";
  kind = capability_kind;
  capability = some "createPaymentLink";
  surface = simulated;
  rails = none;
  amount_capped = true;
  consumes_contact_budget = true;
  quiet_hours_enforced = true;
  requires_approval = false;
  optimizer_selectable = true;
  action_cost_paise = 200;
  p_recover_default = none;
  p_recover_by_cause = [];
  stop_conditions = [];
}

abbrev pub library : ActionLibrary
library = record { version = 1; actions = link ∷ []; forbidden = [] }

library-loads : parse_action_library 1 defaults (raw_link ∷ []) [] ≡ LoadedLibrary.ok library
unfolding parse_action_library load_actions check_action to_action
library-loads = refl

pub link-found : get library "send_payment_link" ≡ Found.ok link
unfolding get
link-found = refl

abbrev expired_card : DeclineEntry
expired_card = record {
  rail = card;
  code = "CARD_EXPIRED";
  cause = "card_expired";
  hardness = hard;
  retry_eligible = false;
  retry_ceiling = 0;
  confidence = 98;
  rule_id = "T-1";
}

abbrev pub taxonomy : DeclineTaxonomy
taxonomy = record { version = 1; entries = expired_card ∷ [] }

abbrev expired : Classification
expired = record {
  cause = "card_expired";
  confidence = 98;
  rule_id = "T-1";
  hardness = hard;
  retry_eligible = false;
  retry_ceiling = 0;
  retry_permitted = false;
}

taxonomy-loads : parse_taxonomy 1 (expired_card ∷ []) ≡ LoadedTaxonomy.ok taxonomy
unfolding parse_taxonomy load_entries check_entry
taxonomy-loads = refl

expired-classified : classify taxonomy card "CARD_EXPIRED" 0 ≡ some expired
unfolding classify classify_entry
expired-classified = refl

abbrev ask_card : Playbook
ask_card = record {
  domain = across;
  cause = "card_expired";
  rule_id = "P-1";
  steps = record { action_id = "send_payment_link" } ∷ [];
  stop_conditions = [];
}

abbrev table : PlaybookTable
table = record { version = 1; playbooks = ask_card ∷ [] }

table-loads : parse_playbooks library 1 (ask_card ∷ []) ≡ LoadedTable.ok table
unfolding parse_playbooks load_playbooks check_playbook check_steps get
table-loads = refl

ask_card-planned : plan_for table payment_failure "card_expired" ≡ some ask_card
unfolding plan_for
ask_card-planned = refl

abbrev pub resolver : Tier0Resolver
resolver = record { taxonomy = taxonomy; playbooks = table; min_confidence = 75 }

abbrev failed_card : Tier0Input
failed_card = record {
  domain = payment_failure;
  rail = card;
  code = "CARD_EXPIRED";
  attempt_no = 0;
}

failed_card-resolved : resolve resolver failed_card ≡ resolved expired ask_card
unfolding resolve resolve_classified classify classify_entry plan_for
failed_card-resolved = refl

resolve_safe_example :
    IsRunnable library ask_card
    × (expired.retry_eligible ≡ true → failed_card.attempt_no < expired.retry_ceiling)
resolve_safe_example =
    resolve_safe library 1 (ask_card ∷ []) resolver failed_card expired ask_card table-loads
      failed_card-resolved
