-- ===== src/Examples/Contact.antt =====
-- A contact under a policy, the token it gets, and what the agents propose for it.
use razorpay_buildathon.Base.{◌≡◌, ◌≢◌, refl, ◌↔◌, String, none, some, [], ◌∷◌, All, count, arith}
use razorpay_buildathon.Core.Types.{card, upi_autopay}
use razorpay_buildathon.Core.Json.{Params, end, field, text, object}
use razorpay_buildathon.Core.Actions.{ActionDef, Found, get}
use razorpay_buildathon.Core.Capability.{
  CapabilityToken, Minter, MintInput, mint, verify, hash_params,
}
use razorpay_buildathon.Core.Capability.Admission.{Admits, verify_iff, verify-mint}
use razorpay_buildathon.Core.Capability.Blindness.{verify_blind}
use razorpay_buildathon.Core.Policy.{
  ContactCap, Policy, allowed, cap_for, global_cap, action_allowed_on_rail, in_quiet_hours,
  in_window, in_window?, to_minutes, local_minutes,
}
use razorpay_buildathon.Engine.PolicyEngine.{
  EvaluationContext, Store, authorize, conclude, evaluate, budget_exhausted, consume_contact_budget,
  usage, first_spent, channel_of, mint_input, string_of,
}
use razorpay_buildathon.Engine.PolicyEngine.Evaluation.{Permits}
use razorpay_buildathon.Engine.PolicyEngine.Decision.{
  token_of, call_of, authorize_mints_iff, authorize-verify,
}
use razorpay_buildathon.Engine.PolicyEngine.Budget.{WithinCap, consume_contact_budget-WithinCap}
use razorpay_buildathon.Engine.MandateSequencer.{MandateFacts, active, sequence}
use razorpay_buildathon.Engine.MandateSequencer.Notice.{
  RespectsNotice, is_debit, one_if, sequence-RespectsNotice,
}
use razorpay_buildathon.Examples.Text.{platform, texts_apart}
use razorpay_buildathon.Examples.Loading.{library, link}

abbrev sms_cap : ContactCap
sms_cap = record { channel = "sms"; window_days = 1; max = 2 }

abbrev any_cap : ContactCap
any_cap = record { channel = "*"; window_days = 7; max = 3 }

abbrev policy : Policy
policy = record {
  version = "v1";
  merchant = "shop";
  quiet_hours = record { start = "21:00"; end = "08:00"; timezone = "Asia/Kolkata" };
  contact_caps = sms_cap ∷ any_cap ∷ [];
  max_attempts_per_case = 3;
  require_approval_above_paise = 500000;
  allowed_actions = (card, "send_payment_link" ∷ []) ∷ [];
}

abbrev context : EvaluationContext
context = record {
  case_id = "case_1";
  obligation_id = "ob_1";
  customer_id = "cust_1";
  rail = card;
  action_id = "send_payment_link";
  params = field "channel" (text "sms") end;
  attempt_no = 0;
  amount_paise = some 1000;
  opted_out = none;
}

abbrev empty_store : Store
empty_store = record { budgets = []; decisions = []; tokens = [] }

abbrev pub minter : Minter
minter = record { key = "key"; ttl_ms = 120000 }

authorize_mints_iff_example :
    (token_of (authorize platform policy library minter 1000 "n1" context empty_store).0 ≢ none) ↔ (
      (action : ActionDef) × (get library "send_payment_link" ≡ Found.ok action)
      × Permits platform policy 1000 [] context action)
authorize_mints_iff_example =
    authorize_mints_iff platform policy library minter 1000 "n1" context empty_store

abbrev token : CapabilityToken
token = mint platform minter 1000 "n1" (mint_input platform policy context link allowed)

authorized :
    token_of (authorize platform policy library minter 1000 "n1" context empty_store).0 ≡ some token
unfolding authorize conclude evaluate get action_allowed_on_rail in_quiet_hours in_window? in_window
    to_minutes local_minutes budget_exhausted first_spent usage cap_for global_cap channel_of
    string_of
authorized = refl

authorize-verify_example : verify platform minter 2000 token (call_of context) ≡ none
authorize-verify_example =
    authorize-verify platform policy library minter 1000 2000 "n1" context empty_store token
      (omega arith) authorized

abbrev pub call_input : MintInput
call_input = record {
  case_id = "case_1";
  obligation_id = "ob_1";
  action_id = "send_payment_link";
  params_hash = "hash";
  attempt_no = 0;
  amount_cap_paise = some 1000;
  policy_version = "v1";
  rule_id = "R-500";
}

verify_iff_example :
    (verify platform minter 2000 (mint platform minter 1000 "n1" call_input) (call_of context)
      ≡ none)
    ↔ Admits platform minter 2000 (mint platform minter 1000 "n1" call_input) (call_of context)
verify_iff_example =
    verify_iff platform minter 2000 (mint platform minter 1000 "n1" call_input) (call_of context)

-- The parameters of a templated message, with the amount that the template shows.
abbrev message : String → Params
message amount = field "slots" (object (field "amount" (text amount) end)) end

abbrev message_input : MintInput
message_input = record call_input { params_hash = hash_params platform (message "100") }

abbrev message_token : CapabilityToken
message_token = mint platform minter 1000 "n2" message_input

message-admitted :
    verify platform minter 2000 message_token
      (record { action_id = "send_payment_link"; params = message "100"; amount_paise = none })
    ≡ none
message-admitted =
    verify-mint platform minter 1000 2000 "n2" message_input
      (record { action_id = "send_payment_link"; params = message "100"; amount_paise = none })
      (omega arith) refl refl refl

verify_blind_example :
    verify platform minter 2000 message_token
      (record { action_id = "send_payment_link"; params = message "999"; amount_paise = none })
    ≡ none
verify_blind_example =
    verify_blind platform minter 2000 message_token "send_payment_link" none "slots" "amount"
      (text "100") (text "999") refl message-admitted

sms-apart : ◌≢◌ {A = String} "sms" "*"
sms-apart = texts_apart "sms" "*" refl

budget-free : budget_exhausted policy 1000 [] "cust_1" "sms" ≡ none
unfolding budget_exhausted first_spent usage cap_for global_cap
budget-free = refl

consume_contact_budget-WithinCap_example :
    WithinCap 1000
      (consume_contact_budget policy 1000 "cust_1" "sms" [])
      "cust_1"
      (cap_for policy "sms")
    × WithinCap 1000
        (consume_contact_budget policy 1000 "cust_1" "sms" [])
        "cust_1"
        (global_cap policy)
consume_contact_budget-WithinCap_example =
    consume_contact_budget-WithinCap policy 1000 "cust_1" "sms" [] sms-apart budget-free

abbrev mandate : MandateFacts
mandate = record {
  rail = upi_autopay;
  state = active;
  cap_paise = some 5000;
  amount_paise = 1000;
  pre_debit_notified_at = some 10;
  attempt_no = 0;
  next_presentation_at = none;
}

sequence-RespectsNotice_example :
    All (RespectsNotice 20 mandate) (sequence 20 mandate).steps
    × (count is_debit (sequence 20 mandate).steps ≡ one_if (sequence 20 mandate).permitted)
sequence-RespectsNotice_example = sequence-RespectsNotice 20 mandate
