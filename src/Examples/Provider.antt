-- ===== src/Examples/Provider.antt =====
-- Calls of the simulated provider, deliveries of its webhook, and answers of the model's cache.
use Prim.Native.String.{◌++◌ as ◌+++◌, slice}
use mathlib.Core.List.{append-nil}
use razorpay_buildathon.Base.{
  ℕ, String, true, false, ◌&&◌, ◌||◌, ◌≡◌, refl, sym, Option, none, some, List, [], ◌∷◌, any,
  update_where,
}
use razorpay_buildathon.Core.Json.{Value, Items, text, number, object, end, field}
use razorpay_buildathon.Core.Actions.{simulated}
use razorpay_buildathon.Engine.Executor.{
  AttemptRow, Tables, in_flight, is_in_flight, reconciled, settle_row, reconcile,
}
use razorpay_buildathon.Connectors.Adapter.{AdapterCall}
use razorpay_buildathon.Engine.Verifier.{Books}
use razorpay_buildathon.Connectors.SimulatedPsp.{LatentCustomer, default_latent, Psp, adapter}
use razorpay_buildathon.Connectors.SimulatedPsp.Recall.{
  Arrival, serve, carries, is_found, reconcile-serve,
}
use razorpay_buildathon.Connectors.Webhook.{
  NormalizedEvent, event, normalize, ingest_webhook, as_number, verify_webhook_signature,
}
use razorpay_buildathon.Console.WebhookRoute.{replied, handle_webhook, settle_if_paid, attempt_for}
use razorpay_buildathon.Console.WebhookRoute.Redelivery.{
  is_ok, handle_webhook_unsigned, handle_webhook_redelivered,
}
use razorpay_buildathon.Agents.CachedProvider.{
  ProviderRequest, ProviderResponse, Cache, low, key_for, complete,
}
use razorpay_buildathon.Agents.CachedProvider.Replay.{run, complete_replays}
use razorpay_buildathon.Examples.Text.{platform}
use razorpay_buildathon.Examples.Numbers.{thousandths}
use razorpay_buildathon.Examples.Money.{books}

abbrev to_number : Value → Option ℕ
to_number v = as_number (some v)

abbrev customers : List (String × LatentCustomer thousandths to_number)
customers = ("cust_1", default_latent thousandths to_number) ∷ []

abbrev link_call : AdapterCall
link_call = record {
  case_id = "case_1";
  obligation_id = "ob_1";
  customer_id = "cust_1";
  params = field "amount" (number 50000) end;
  idem_key = "key_1";
}

abbrev link : Arrival
link = record { at = 3; capability = "createPaymentLink"; call = link_call }

abbrev new_psp : Psp
new_psp = record { settled = []; rand = 20260902 }

abbrev sent_attempt : AttemptRow
sent_attempt = record {
  idem_key = "key_1";
  case_id = "case_1";
  obligation_id = "ob_1";
  action_id = "send_payment_link";
  attempt_no = 0;
  surface = simulated;
  state = in_flight;
  request = end;
  sent_at = 2;
  settled_at = none;
}

abbrev crashed_tables : Tables
crashed_tables = record {
  burns = [];
  attempts = sent_attempt ∷ record sent_attempt { idem_key = "key_2" } ∷ [];
  sent = [];
}

reconcile-serve_example :
    (reconcile
      (adapter thousandths to_number customers 9
        (serve thousandths to_number customers (link ∷ []) new_psp))
      9
      crashed_tables).attempts
    ≡ update_where
        (λ a.
          is_in_flight a
          && (any (carries thousandths to_number customers a.idem_key) (link ∷ [])
              || is_found a.idem_key new_psp))
        (settle_row reconciled 9)
        crashed_tables.attempts
reconcile-serve_example =
    reconcile-serve thousandths to_number customers (link ∷ []) new_psp 9 crashed_tables

abbrev delivery : Value
delivery = object (
    field "event" (text "payment.captured") (
      field "payload"
        (object (
          field "payment" (object (field "entity" (object (field "id" (text "pay_1") end)) end))
            end))
        end))

abbrev parse : String → Option Value
parse raw = some delivery

abbrev items_text : Items → String
items_text xs = ""

abbrev captured : NormalizedEvent
captured = normalize parse items_text platform "merchant_1" delivery

captured-ingested :
    ingest_webhook parse items_text platform "body" "secretbody" "secret" "merchant_1"
    ≡ event captured
unfolding ingest_webhook verify_webhook_signature
captured-ingested = refl

abbrev first_books : Books
first_books =
    (handle_webhook parse items_text platform "secret" "merchant_1" 5 "secretbody" (some "body")
      books).1

captured_acknowledged :
    is_ok
      (handle_webhook parse items_text platform "secret" "merchant_1" 5 "secretbody"
        (some "body")
        books).0
    ≡ true
unfolding handle_webhook ingest_webhook verify_webhook_signature settle_if_paid attempt_for
captured_acknowledged = refl

handle_webhook_redelivered_example :
    handle_webhook parse items_text platform "secret" "merchant_1" 8 "secretbody"
      (some "body")
      first_books
    ≡ (replied 200 "duplicate, already processed", first_books)
handle_webhook_redelivered_example =
    handle_webhook_redelivered parse items_text platform "secret" "merchant_1" 5 8 "secretbody"
      "secretbody" "body" "body" captured captured books first_books [] captured-ingested
      captured-ingested refl captured_acknowledged (sym (append-nil first_books.ledger))

forged : verify_webhook_signature platform "body" "forged" "secret" ≡ false
unfolding verify_webhook_signature
forged = refl

handle_webhook_unsigned_example :
    (is_ok
        (handle_webhook parse items_text platform "secret" "merchant_1" 5 "forged"
          (some "body")
          books).0
      ≡ false)
    × ((handle_webhook parse items_text platform "secret" "merchant_1" 5 "forged"
          (some "body")
          books).1
        ≡ books)
handle_webhook_unsigned_example =
    handle_webhook_unsigned parse items_text platform "secret" "merchant_1" 5 "forged" (some "body")
      books forged

abbrev question : ProviderRequest
question = record {
  role = "payment_diagnosis";
  instructions = "classify";
  input = "code 9";
  schema = object end;
  schema_name = "diagnosis_claim";
  schema_version = "1";
  model = "small";
  effort = low;
  cache_key = "payment_diagnosis:v1";
  timeout_ms = 8000;
}

abbrev reply : ProviderResponse
reply = record {
  value = text "insufficient_funds";
  provider = "model";
  model = "small";
  response_id = "r1";
  latency_ms = 700;
  usage = record { input_tokens = 90; output_tokens = 5; cached_input_tokens = 0 };
  validated = true;
}

abbrev empty_cache : Cache
empty_cache = record { rows = []; stats = record { hits = 0; misses = 0 } }

same_key : key_for platform (record question { timeout_ms = 100 }) ≡ key_for platform question
unfolding key_for
same_key = refl

complete_replays_example :
    (complete platform true "model" 9 none
      (record question { timeout_ms = 100 })
      (run platform "model"
        (record { at = 5; reply = some reply; req = record question { input = "code 8" } } ∷ [])
        (complete platform true "model" 3 (some reply) question empty_cache).1)).0
    ≡ some (record {
      value = reply.value;
      provider = "model(cached)";
      model = reply.model;
      response_id = "cache:" +++ slice (key_for platform question) 0 12;
      latency_ms = reply.latency_ms;
      usage = reply.usage;
      validated = true;
    })
complete_replays_example =
    complete_replays platform "model" 3 9 question (record question { timeout_ms = 100 }) reply
      empty_cache
      (record { at = 5; reply = some reply; req = record question { input = "code 8" } } ∷ []) none
      refl refl same_key
