-- ===== src/Examples/Intake.antt =====
-- A failed payment and an abandoned checkout of one order, and what the customer answers.
use razorpay_buildathon.Base.{◌≡◌, refl, arith, true, false, none, [], ◌∷◌, ◌===◌, All, any}
use razorpay_buildathon.Core.Types.{payment_failure, checkout_abandonment}
use razorpay_buildathon.Core.StateMachine.{is_terminal, detected}
use razorpay_buildathon.Core.Events.{initial_revision}
use razorpay_buildathon.Engine.CaseManager.{OpenCaseRequest, Store, open_or_attach}
use razorpay_buildathon.Engine.CaseManager.Deduplication.{
  IsDeduplicated, store_of, open_or_attach-IsDeduplicated,
}
use razorpay_buildathon.Engine.CaseManager.Attachment.{IsFresh, Absorbed, open_or_attach_absorbs}
use razorpay_buildathon.Engine.IntentRouter.{
  IntentContext, IntentOutcome, Desk, open_promise, dispute, returned, route,
}
use razorpay_buildathon.Engine.IntentRouter.Meaning.{Means, route-Means}
use razorpay_buildathon.Engine.CheckoutWatcher.{SessionRow, abandoned}
use razorpay_buildathon.Engine.CheckoutWatcher.Conversion.{
  converts, touches, run, mark_converted_once,
}
use razorpay_buildathon.Examples.Text.{platform}
use razorpay_buildathon.Examples.Cases.{fresh_case, store, store-Projects}

abbrev failed : OpenCaseRequest
failed = record {
  case_id = "case_9";
  merchant_id = "merchant_1";
  customer_id = "customer_1";
  obligation_id = "ob_9";
  external_ref = "order_9";
  domain = payment_failure;
  amount_paise = 50000;
  due_at = 0;
  holdout = false;
}

abbrev abandonment : OpenCaseRequest
abandonment = record failed {
  case_id = "case_10";
  obligation_id = "ob_10";
  domain = checkout_abandonment;
}

abbrev intake : Store
intake = record { obligations = []; db = store }

intake-IsFresh : IsFresh failed intake
intake-IsFresh = record {
  unlogged = record { no_row = refl; no_event = tt; no_revision = tt };
  no_obligation = refl;
}

intake-IsDeduplicated : IsDeduplicated intake
intake-IsDeduplicated = record { one_key = λ m x. omega arith; one_open = λ ob. ground arith }

open_or_attach-IsDeduplicated_example : IsDeduplicated (store_of (open_or_attach 3 failed intake))
open_or_attach-IsDeduplicated_example =
    open_or_attach-IsDeduplicated 3 failed intake intake-IsDeduplicated

open_or_attach_absorbs_example : Absorbed 3 failed 1_200_003 abandonment intake
open_or_attach_absorbs_example =
    open_or_attach_absorbs 3 1_200_003 failed abandonment intake intake-IsFresh refl refl

abbrev desk : Desk
desk = record {
  books = record { attempts = []; obligations = []; settlements = []; db = store; ledger = [] };
  promises =
      record {
        id = "promise_1";
        case_id = "case_1";
        obligation_id = "ob_1";
        promised_at = 0;
        promised_for = 100;
        amount_paise = 50000;
        source = "customer_reply";
        state = open_promise;
        settled_at = none;
      }
      ∷ [];
}

abbrev reply : IntentContext
reply = record {
  case_id = "case_1";
  obligation_id = "ob_1";
  amount_paise = 50000;
  promised_for = none;
}

detected-IsRunning : is_terminal detected ≡ false
unfolding is_terminal
detected-IsRunning = refl

route-Means_example :
    (outcome : IntentOutcome) × (d' : Desk) × (route platform 172_800_000 7 "promise_2" dispute
        reply desk
      ≡ returned outcome d')
    × (d'.books.settlements ≡ [])
    × (d'.books.obligations ≡ [])
    × Means dispute 7 172_800_000 "promise_2" reply desk d'
route-Means_example =
    route-Means platform 172_800_000 7 "promise_2" dispute reply desk fresh_case
      (initial_revision "case_1") refl store-Projects detected-IsRunning

abbrev session : SessionRow
session = record {
  id = "session_1";
  merchant_id = "merchant_1";
  customer_id = "customer_1";
  external_ref = "order_9";
  amount_paise = 50000;
  last_stage = "payment";
  last_active_at = 0;
  completed_at = none;
  case_id = none;
}

session-waits : any (λ s. s.id === "session_1") (session ∷ []) ≡ true
session-waits = refl

mark_converted_once_example :
    All
      (λ a. (a.session_id === "session_1") ≡ false)
      (abandoned 1_200_000 9_000_000 [] (
        run
          (converts 1_200_000 1_200_001 "session_1" "case_10"
            ∷ touches 1_200_002 (record {
              session_id = "session_2";
              merchant_id = "merchant_1";
              customer_id = "customer_1";
              external_ref = "order_9";
              amount_paise = 50000;
              stage = "cart";
            })
            ∷ [])
          (session ∷ [])))
mark_converted_once_example =
    mark_converted_once 1_200_000 1_200_001 9_000_000 "session_1" "case_10" (session ∷ [])
      (touches 1_200_002 (record {
        session_id = "session_2";
        merchant_id = "merchant_1";
        customer_id = "customer_1";
        external_ref = "order_9";
        amount_paise = 50000;
        stage = "cart";
      })
        ∷ [])
      [] session-waits
