-- ===== src/Examples/Calls.antt =====
-- Executions under the lease of an obligation.
use razorpay_buildathon.Base.{
  ℕ, ◌≡◌, ◌≢◌, ◌≤◌, refl, ◌⊎◌, String, true, false, some, [], ◌∷◌, count, arith, get_or,
}
use razorpay_buildathon.Core.Json.{end}
use razorpay_buildathon.Core.Actions.{ActionDef, simulated}
use razorpay_buildathon.Core.Capability.{mint}
use razorpay_buildathon.Engine.ObligationLease.{try_acquire}
use razorpay_buildathon.Engine.ObligationLease.Exclusion.{
  Holds, acquires, releases, lease_excludes, run as run_leases,
}
use razorpay_buildathon.Engine.Executor.{
  ExecuteRequest, Tables, execute, under_lease, idempotency_key,
}
use razorpay_buildathon.Connectors.Adapter.{Adapter}
use razorpay_buildathon.Engine.Executor.Admission.{Admitted, execute-cases}
use razorpay_buildathon.Engine.Executor.SingleUse.{
  sent_with_nonce, sent_with_key, executes, reconciles, run, run_single_use,
}
use razorpay_buildathon.Examples.Text.{platform, texts_apart}
use razorpay_buildathon.Examples.Loading.{library}
use razorpay_buildathon.Examples.Contact.{minter, call_input}

abbrev adapter : Adapter
adapter = record {
  name = "simulated";
  surface = simulated;
  capabilities = "createPaymentLink" ∷ [];
  answer = (λ capability call token. some (record { ok = true }));
  finds = (λ key. true);
}

abbrev request : ExecuteRequest
request = record {
  case_id = "case_1";
  obligation_id = "ob_1";
  customer_id = "cust_1";
  action_id = "send_payment_link";
  attempt_no = 0;
  params = end;
  token = mint platform minter 1000 "n1" call_input;
  amount_paise = some 1000;
}

abbrev no_tables : Tables
no_tables = record { burns = []; attempts = []; sent = [] }

execute-cases_example :
    ((execute platform adapter library minter 60000 2000 request no_tables []).1.0 ≡ no_tables)
    ⊎ ((action : ActionDef) × Admitted platform adapter library minter 60000 2000 request [] action
        × ((execute platform adapter library minter 60000 2000 request no_tables []).1.0
            ≡ (under_lease adapter 2000
                (get_or "" action.capability)
                request
                (idempotency_key platform "case_1" "send_payment_link" 0 end)
                no_tables).1))
execute-cases_example =
    execute-cases platform adapter library minter 60000 2000 request no_tables []

run_single_use_example :
    ((nonce : String)
      → count
          (sent_with_nonce nonce)
          (run platform library minter 60000
            (no_tables, [])
            (executes adapter 2000 request
              ∷ reconciles adapter 2500
              ∷ executes adapter 3000 request
              ∷ [])).0.sent
        ≤ 1)
    × ((key : String)
        → count
            (sent_with_key key)
            (run platform library minter 60000
              (no_tables, [])
              (executes adapter 2000 request
                ∷ reconciles adapter 2500
                ∷ executes adapter 3000 request
                ∷ [])).0.sent
          ≤ 1)
run_single_use_example =
    run_single_use platform library minter 60000 []
      (executes adapter 2000 request ∷ reconciles adapter 2500 ∷ executes adapter 3000 request ∷ [])

others-apart : ◌≢◌ {A = String} "executor:case_2" "executor:case_1"
others-apart = texts_apart "executor:case_2" "executor:case_1" refl

first-taken : (try_acquire 60000 1000 "ob_1" "executor:case_1" []).0 ≡ true
unfolding try_acquire
first-taken = refl

lease_excludes_example :
    Holds "ob_1" "executor:case_1" 5000 (
      run_leases
        (try_acquire 60000 1000 "ob_1" "executor:case_1" []).1
        (acquires 60000 2000 "ob_1" "executor:case_2" ∷ releases "ob_1" "executor:case_2" ∷ []))
    × ((ttl' now' : ℕ) (other : String)
        → other ≢ "executor:case_1"
        → now' ≤ 5000
        → (try_acquire ttl' now' "ob_1" other (
            run_leases (try_acquire 60000 1000 "ob_1" "executor:case_1" []).1 (
              acquires 60000 2000 "ob_1" "executor:case_2"
              ∷ releases "ob_1" "executor:case_2"
              ∷ []))).0
          ≡ false)
lease_excludes_example =
    lease_excludes 60000 1000 5000 "ob_1" "executor:case_1" []
      (acquires 60000 2000 "ob_1" "executor:case_2" ∷ releases "ob_1" "executor:case_2" ∷ [])
      first-taken (omega arith) ((others-apart, omega arith), (others-apart, tt))
