-- ===== src/Examples/Agents.antt =====
-- A run of two specialists, one of which runs out of time.
use razorpay_buildathon.Base.{
  ◌+◌, ◌≤◌, String, Bool, true, false, none, some, List, [], ◌∷◌, ◌≡◌, ◌≢◌, refl, ◌⊎◌, count, any,
  length, if◌then◌else◌,
}
use razorpay_buildathon.Core.Types.{card, payment_failure}
use razorpay_buildathon.Core.Roles.{
  RoleId, incident_intelligence, payment_diagnosis, recovery_economics, same_role,
}
use razorpay_buildathon.Engine.Blackboard.{holds_role}
use razorpay_buildathon.Agents.DeliberationReducer.{en}
use razorpay_buildathon.Agents.Specialists.{SpecialistInput, Failure, value_actions}
use razorpay_buildathon.Agents.AgentRuntime.{
  Task, Desk, RunResult, Drawn, start_all, settled, not_started, run,
}
use razorpay_buildathon.Agents.Invocation.{Runtime, World}
use razorpay_buildathon.Agents.AgentRuntime.Accounting.{may_use, ran_of, failed_of, carries}
use razorpay_buildathon.Agents.AgentRuntime.Returns.{run_accounts}
use razorpay_buildathon.Examples.Text.{text_order}
use razorpay_buildathon.Examples.Loading.{library, taxonomy}
use razorpay_buildathon.Examples.Work.{board}

abbrev message : Failure → String
message e = "role payment_diagnosis timeout after 8000ms"

abbrev names_timeout : String → Bool
names_timeout t = true

abbrev runtime : Runtime
runtime = record { order = text_order; library = library; taxonomy = taxonomy }

abbrev world : World
world = record {
  diagnosis = none;
  context = none;
  runs_out = (λ role. same_role role payment_diagnosis);
}

abbrev input : SpecialistInput
input = record {
  case_id = "case_1";
  domain = payment_failure;
  rail = card;
  code = "51";
  attempt_no = 0;
  amount_paise = 50000;
  evidence_refs = [];
  customer_reply = none;
  prior_contacts = 0;
  opted_out = false;
  language = en;
  incident_id = some "incident_1";
  segment_degraded = none;
}

abbrev drawn : List Drawn
drawn =
    record { role = payment_diagnosis; run_id = "run_1"; claim_id = "cl_8"; input_hash = "h1" }
    ∷ record {
      role = incident_intelligence;
      run_id = "run_2";
      claim_id = "cl_9";
      input_hash = "h2";
    }
    ∷ []

abbrev desk : Desk
desk = record { board = board; runs = []; ledger = [] }

run_accounts_example :
    ((run message names_timeout runtime world 9 3 drawn input [] desk ≡ not_started)
      × (any (λ x. same_role x.role recovery_economics) drawn ≡ true)
      × (value_actions text_order input library "51" [] ≡ none))
    ⊎ ((tasks : List Task) × (r : RunResult) × (start_all message names_timeout runtime world input
            [] drawn
          ≡ some tasks)
        × (run message names_timeout runtime world 9 3 drawn input [] desk ≡ settled (some r))
        × (any (λ x. same_role x.role recovery_economics) drawn ≡ true
            → value_actions text_order input library "51" [] ≢ none)
        × (r.ran ≡ ran_of tasks)
        × (r.failed ≡ failed_of tasks)
        × (length r.ran + length r.failed ≡ 2)
        × (r.provider_calls ≤ count (λ x. may_use x.role) drawn)
        × ((x : RoleId)
            → count (holds_role "case_1" x) r.desk.board.claims ≡ (
                if any (carries message names_timeout x) tasks
                then 1
                else count (holds_role "case_1" x) board.claims)))
run_accounts_example =
    run_accounts message names_timeout runtime world 9 3 drawn input [] desk
      (refl, refl, (refl, refl, tt))
