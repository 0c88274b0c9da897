-- ===== src/Examples/Batch.antt =====
-- A replay of what two appends wrote, one of which is refused, and the world of one customer.
use razorpay_buildathon.Base.{
  true, false, List, [], ◌∷◌, ◌++◌, some, ◌≡◌, arith, All, count, filter, length,
}
use razorpay_buildathon.Core.Types.{tier0, card, payment_failure}
use razorpay_buildathon.Core.Events.{diagnosis_started}
use razorpay_buildathon.Sim.Replay.{ReplayReport, latest_revision, verify_replay}
use razorpay_buildathon.Sim.Replay.Reproduction.{LatestShows, Reproducible}
use razorpay_buildathon.Sim.Replay.Checks.{has_both}
use razorpay_buildathon.Sim.Replay.Verification.{AppendCall, run, verify_replay_reproduces}
use razorpay_buildathon.Sim.Replay.Decisions.{on_revision}
use razorpay_buildathon.Connectors.SimulatedPsp.{active}
use razorpay_buildathon.Sim.World.{World, SyntheticCase, drain_until, new_world}
use razorpay_buildathon.Sim.World.Draining.{is_due, drain_all, drain_all_exact}
use razorpay_buildathon.Examples.Numbers.{thousandths}
use razorpay_buildathon.Examples.Text.{text_order}
use razorpay_buildathon.Examples.Loading.{resolver}
use razorpay_buildathon.Examples.Cases.{store, store-Consistent}

store-LatestShows : LatestShows store
unfolding latest_revision
store-LatestShows id r row h k = absurd (ground arith)

store-Reproducible : Reproducible store
store-Reproducible = (store-Consistent, store-LatestShows)

abbrev calls : List AppendCall
calls =
    record { case_id = "case_1"; event = diagnosis_started tier0; source = "engine"; at = 5 }
    ∷ record { case_id = "case_1"; event = diagnosis_started tier0; source = "engine"; at = 6 }
    ∷ []

verify_replay_reproduces_example :
    (out : ReplayReport) × (verify_replay text_order resolver (run calls store) [] [] ≡ some out)
    × All (λ m. on_revision m.kind ≡ false) out.mismatches
    × (out.revisions_reproduced ≡ count (has_both (run calls store)) (run calls store).cases)
    × (out.cases_checked ≡ length (run calls store).cases)
verify_replay_reproduces_example =
    verify_replay_reproduces text_order resolver store calls [] [] store-Reproducible

abbrev customer : SyntheticCase thousandths
customer = record {
  case_id = "c_00000";
  customer_id = "cu_00000";
  obligation_id = "ob_00000";
  external_ref = "ext_00000";
  domain = payment_failure;
  rail = card;
  cause = "card_expired";
  code = "CARD_EXPIRED";
  amount_paise = 50000;
  gateway = "A";
  issuer = "HDFC";
  latent = record {
    will_pay_regardless = true;
    natural_payment_at_ms = some 7200000;
    has_funds_after_ms = 0;
    responds_to_link = thousandths.ratio 35 100;
    card_expired = true;
    mandate_state = active;
    will_opt_out = false;
    will_dispute = false;
  };
}

abbrev world : World
world = new_world thousandths text_order (customer ∷ []) [] 20260902

drain_all_exact_example :
    (drain_all (0 ∷ 3600000 ∷ []) world).0
      ++ (drain_until 7200000 (drain_all (0 ∷ 3600000 ∷ []) world).1).0
    ≡ filter (is_due 7200000) world.events
drain_all_exact_example =
    drain_all_exact thousandths text_order (customer ∷ []) [] 20260902 (0 ∷ 3600000 ∷ []) 7200000
      (omega arith, (omega arith, tt))
