-- ===== src/Engine/Verifier/Recovery.antt =====
-- A case is recovered exactly when the money matched to its obligation covers what is owed.
use razorpay_buildathon.Base.{ℕ, ◌≡◌, ap, ◌∙◌, String, true, false, some, ltb, ◌⊎◌}
use razorpay_buildathon.Core.StateMachine.{CaseState}
use razorpay_buildathon.Core.Events.{CaseRevision}
use razorpay_buildathon.Db.Tables.{CaseRow}
use razorpay_buildathon.Db.CaseEvents.Replay.{Projects}
use razorpay_buildathon.Engine.Scheduler.{pending_count}
use razorpay_buildathon.Engine.Reconciler.{given, InboundSettlement, MatchResult, settled_amount}
use razorpay_buildathon.Engine.Verifier.{
  Books, recovered, partial, returned, settle_case, on_settlement, with_owed, open_case, on_match,
  on_obligation, on_open_case,
}

-- What a recovered case looks like in the books: its row, which its log replays to, is in
-- RECOVERED, and nothing of it is scheduled.
pub record IsRecovered (b : Books) (id : String) : Type 0 where
  pub row : CaseRow
  pub revision : CaseRevision
  pub projects : Projects b.db row revision
  pub same_id : row.id ≡ id
  pub recovered_state : row.state ≡ CaseState.recovered
  pub none_pending : pending_count id b.db.schedule ≡ 0

pub on_match-settle_case :
    (m : MatchResult) (now : ℕ) (b : Books) (ob : String) (c : CaseRow) (owed : ℕ)
    → given m.obligation_id ≡ some ob
    → with_owed b.obligations ob (open_case ob b.db.cases) ≡ some (c, owed)
    → on_match m now b
      ≡ settle_case now m.settlement_id ob m.matched_by c owed (settled_amount ob b.settlements) b
on_match-settle_case m now b ob c owed matched open' =
    ap (λ o. on_obligation o m now b) matched
    ∙ ap (λ o. on_open_case o now m.settlement_id ob m.matched_by b) open'

-- What a settlement does to the case that it is for, where the money for it is `settled`.
abbrev Outcomes : ℕ → InboundSettlement → Books → CaseRow → ℕ → ℕ → Type 0
Outcomes now s b c owed settled =
    ((ltb settled owed ≡ true)
      × (b' : Books) × (on_settlement now s b ≡ returned (partial settled owed) b')
      × (b'.db ≡ b.db))
    ⊎ ((ltb settled owed ≡ false)
        × (b' : Books) × (on_settlement now s b ≡ returned (recovered settled) b')
        × IsRecovered b' c.id)
