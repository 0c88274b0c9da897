-- ===== src/Engine/Reconciler.antt =====
-- packages/engine/src/reconciler.ts: money received and the obligation it settles.
use razorpay_buildathon.Base.{
  ℕ, ◌+◌, String, Bool, false, not, ◌&&◌, Option, none, some, List, [], ◌∷◌, ◌++◌, ◌===◌, leb,
  if◌then◌else◌, any, filter, find?, sort,
}
use razorpay_buildathon.Core.Types.{Domain}
use razorpay_buildathon.Engine.Executor.{AttemptRow, has_idem_key}

pub record InboundSettlement : Type 0 where
  pub id : String
  pub merchant_id : String
  pub amount_paise : ℕ
  pub source : String
  pub reference : Option String
  pub idem_key : Option String
  pub virtual_account : Option String

pub data MatchStrategy : Type 0 where
  by_idem_key by_virtual_account by_reference unmatched : MatchStrategy

pub record MatchResult : Type 0 where
  pub settlement_id : String
  pub obligation_id : Option String
  pub matched_by : MatchStrategy

-- A row of `obligations`, with the column that migrations/0006_settlement.sql adds.
pub record ObligationRow : Type 0 where
  pub id : String
  pub merchant_id : String
  pub customer_id : String
  pub obligation_type : Domain
  pub amount_paise : ℕ
  pub due_at : ℕ
  pub external_ref : String
  pub virtual_account : Option String
  pub state : String

pub record SettlementRow : Type 0 where
  pub id : String
  pub merchant_id : String
  pub obligation_id : Option String
  pub amount_paise : ℕ
  pub reference : Option String
  pub idem_key : Option String
  pub virtual_account : Option String
  pub source : String
  pub matched_by : MatchStrategy
  pub received_at : ℕ

-- A text as a condition: it is given and not empty.
abbrev pub given : Option String → Option String
given none = none
given (some t) = if t === "" then none else some t

abbrev pub holds_text : Option String → String → Bool
holds_text none t = false
holds_text (some s) t = s === t

abbrev pub attempt_of : List AttemptRow → Option String → Option String
attempt_of attempts none = none
attempt_of attempts (some key) = elim (find? (has_idem_key key) attempts) [
  | none ↦ none
  | some a ↦ some a.obligation_id
]

abbrev first_id : List ObligationRow → Option String
first_id [] = none
first_id (o ∷ os) = some o.id

abbrev pub account_of : List ObligationRow → String → Option String → Option String
account_of obligations merchant none = none
account_of obligations merchant (some account) = first_id (
    sort (λ a b. leb a.due_at b.due_at)
      (filter
        (λ o.
          holds_text o.virtual_account account
          && (o.merchant_id === merchant && not (o.state === "settled")))
        obligations))

abbrev pub reference_of : List ObligationRow → String → Option String → Option String
reference_of obligations merchant none = none
reference_of obligations merchant (some reference) =
    first_id (filter (λ o. o.external_ref === reference && o.merchant_id === merchant) obligations)

abbrev or_match : Option String → MatchStrategy → String → MatchResult → MatchResult
or_match none strategy id rest = rest
or_match (some ob) strategy id rest = record {
  settlement_id = id;
  obligation_id = some ob;
  matched_by = strategy;
}

unfoldable pub match : List AttemptRow → List ObligationRow → InboundSettlement → MatchResult
match attempts obligations s = or_match (attempt_of attempts (given s.idem_key)) by_idem_key s.id (
    or_match (account_of obligations s.merchant_id (given s.virtual_account)) by_virtual_account
      s.id
      (or_match (reference_of obligations s.merchant_id (given s.reference)) by_reference s.id
        (record { settlement_id = s.id; obligation_id = none; matched_by = unmatched })))

-- The insert of `record`, which a settlement already there leaves alone.
unfoldable pub insert_settlement :
    ℕ → InboundSettlement → MatchResult → List SettlementRow → List SettlementRow
insert_settlement now s m settlements =
    if any (λ r. r.id === s.id) settlements
    then settlements
    else settlements
      ++ record {
        id = s.id;
        merchant_id = s.merchant_id;
        obligation_id = m.obligation_id;
        amount_paise = s.amount_paise;
        reference = s.reference;
        idem_key = s.idem_key;
        virtual_account = s.virtual_account;
        source = s.source;
        matched_by = m.matched_by;
        received_at = now;
      }
        ∷ []

abbrev pub amount_for : String → SettlementRow → ℕ
amount_for ob r = if holds_text r.obligation_id ob then r.amount_paise else 0

unfoldable pub settled_amount : String → List SettlementRow → ℕ
settled_amount ob [] = 0
settled_amount ob (r ∷ rs) = amount_for ob r + settled_amount ob rs
