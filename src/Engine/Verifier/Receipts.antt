-- ===== src/Engine/Verifier/Receipts.antt =====
-- The money that was received for an obligation, as the reconciler records it.

use razorpay_buildathon.Base.{
  ℕ, ◌+◌, ◌≡◌, refl, ap, ◌∙◌, inl, inr, String, Option, none, some, List, [], ◌∷◌, ◌++◌ as ◌+++◌,
  arith, ◌===◌, ===_refl, any, if◌then◌else◌, Bool-cases,
}
use razorpay_buildathon.Engine.Reconciler.{
  given, InboundSettlement, SettlementRow, match, settled_amount, insert_settlement, holds_text,
}
use razorpay_buildathon.Engine.Verifier.{Books, recorded}

-- What was settled for an obligation once the settlement is recorded.
abbrev pub settled_after : ℕ → InboundSettlement → Books → String → ℕ
settled_after now s b ob = settled_amount ob (recorded now s b).settlements

-- What of an amount counts for an obligation, where the money was matched to the given one.
abbrev pub share : Option String → String → ℕ → ℕ
share none ob amount = 0
share (some o) ob amount = if o === ob then amount else 0

-- The money that rows of settlements hold for an obligation.
abbrev pub money_for : String → List SettlementRow → ℕ
money_for ob [] = 0
money_for ob (r ∷ rs) = share r.obligation_id ob r.amount_paise + money_for ob rs

-- The money for an obligation once a settlement has been matched to it: what was recorded for it
-- before, and the settlement's amount, unless a settlement of its id was recorded already.
abbrev pub money_with : InboundSettlement → String → List SettlementRow → ℕ
money_with s ob rows =
    money_for ob rows + (if any (λ r. r.id === s.id) rows then 0 else s.amount_paise)

amount-share :
    (o : Option String) (ob : String) (n : ℕ) → (if holds_text o ob then n else 0) ≡ share o ob n
amount-share none ob n = refl
amount-share (some o) ob n = refl

settled_amount-money_for :
    (ob : String) (rows : List SettlementRow) → settled_amount ob rows ≡ money_for ob rows
unfolding settled_amount
settled_amount-money_for ob [] = refl
settled_amount-money_for ob (r ∷ rs) =
    ground (arith, amount-share r.obligation_id ob r.amount_paise, settled_amount-money_for ob rs)

money_for-append :
    (ob : String) (xs ys : List SettlementRow)
    → money_for ob (xs +++ ys) ≡ money_for ob xs + money_for ob ys
money_for-append ob [] ys = omega arith
money_for-append ob (x ∷ xs) ys = omega (arith, money_for-append ob xs ys)

given-share : (o : Option String) (ob : String) (n : ℕ) → given o ≡ some ob → share o ob n ≡ n
given-share none ob n h = absurd (ground arith)
given-share (some t) ob n h = elim (Bool-cases (t === "")) [
  | inl e ↦ absurd (ground arith)
  | inr e ↦ let same : t ≡ ob = ground arith in rw (same, ===_refl ob) refl
]

pub settled_after-money_with :
    (now : ℕ) (s : InboundSettlement) (b : Books) (ob : String)
    → given (match b.attempts b.obligations s).obligation_id ≡ some ob
    → settled_after now s b ob ≡ money_with s ob b.settlements
unfolding insert_settlement
settled_after-money_with now s b ob matched =
    let o = (match b.attempts b.obligations s).obligation_id in
    elim (Bool-cases (any (λ r. r.id === s.id) b.settlements)) [
      | inl seen ↦ rw seen (settled_amount-money_for ob b.settlements ∙ omega arith)
      | inr fresh ↦ rw fresh (
          settled_amount-money_for ob _
          ∙ money_for-append ob b.settlements (_ ∷ [])
          ∙ ap (λ n. money_for ob b.settlements + (n + 0)) (given-share o ob s.amount_paise matched)
          ∙ omega arith)
    ]
