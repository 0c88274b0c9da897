-- ===== src/Engine/PolicyEngine/Budget.antt =====
-- What a contact takes from the budgets.
use razorpay_buildathon.Base.{
  ℕ, ◌+◌, ◌≤◌, ◌≡◌, ◌≢◌, refl, sym, ◌∙◌, String, Bool, true, false, ◌&&◌, Option, none, some, List,
  [], ◌∷◌, ◌++◌, arith, ◌===◌, ◌==◌, ===_iff, ===_refl, ==_iff, any, find?, find?-found,
  update_where, Bool-cases, inl, inr,
}
use razorpay_buildathon.Core.Policy.{ContactCap, Policy, cap_for, global_cap}
use razorpay_buildathon.Engine.PolicyEngine.Evaluation.{HasRoom, in_budget_iff}
use razorpay_buildathon.Engine.PolicyEngine.{
  BudgetRow, window_start, has_key, used_of, usage, bump, bump_all, budget_exhausted,
  consume_contact_budget,
}

-- The row of a cap's key.
used_at : String → String → ℕ → List BudgetRow → ℕ
used_at customer channel start budgets = used_of (find? (has_key customer channel start) budgets)

abbrev more : BudgetRow → BudgetRow
more b = record {
  customer_id = b.customer_id;
  channel = b.channel;
  window_start = b.window_start;
  used = b.used + 1;
  cap = b.cap;
}

used-updated :
    (u c : String) (s : ℕ) (budgets : List BudgetRow)
    → any (has_key u c s) budgets ≡ true
    → used_at u c s (update_where (has_key u c s) more budgets) ≡ used_at u c s budgets + 1
unfolding used_at
used-updated u c s [] h = absurd (ground arith)
used-updated u c s (b ∷ bs) h = ground (arith, used-updated u c s bs)

used-elsewhere :
    (u v c d : String) (s t : ℕ) (budgets : List BudgetRow)
    → (u === v && (c === d && (s == t))) ≡ false
    → used_at v d t (update_where (has_key u c s) more budgets) ≡ used_at v d t budgets
unfolding used_at
used-elsewhere u v c d s t [] h = refl
used-elsewhere u v c d s t (b ∷ bs) h = ground (
  arith,
  used-elsewhere u v c d s t bs,
  ===_iff u v,
  ===_iff c d,
  ==_iff s t,
  ===_iff b.customer_id u,
  ===_iff b.channel c,
  ==_iff b.window_start s,
  ===_iff b.customer_id v,
  ===_iff b.channel d,
  ==_iff b.window_start t,
)

used-fresh :
    (u c : String) (s cap : ℕ) (budgets : List BudgetRow)
    → any (has_key u c s) budgets ≡ false
    → used_at u c s (
        budgets
        ++ record { customer_id = u; channel = c; window_start = s; used = 1; cap = cap } ∷ [])
      ≡ used_at u c s budgets + 1
unfolding used_at
used-fresh u c s cap [] h = rw (===_refl u, ===_refl c) (ground (arith, ==_iff s s))
used-fresh u c s cap (b ∷ bs) h = ground (arith, used-fresh u c s cap bs)

used-appended :
    (u v c d : String) (s t cap : ℕ) (budgets : List BudgetRow)
    → (u === v && (c === d && (s == t))) ≡ false
    → used_at v d t (
        budgets
        ++ record { customer_id = u; channel = c; window_start = s; used = 1; cap = cap } ∷ [])
      ≡ used_at v d t budgets
unfolding used_at
used-appended u v c d s t cap [] h = ground (arith)
used-appended u v c d s t cap (b ∷ bs) h = ground (arith, used-appended u v c d s t cap bs)

abbrev one_if : Bool → ℕ
one_if true = 1
one_if false = 0

-- What a contact under a cap adds to a count: one if it is the count of its customer, its channel
-- and its window.
abbrev pub charge : ℕ → String → String → String → ℕ → Option ContactCap → ℕ
charge now customer v d t none = 0
charge now customer v d t (some c) =
    one_if (customer === v && (c.channel === d && (window_start now c.window_days == t)))

same_key :
    (u v c d : String) (s t : ℕ)
    → (u === v && (c === d && (s == t))) ≡ true
    → (u ≡ v) × (c ≡ d) × (s ≡ t)
same_key u v c d s t h = ground (arith, ===_iff u v, ===_iff c d, ==_iff s t)

-- A count that rises at its own key and stays at every other rises by the charge.
by_charge :
    (u v c d : String) (s t : ℕ) (before after : List BudgetRow)
    → used_at u c s after ≡ used_at u c s before + 1
    → ((u === v && (c === d && (s == t))) ≡ false → used_at v d t after ≡ used_at v d t before)
    → used_at v d t after ≡ used_at v d t before + one_if (u === v && (c === d && (s == t)))
by_charge u v c d s t before after own rest = elim (Bool-cases (u === v && (c === d && (s == t)))) [
  | inl same ↦ let (p, q, r) = same_key u v c d s t same in rw same (rw (sym p, sym q, sym r) own)
  | inr apart ↦ let e = rest apart in rw apart (ground (arith))
]

bump-used :
    (now : ℕ) (customer v d : String) (t : ℕ) (c : ContactCap) (budgets : List BudgetRow)
    → used_at v d t (bump now customer c budgets)
      ≡ used_at v d t budgets + charge now customer v d t (some c)
unfolding bump
bump-used now customer v d t c budgets =
    let start = window_start now c.window_days in
    elim (Bool-cases (any (has_key customer c.channel start) budgets)) [
      | inl old ↦
          rw (old, bump)
            (by_charge customer v c.channel d start t budgets _
              (used-updated customer c.channel start budgets old)
              (used-elsewhere customer v c.channel d start t budgets))
      | inr new ↦
          rw (new, bump)
            (by_charge customer v c.channel d start t budgets _
              (used-fresh customer c.channel start c.max budgets new)
              (used-appended customer v c.channel d start t c.max budgets))
    ]

bump_all-used :
    (now : ℕ) (customer v d : String) (days : ℕ) (c g : Option ContactCap)
    (budgets : List BudgetRow)
    → usage now (bump_all now customer (c ∷ g ∷ []) budgets) v d days
      ≡ usage now budgets v d days
        + (charge now customer v d (window_start now days) c
            + charge now customer v d (window_start now days) g)
unfolding bump_all usage used_at
bump_all-used now customer v d days none none budgets = ground (arith)
bump_all-used now customer v d days (some c) none budgets =
    ground (arith, bump-used now customer v d (window_start now days) c budgets)
bump_all-used now customer v d days none (some g) budgets =
    ground (arith, bump-used now customer v d (window_start now days) g budgets)
bump_all-used now customer v d days (some c) (some g) budgets =
    let first = bump-used now customer v d (window_start now days) c budgets in
    let second =
      bump-used now customer v d (window_start now days) g (bump now customer c budgets) in
    ground (arith)

-- A contact adds to the counts what the caps on its channel and on all channels charge, in their
-- windows and for its customer, and nothing else.
pub consume_contact_budget-charge :
    (p : Policy) (now : ℕ) (customer channel v d : String) (days : ℕ) (budgets : List BudgetRow)
    → usage now (consume_contact_budget p now customer channel budgets) v d days
      ≡ usage now budgets v d days
        + (charge now customer v d (window_start now days) (cap_for p channel)
            + charge now customer v d (window_start now days) (global_cap p))
unfolding consume_contact_budget
consume_contact_budget-charge p now customer channel v d days budgets =
    bump_all-used now customer v d days (cap_for p channel) (global_cap p) budgets

-- The counts of a customer that stand below the caps of a channel, before a contact and after.
abbrev pub WithinCap : ℕ → List BudgetRow → String → Option ContactCap → Type 0
WithinCap now budgets customer none = Unit {0}
WithinCap now budgets customer (some c) = usage now budgets customer c.channel c.window_days ≤ c.max

charge_small :
    (now t : ℕ) (customer v d : String) (c : Option ContactCap) → charge now customer v d t c ≤ 1
charge_small now t customer v d c = ground (arith)

charge_other :
    (now t : ℕ) (customer v d : String) (c : ContactCap)
    → c.channel ≢ d
    → charge now customer v d t (some c) ≡ 0
charge_other now t customer v d c ne = ground (arith, ===_iff c.channel d)

room_kept :
    (now : ℕ) (customer : String) (budgets budgets' : List BudgetRow) (c g : Option ContactCap)
    → ((v d : String) (days : ℕ)
        → usage now budgets' v d days
          ≡ usage now budgets v d days
            + (charge now customer v d (window_start now days) c
                + charge now customer v d (window_start now days) g))
    → ((k : ContactCap) → c ≡ some k → k.channel ≢ "*")
    → ((k : ContactCap) → g ≡ some k → k.channel ≡ "*")
    → HasRoom now budgets customer c
    → HasRoom now budgets customer g
    → WithinCap now budgets' customer c × WithinCap now budgets' customer g
room_kept now customer budgets budgets' none none e nc ng rc rg = (tt, tt)
room_kept now customer budgets budgets' (some c) none e nc ng rc rg =
    let a = e customer c.channel c.window_days in
    let b =
      charge_small now (window_start now c.window_days) customer customer c.channel (some c) in
    (ground (arith), tt)
room_kept now customer budgets budgets' none (some g) e nc ng rc rg =
    let a = e customer g.channel g.window_days in
    let b =
      charge_small now (window_start now g.window_days) customer customer g.channel (some g) in
    (tt, ground (arith))
room_kept now customer budgets budgets' (some c) (some g) e nc ng rc rg =
    let a = e customer c.channel c.window_days in
    let b =
      charge_small now (window_start now c.window_days) customer customer c.channel (some c) in
    let z =
      charge_other now (window_start now c.window_days) customer customer c.channel g
        (λ q. nc c refl (sym q ∙ ng g refl)) in
    let a' = e customer g.channel g.window_days in
    let b' =
      charge_small now (window_start now g.window_days) customer customer g.channel (some g) in
    let z' =
      charge_other now (window_start now g.window_days) customer customer g.channel c
        (λ q. nc c refl (q ∙ ng g refl)) in
    (ground (arith), ground (arith))

cap_for-channel :
    (p : Policy) (channel : String) (c : ContactCap)
    → cap_for p channel ≡ some c
    → c.channel ≡ channel
unfolding cap_for
cap_for-channel p channel c e =
    (===_iff c.channel channel).0 (find?-found (λ k. k.channel === channel) p.contact_caps e)

global_cap-channel : (p : Policy) (c : ContactCap) → global_cap p ≡ some c → c.channel ≡ "*"
unfolding global_cap
global_cap-channel p c e =
    (===_iff c.channel "*").0 (find?-found (λ k. k.channel === "*") p.contact_caps e)

-- A contact on a channel of its own, made while its caps have room, leaves both counts within their
-- caps.
pub consume_contact_budget-WithinCap :
    (p : Policy) (now : ℕ) (customer channel : String) (budgets : List BudgetRow)
    → channel ≢ "*"
    → budget_exhausted p now budgets customer channel ≡ none
    → let budgets' = consume_contact_budget p now customer channel budgets in
      WithinCap now budgets' customer (cap_for p channel)
      × WithinCap now budgets' customer (global_cap p)
consume_contact_budget-WithinCap p now customer channel budgets ne free =
    let (rc, rg) = (in_budget_iff p now budgets customer channel).0 free in
    room_kept now customer budgets (consume_contact_budget p now customer channel budgets)
      (cap_for p channel) (global_cap p)
      (λ v d days. consume_contact_budget-charge p now customer channel v d days budgets)
      (λ k e q. ne (sym (cap_for-channel p channel k e) ∙ q)) (global_cap-channel p) rc rg
