-- ===== src/Sim/World.antt =====
-- packages/sim/src/world.ts, with the cases of cohort.ts and the injections of scenario.ts there: what
-- the simulated world does on its own. Of a case, the facts of its ambiguous slice are left out.
pub mod Draining
use Prim.Native.Nat.{bit_xor}
use razorpay_buildathon.Base.{
  ℕ, suc, ◌+◌, ◌*◌, String, Bool, true, false, ◌&&◌, ◌||◌, Option, none, some, List, [], ◌∷◌, ◌++◌,
  ◌===◌, ◌==◌, leb, ltb, drop, find?, length, sort, map, if◌then◌else◌,
}
use razorpay_buildathon.Base.Order.{TextOrder}
use razorpay_buildathon.Core.Floats.{Floats, of_nat}
use razorpay_buildathon.Core.Types.{
  Domain, Rail, card, upi_collect, upi_autopay, enach, netbanking, wallet, smart_collect,
}
use razorpay_buildathon.Attribution.Rng.{u32, draw}
use razorpay_buildathon.Connectors.SimulatedPsp.{LatentMandate}

pub data WorldEventKind : Type 0 where
  natural_payment opt_out dispute : WorldEventKind

pub record WorldEvent : Type 0 where
  pub at_ms : ℕ
  pub kind : WorldEventKind
  pub case_id : String

-- The dimensions that a segment names.
pub record Segment : Type 0 where
  pub gateway : Option String
  pub issuer : Option String
  pub method : Option String

pub record DegradationWindow : Type 0 where
  pub from_ms : ℕ
  pub to_ms : ℕ
  pub segment : Segment
  pub approval_drop : ℕ

pub record Injection : Type 0 where
  pub at_hours : ℕ
  pub segment : Segment
  pub approval_drop : ℕ
  pub duration_minutes : ℕ

pub record World : Type 0 where
  pub events : List WorldEvent
  pub degradations : List DegradationWindow
  pub cursor : ℕ

-- `a.atMs - b.atMs || a.caseId.localeCompare(b.caseId)`, as: `a` may stand before `b`.
abbrev pub event_before : TextOrder → WorldEvent → WorldEvent → Bool
event_before order a b =
    if a.at_ms == b.at_ms then order.before a.case_id b.case_id else leb a.at_ms b.at_ms

abbrev pub degradation : Injection → DegradationWindow
degradation i = record {
  from_ms = i.at_hours * 3600000;
  to_ms = i.at_hours * 3600000 + i.duration_minutes * 60000;
  segment = i.segment;
  approval_drop = i.approval_drop;
}

-- The loop over the events from the cursor on.
abbrev pub drain_loop : ℕ → ℕ → List WorldEvent → List WorldEvent × ℕ
drain_loop elapsed cursor [] = ([], cursor)
drain_loop elapsed cursor (e ∷ rest) =
    let later = drain_loop elapsed (suc cursor) rest in
    if leb e.at_ms elapsed then (e ∷ later.0, later.1) else ([], cursor)

unfoldable pub drain_until : ℕ → World → List WorldEvent × World
drain_until elapsed w =
    let out = drain_loop elapsed w.cursor (drop w.cursor w.events) in
    (out.0, record w { cursor = out.1 })

abbrev pub rail_method : Rail → String
rail_method card = "card"
rail_method upi_collect = "upi"
rail_method upi_autopay = "upi"
rail_method enach = "enach"
rail_method netbanking = "netbanking"
rail_method wallet = "wallet"
rail_method smart_collect = "smart_collect"

-- A dimension that the segment does not name matches.
abbrev pub allows : Option String → String → Bool
allows none value = true
allows (some t) value = t === value

unfoldable pub total_events : World → ℕ
total_events w = length w.events

module _ (f : Floats) where
  pub record LatentState : Type 0 where
    pub will_pay_regardless : Bool
    pub natural_payment_at_ms : Option ℕ
    pub has_funds_after_ms : ℕ
    pub responds_to_link : f.Float
    pub card_expired : Bool
    pub mandate_state : LatentMandate
    pub will_opt_out : Bool
    pub will_dispute : Bool

  pub record SyntheticCase : Type 0 where
    pub case_id : String
    pub customer_id : String
    pub obligation_id : String
    pub external_ref : String
    pub domain : Domain
    pub rail : Rail
    pub cause : String
    pub code : String
    pub amount_paise : ℕ
    pub gateway : String
    pub issuer : String
    pub latent : LatentState

  -- `Math.floor(rand() * days * 86_400_000)`, and the state after the draw.
  abbrev pub drawn_at : ℕ → ℕ → ℕ × ℕ
  drawn_at days rand =
      let d = draw rand in
      (
        f.floor (f.mul (f.mul (f.ratio d.parts 4294967296) (of_nat f days)) (of_nat f 86400000)),
        d.state,
      )

  abbrev pub natural_event : SyntheticCase → Option ℕ → List WorldEvent
  natural_event c none = []
  natural_event c (some at) =
      record { at_ms = at; kind = natural_payment; case_id = c.case_id } ∷ []

  abbrev pub drawn_event : Bool → WorldEventKind → ℕ → SyntheticCase → ℕ → List WorldEvent × ℕ
  drawn_event false kind days c rand = ([], rand)
  drawn_event true kind days c rand =
      let (at, rand') = drawn_at days rand in
      (record { at_ms = at; kind = kind; case_id = c.case_id } ∷ [], rand')

  -- The constructor's loop, from a state of the generator.
  unfoldable pub events_of : List SyntheticCase → ℕ → List WorldEvent
  events_of [] rand = []
  events_of (c ∷ cs) rand =
      let (opts, rand') = drawn_event c.latent.will_opt_out opt_out 3 c rand in
      let (disputes, rand'') = drawn_event c.latent.will_dispute dispute 5 c rand' in
      natural_event c c.latent.natural_payment_at_ms ++ (opts ++ (disputes ++ events_of cs rand''))

  unfoldable pub new_world : TextOrder → List SyntheticCase → List Injection → ℕ → World
  unfolding events_of
  new_world order cases injections seed = record {
    events = sort (event_before order) (events_of cases (u32 (bit_xor seed 0x5eed)));
    degradations = map degradation injections;
    cursor = 0;
  }

  abbrev pub degrades : ℕ → SyntheticCase → DegradationWindow → Bool
  degrades elapsed c d =
      leb d.from_ms elapsed
      && ltb elapsed d.to_ms
      && allows d.segment.gateway c.gateway
      && allows d.segment.issuer c.issuer
      && allows d.segment.method (rail_method c.rail)

  unfoldable pub degraded_at : ℕ → SyntheticCase → World → Option DegradationWindow
  degraded_at elapsed c w = find? (degrades elapsed c) w.degradations
