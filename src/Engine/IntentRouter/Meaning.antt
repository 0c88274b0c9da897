-- ===== src/Engine/IntentRouter/Meaning.antt =====
-- What each intent of a customer does to the case, and that none of them is money.
use razorpay_buildathon.Base.{
  ℕ, ◌+◌, ◌≡◌, refl, ◌∙◌, sym, subst, ap, String, true, false, [], ◌∷◌, ◌++◌, arith, ===_refl,
  get_or,
}
use razorpay_buildathon.Core.Platform.{Platform}
use razorpay_buildathon.Core.Json.{end}
use razorpay_buildathon.Core.StateMachine.{can_transition, is_terminal, TerminalState, to_state}
use razorpay_buildathon.Core.Events.{CaseRevision, next_revision, terminal_reached, target_state}
use razorpay_buildathon.Db.Tables.{CaseRow}
use razorpay_buildathon.Db.CaseEvents.Replay.{
  Projects, stored_event, row_after, db_after, append_legal, append-Projects,
}
use razorpay_buildathon.Engine.Scheduler.{pending_count}
use razorpay_buildathon.Engine.Scheduler.Settled.{pending_count-cancel_for_case}
use razorpay_buildathon.Engine.Verifier.{
  Books, Verified, SignalResult, signal_disputed, signal_opted_out, on_outcome, signal_event,
  logged_after, signal_text, log as verifier_log,
}
use razorpay_buildathon.Engine.IntentRouter.{
  CustomerIntent, will_pay, will_update, dispute, opt_out, missing_po, unknown, IntentContext,
  IntentOutcome, terminal, Desk, returned, route, after_outcome, promise,
}

-- The case is in the terminal state, as its log replays to, and nothing of it is scheduled.
pub record IsStopped (t : TerminalState) (b : Books) (id : String) : Type 0 where
  pub row : CaseRow
  pub revision : CaseRevision
  pub projects : Projects b.db row revision
  pub same_id : row.id ≡ id
  pub stopped : row.state ≡ to_state t
  pub none_pending : pending_count id b.db.schedule ≡ 0

-- What an intent means for the tables.
abbrev pub Means : CustomerIntent → ℕ → ℕ → String → IntentContext → Desk → Desk → Type 0
Means dispute now grace id ctx d d' =
    (d'.promises ≡ d.promises) × IsStopped TerminalState.disputed d'.books ctx.case_id
Means opt_out now grace id ctx d d' =
    (d'.promises ≡ d.promises) × IsStopped TerminalState.opted_out d'.books ctx.case_id
Means will_pay now grace id ctx d d' =
    (d'.promises ≡ d.promises ++ promise now id (get_or (now + grace) ctx.promised_for) ctx ∷ [])
    × (d'.books.db ≡ d.books.db)
Means missing_po now grace id ctx d d' = (d'.promises ≡ d.promises) × (d'.books.db ≡ d.books.db)
Means will_update now grace id ctx d d' = d' ≡ d
Means unknown now grace id ctx d d' = d' ≡ d

closes :
    (t : TerminalState) (reason : String) (c : CaseRow)
    → is_terminal c.state ≡ false
    → can_transition c.state (target_state (terminal_reached t reason) c.state) ≡ true
unfolding can_transition target_state
closes TerminalState.recovered reason c live = ground arith
closes TerminalState.unrecoverable reason c live = ground arith
closes TerminalState.cancelled reason c live = ground arith
closes TerminalState.disputed reason c live = ground arith
closes TerminalState.opted_out reason c live = ground arith
closes TerminalState.stopped_human reason c live = ground arith

terminal_closes : (t : TerminalState) → is_terminal (to_state t) ≡ true
unfolding is_terminal
terminal_closes TerminalState.recovered = refl
terminal_closes TerminalState.unrecoverable = refl
terminal_closes TerminalState.cancelled = refl
terminal_closes TerminalState.disputed = refl
terminal_closes TerminalState.opted_out = refl
terminal_closes TerminalState.stopped_human = refl

stops :
    (now : ℕ) (t : TerminalState) (signal : SignalResult) (reason : String) (c : CaseRow)
    (r : CaseRevision) (b : Books)
    → signal_event signal ≡ terminal_reached t reason
    → Projects b.db c r
    → is_terminal c.state ≡ false
    → (b' : Books) × (on_outcome now c.id signal end b ≡ Verified.returned tt b')
      × (b'.settlements ≡ b.settlements)
      × (b'.obligations ≡ b.obligations)
      × IsStopped t b' c.id
unfolding on_outcome next_revision target_state
stops now t signal reason c r b means v live =
    let event = terminal_reached t reason in
    let e = stored_event c event "verifier" now in
    let next = next_revision r e in
    let l = closes t reason c live in
    (
      verifier_log now c.id (signal_text signal) end (record b { db = db_after b.db c e next now }),
      rw means (
          ap (λ a. logged_after a now c.id (signal_text signal) end b)
            (append_legal b.db c r event "verifier" now v l)),
      refl,
      refl,
      record {
        row = row_after c next now;
        revision = next;
        projects = append-Projects b.db c r event "verifier" now v l;
        same_id = refl;
        stopped = refl;
        none_pending =
            rw (terminal_closes t)
              (pending_count-cancel_for_case now c.id c.id b.db.schedule ∙ rw (===_refl c.id));
      },
    )

IsStopped-by :
    (now : ℕ) (t : TerminalState) (signal : SignalResult) (reason : String) (ctx : IntentContext)
    (d : Desk) (c : CaseRow) (r : CaseRevision) (outcome : IntentOutcome)
    → signal_event signal ≡ terminal_reached t reason
    → ctx.case_id ≡ c.id
    → Projects d.books.db c r
    → is_terminal c.state ≡ false
    → (o : IntentOutcome) × (d' : Desk) × (after_outcome
          (on_outcome now ctx.case_id signal end d.books)
          outcome
          d
        ≡ returned o d')
      × (d'.books.settlements ≡ d.books.settlements)
      × (d'.books.obligations ≡ d.books.obligations)
      × ((d'.promises ≡ d.promises) × IsStopped t d'.books ctx.case_id)
IsStopped-by now t signal reason ctx d c r outcome means same v live =
    let (b', w, settlements, obligations, closed) =
      stops now t signal reason c r d.books means v live in
    (
      outcome,
      record d { books = b' },
      ap (λ a. after_outcome a outcome d) (ap (λ i. on_outcome now i signal end d.books) same ∙ w),
      settlements,
      obligations,
      (refl, subst (λ i. IsStopped t b' i) (sym same) closed),
    )

-- Of a live case that shows its log's revision, every intent is routed without an error, and leaves
-- settlements and obligations as they were. A dispute or an opt-out takes the case to that terminal
-- state and cancels what it has scheduled; a promise to pay adds an open promise, due at its date or
-- when the grace ends, and leaves the cases alone; the other intents leave cases and promises alone.
pub route-Means :
    (pf : Platform) (grace now : ℕ) (id : String) (intent : CustomerIntent) (ctx : IntentContext)
    (d : Desk) (c : CaseRow) (r : CaseRevision)
    → ctx.case_id ≡ c.id
    → Projects d.books.db c r
    → is_terminal c.state ≡ false
    → (outcome : IntentOutcome) × (d' : Desk) × (route pf grace now id intent ctx d
        ≡ returned outcome d')
      × (d'.books.settlements ≡ d.books.settlements)
      × (d'.books.obligations ≡ d.books.obligations)
      × Means intent now grace id ctx d d'
unfolding route
route-Means pf grace now id dispute ctx d c r same v live =
    IsStopped-by now TerminalState.disputed signal_disputed "disputed" ctx d c r
      (terminal TerminalState.disputed "customer disputed the obligation") refl same v live
route-Means pf grace now id opt_out ctx d c r same v live =
    IsStopped-by now TerminalState.opted_out signal_opted_out "opted_out" ctx d c r
      (terminal TerminalState.opted_out "customer opted out of contact") refl same v live
route-Means pf grace now id will_pay ctx d c r same v live = (_, _, refl, refl, refl, (refl, refl))
route-Means pf grace now id missing_po ctx d c r same v live =
    (_, _, refl, refl, refl, (refl, refl))
route-Means pf grace now id will_update ctx d c r same v live = (_, _, refl, refl, refl, refl)
route-Means pf grace now id unknown ctx d c r same v live = (_, _, refl, refl, refl, refl)
