-- ===== src/Console/WebhookRoute/Redelivery.antt =====
-- A delivery that is not signed, or that was processed before, changes nothing.
use razorpay_buildathon.Base.{
  ℕ, String, Bool, true, false, ◌||◌, Option, none, some, List, ◌++◌, ◌≡◌, ◌∙◌, refl, sym, subst,
  ap, ◌===◌, ◌==◌, ===_refl, arith, any, any-append, Bool-cases, inl, inr, if◌then◌else◌,
}
use razorpay_buildathon.Core.Platform.{Platform}
use razorpay_buildathon.Core.Json.{Value, Items}
use razorpay_buildathon.Db.Ledger.{LedgerEntry, append as append_entry}
use razorpay_buildathon.Engine.Verifier.{Books, Verified, returned, thrown}
use razorpay_buildathon.Connectors.Webhook.{
  NormalizedEvent, Ingested, event, unverified, verify_webhook_signature, ingest_webhook,
}
use razorpay_buildathon.Console.WebhookRoute.{
  Reply, replied, crashed, Settled, acknowledge, records, settle_if_paid, on_ingested,
  handle_webhook,
}

-- A reply with the status 200, on which the provider does not deliver again.
abbrev pub is_ok : Reply → Bool
is_ok (replied status body) = status == 200
is_ok (crashed x) = false

abbrev pub AllGiven : (String → Type 0) → Option String → Type 0
AllGiven P none = Unit {0}
AllGiven P (some x) = P x

-- What the route wrote of an acknowledged event.
acknowledge_recorded :
    (v : Verified (Option Settled)) (now : ℕ) (e : NormalizedEvent)
    → is_ok (acknowledge v now e).0 ≡ true
    → any (records e.event_id) (acknowledge v now e).1.ledger ≡ true
unfolding append_entry
acknowledge_recorded (thrown x b) now e h = absurd (ground arith)
acknowledge_recorded (returned s b) now e h =
    any-append (records e.event_id) b.ledger _ ∙ ground (arith, ===_refl e.event_id)

module _ (parse : String → Option Value) (items_text : Items → String) (pf : Platform) where
  on_ingested_recorded :
      (e : NormalizedEvent) (now : ℕ) (b : Books)
      → is_ok (on_ingested parse items_text pf (event e) now b).0 ≡ true
      → any (records e.event_id) (on_ingested parse items_text pf (event e) now b).1.ledger ≡ true
  on_ingested_recorded e now b = by_ledger (any (records e.event_id) b.ledger) refl
    where
      by_ledger :
          (seen : Bool)
          → any (records e.event_id) b.ledger ≡ seen
          → let out =
              if seen
              then (replied 200 "duplicate, already processed", b)
              else acknowledge (settle_if_paid parse items_text pf now e b) now e in
            is_ok out.0 ≡ true → any (records e.event_id) out.1.ledger ≡ true
      by_ledger true k h = k
      by_ledger false k h =
          acknowledge_recorded (settle_if_paid parse items_text pf now e b) now e h

  ingest_webhook_unverified :
      (raw signature secret merchant_id : String)
      → verify_webhook_signature pf raw signature secret ≡ false
      → ingest_webhook parse items_text pf raw signature secret merchant_id ≡ unverified
  unfolding ingest_webhook
  ingest_webhook_unverified raw signature secret merchant_id h = rw h refl

  handle_webhook_configured :
      (secret merchant_id : String) (now : ℕ) (signature raw : String) (i : Ingested) (b : Books)
      → (secret === "") ≡ false
      → ingest_webhook parse items_text pf raw signature secret merchant_id ≡ i
      → handle_webhook parse items_text pf secret merchant_id now signature (some raw) b
        ≡ on_ingested parse items_text pf i now b
  unfolding handle_webhook
  handle_webhook_configured secret merchant_id now signature raw i b e h = rw (e, h) refl

  handle_webhook_unconfigured :
      (secret merchant_id : String) (now : ℕ) (signature raw : String) (b : Books)
      → (secret === "") ≡ true
      → handle_webhook parse items_text pf secret merchant_id now signature (some raw) b
        ≡ (replied 503 "RAZORPAY_WEBHOOK_SECRET is not configured", b)
  unfolding handle_webhook
  handle_webhook_unconfigured secret merchant_id now signature raw b e = rw e refl

  -- A delivery whose signature does not verify is not answered with 200, and changes nothing.
  pub handle_webhook_unsigned :
      (secret merchant_id : String) (now : ℕ) (signature : String) (raw : Option String) (b : Books)
      → AllGiven (λ body. verify_webhook_signature pf body signature secret ≡ false) raw
      → let out = handle_webhook parse items_text pf secret merchant_id now signature raw b in
        (is_ok out.0 ≡ false) × (out.1 ≡ b)
  unfolding handle_webhook
  handle_webhook_unsigned secret merchant_id now signature none b h = (refl, refl)
  handle_webhook_unsigned secret merchant_id now signature (some raw) b h =
      elim (Bool-cases (secret === "")) [
        | inl e ↦
            let q = handle_webhook_unconfigured secret merchant_id now signature raw b e in
            (ap (λ r. is_ok r.0) q, ap (λ r. r.1) q)
        | inr e ↦
            let q =
              handle_webhook_configured secret merchant_id now signature raw unverified b e
                (ingest_webhook_unverified raw signature secret merchant_id h) in
            (ap (λ r. is_ok r.0) q, ap (λ r. r.1) q)
      ]

  -- A reply with 200 shows that the secret is configured.
  ok_configured :
      (secret merchant_id : String) (now : ℕ) (signature raw : String) (b : Books)
      → is_ok (handle_webhook parse items_text pf secret merchant_id now signature (some raw) b).0
        ≡ true
      → (secret === "") ≡ false
  ok_configured secret merchant_id now signature raw b h = elim (Bool-cases (secret === "")) [
    | inl e ↦
        let q = handle_webhook_unconfigured secret merchant_id now signature raw b e in
        let k = sym (ap (λ r. is_ok r.0) q) ∙ h in absurd (ground (arith, k))
    | inr e ↦ e
  ]

  on_ingested_duplicate :
      (e : NormalizedEvent) (now : ℕ) (b : Books)
      → any (records e.event_id) b.ledger ≡ true
      → on_ingested parse items_text pf (event e) now b
        ≡ (replied 200 "duplicate, already processed", b)
  on_ingested_duplicate e now b h = rw h refl

  -- After a delivery of an event was answered with 200, another verified delivery with the same event
  -- id changes nothing and is answered as a duplicate, whatever its type and body, at any later
  -- time, and whatever other entries the ledger got since.
  pub handle_webhook_redelivered :
      (secret merchant_id : String) (now later : ℕ) (signature again raw body : String)
      (e e' : NormalizedEvent) (b b' : Books) (more : List LedgerEntry)
      → ingest_webhook parse items_text pf raw signature secret merchant_id ≡ event e
      → ingest_webhook parse items_text pf body again secret merchant_id ≡ event e'
      → e'.event_id ≡ e.event_id
      → let first =
          handle_webhook parse items_text pf secret merchant_id now signature (some raw) b in
        is_ok first.0 ≡ true
        → b'.ledger ≡ first.1.ledger ++ more
        → handle_webhook parse items_text pf secret merchant_id later again (some body) b'
          ≡ (replied 200 "duplicate, already processed", b')
  handle_webhook_redelivered secret merchant_id now later signature again raw body e e' b b' more h
        h' same ok grown =
      let configured = ok_configured secret merchant_id now signature raw b ok in
      let q =
        handle_webhook_configured secret merchant_id now signature raw (event e) b configured h in
      let recorded = on_ingested_recorded e now b (sym (ap (λ r. is_ok r.0) q) ∙ ok) in
      let kept : any (records e.event_id) b'.ledger ≡ true =
        ap (any (records e.event_id)) (grown ∙ ap (λ r. r.1.ledger ++ more) q)
        ∙ any-append (records e.event_id) (on_ingested parse items_text pf (event e) now b).1.ledger
            more
        ∙ ap (λ t. t || any (records e.event_id) more) recorded in
      handle_webhook_configured secret merchant_id later again body (event e') b' configured h'
      ∙ on_ingested_duplicate e' later b'
          (subst (λ id. any (records id) b'.ledger ≡ true) (sym same) kept)
