-- ===== src/Connectors/SimulatedPsp/Recall.antt =====
-- What the simulated provider remembers of its calls, and what the executor's reconciliation makes
-- of it.
use razorpay_buildathon.Base.{
  ℕ, String, Bool, true, ◌&&◌, ◌||◌, Option, none, some, List, [], ◌∷◌, ◌≡◌, refl, ap, ◌===◌, arith,
  any, is_some, update_where,
}
use razorpay_buildathon.Base.Assoc.{set_key, lookup-set_key}
use razorpay_buildathon.Core.Floats.{Floats}
use razorpay_buildathon.Core.Json.{Value}
use razorpay_buildathon.Engine.Executor.{Tables, is_in_flight, reconciled, settle_row, reconcile}
use razorpay_buildathon.Connectors.Adapter.{AdapterCall}
use razorpay_buildathon.Connectors.SimulatedPsp.{
  Psp, LatentCustomer, PaymentStatus, fetch_payment_status, invoke, with_prefix, prefix_of,
  psp_after, adapter, record_call,
}

-- A call as it reaches the provider: its time, the capability and the call.
pub record Arrival : Type 0 where
  pub at : ℕ
  pub capability : String
  pub call : AdapterCall

abbrev pub is_found : String → Psp → Bool
is_found idem_key p = (fetch_payment_status idem_key p).found

is_found-set_key :
    (j k : String) (status : PaymentStatus) (settled : List (String × PaymentStatus))
    (rand rand' : ℕ)
    → status.found ≡ true
    → is_found k (record { settled = set_key j status settled; rand = rand })
      ≡ ((j === k) || is_found k (record { settled = settled; rand = rand' }))
unfolding fetch_payment_status
is_found-set_key j k status settled rand rand' e =
    rw (is_found, lookup-set_key j k status settled) (ground (arith, e))

module _ (f : Floats) (to_number : Value → Option ℕ)
    (latent : List (String × LatentCustomer f to_number)) where
  abbrev pub serve : List Arrival → Psp → Psp
  serve [] p = p
  serve (a ∷ as') p =
      serve as' (psp_after f to_number (invoke f to_number latent a.at a.capability a.call p) p)

  -- A call with one of the methods' capabilities, under the key.
  abbrev pub carries : String → Arrival → Bool
  carries idem_key a =
      is_some (prefix_of f to_number a.capability) && (a.call.idem_key === idem_key)

  is_found-with_prefix :
      (prefix : Option String) (now : ℕ) (call : AdapterCall) (capability : String) (p : Psp)
      (k : String)
      → is_found k
          (psp_after f to_number (with_prefix f to_number prefix latent now call capability p) p)
        ≡ ((is_some prefix && (call.idem_key === k)) || is_found k p)
  unfolding record_call
  is_found-with_prefix none now call capability p k = refl
  is_found-with_prefix (some prefix) now call capability p k =
      is_found-set_key call.idem_key k _ p.settled _ p.rand refl

  is_found-serve :
      (arrivals : List Arrival) (p : Psp) (k : String)
      → is_found k (serve arrivals p) ≡ (any (carries k) arrivals || is_found k p)
  unfolding invoke
  is_found-serve [] p k = refl
  is_found-serve (a ∷ rest) p k = ground (
    arith,
    is_found-serve rest
        (psp_after f to_number (invoke f to_number latent a.at a.capability a.call p) p) k,
    is_found-with_prefix (prefix_of f to_number a.capability) a.at a.call a.capability p k,
  )

  -- After any calls of the simulated provider a reconciliation settles, of the attempts in flight,
  -- exactly those whose key a call with one of its capabilities carried or that it knew before; all
  -- other attempts stay as they were.
  pub reconcile-serve :
      (arrivals : List Arrival) (p : Psp) (now : ℕ) (t : Tables)
      → (reconcile (adapter f to_number latent now (serve arrivals p)) now t).attempts
        ≡ update_where
            (λ a. is_in_flight a && (any (carries a.idem_key) arrivals || is_found a.idem_key p))
            (settle_row reconciled now)
            t.attempts
  unfolding reconcile adapter
  reconcile-serve arrivals p now t =
      ap {A = String → Bool}
        (λ g.
          update_where (λ a. is_in_flight a && g a.idem_key) (settle_row reconciled now) t.attempts)
        (λ i k. is_found-serve arrivals p k i)
