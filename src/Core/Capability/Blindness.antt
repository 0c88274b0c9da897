-- ===== src/Core/Capability/Blindness.antt =====
-- What the signature and the parameter hash do not see.
use Prim.Native.String.{◌++◌}
use razorpay_buildathon.Base.{
  ℕ, String, ◌≡◌, ap, ◌∙◌, sym, false, Option, none, [], ◌∷◌, ◌===◌, ===_refl, arith,
}
use razorpay_buildathon.Core.Platform.{Platform}
use razorpay_buildathon.Core.Json.{
  Value, object, end, field, join, select, stringify, stringify_fields,
}
use razorpay_buildathon.Core.Capability.Admission.{verify_iff, hash_params-hashed_text}
use razorpay_buildathon.Core.Capability.{CapabilityToken, Minter, Call, hash_params, verify}

select_absent :
    (pf : Platform) (k j s : String) → (j === k) ≡ false → select pf (k ∷ []) ((j, s) ∷ []) ≡ []
select_absent pf k j s h = ground arith

select_present :
    (pf : Platform) (k s : String)
    → select pf (k ∷ []) ((k, s) ∷ []) ≡ (pf.quote k ++ (":" ++ s)) ∷ []
select_present pf k s = ground (arith, ===_refl k)

-- An inner object whose only key is not among the hashed keys prints as an empty one.
inner_empty :
    (pf : Platform) (k j : String) (v : Value)
    → (j === k) ≡ false
    → stringify pf (k ∷ []) (object (field j v end)) ≡ "{" ++ ("" ++ "}")
unfolding stringify stringify_fields
inner_empty pf k j v h =
    ap (λ l. "{" ++ (join "," l ++ "}")) (select_absent pf k j (stringify pf (k ∷ []) v) h)

-- An object with one field under a hashed key prints that field.
outer_field :
    (pf : Platform) (k : String) (v : Value)
    → stringify pf (k ∷ []) (object (field k v end))
      ≡ "{" ++ ((pf.quote k ++ (":" ++ stringify pf (k ∷ []) v)) ++ "}")
unfolding stringify stringify_fields
outer_field pf k v =
    ap (λ l. "{" ++ (join "," l ++ "}")) (select_present pf k (stringify pf (k ∷ []) v))

hash_params-one :
    (pf : Platform) (k : String) (v : Value)
    → hash_params pf (field k v end)
      ≡ pf.hmac "params" ("{" ++ ((pf.quote k ++ (":" ++ stringify pf (k ∷ []) v)) ++ "}"))
unfolding hash_params
hash_params-one pf k v = ap (pf.hmac "params") (outer_field pf k v)

-- Parameters with one object under a key hash alike whatever value stands in that object under
-- another key: the hash of a call's parameters does not see into them.
pub hash_params_blind :
    (pf : Platform) (k j : String) (v w : Value)
    → (j === k) ≡ false
    → hash_params pf (field k (object (field j v end)) end)
      ≡ hash_params pf (field k (object (field j w end)) end)
hash_params_blind pf k j v w h =
    hash_params-one pf k (object (field j v end))
    ∙ ap (λ s. pf.hmac "params" ("{" ++ ((pf.quote k ++ (":" ++ s)) ++ "}")))
        (inner_empty pf k j v h ∙ sym (inner_empty pf k j w h))
    ∙ sym (hash_params-one pf k (object (field j w end)))

-- A token that admits a call whose parameters have one object under a key admits the call with any
-- other value inside that object, under a key of its own: the token does not cover the nested
-- value.
pub verify_blind :
    (pf : Platform) (m : Minter) (now : ℕ) (t : CapabilityToken) (id : String) (amount : Option ℕ)
    (k j : String) (v w : Value)
    → (j === k) ≡ false
    → verify pf m now t (record {
      action_id = id;
      params = field k (object (field j v end)) end;
      amount_paise = amount;
    })
      ≡ none
    → verify pf m now t (record {
      action_id = id;
      params = field k (object (field j w end)) end;
      amount_paise = amount;
    })
      ≡ none
verify_blind pf m now t id amount k j v w h a =
    let call = λ (x : Value).
      let c : Call = record {
        action_id = id;
        params = field k (object (field j x end)) end;
        amount_paise = amount;
      } in
      c in
    let ok = (verify_iff pf m now t (call v)).0 a in
    (verify_iff pf m now t (call w)).1 (record {
      signed = ok.signed;
      in_time = ok.in_time;
      same_action = ok.same_action;
      same_params =
          ok.same_params
          ∙ sym (hash_params-hashed_text pf (call v).params)
          ∙ hash_params_blind pf k j v w h
          ∙ hash_params-hashed_text pf (call w).params;
      in_cap = ok.in_cap;
    })
