-- ===== src/Engine/CheckoutWatcher/Conversion.antt =====
-- A converted session is never found abandoned again.
use razorpay_buildathon.Base.{
  ℕ, ◌≡◌, refl, ap, subst, sym, ◌∙◌, String, Bool, true, false, some, List, [], ◌∷◌, arith, ◌===◌,
  ===_iff, All, All-append, All-map, All-sort, All-filter, any, any-append, any-update_where,
  All-update_where, is_some, get_or, update_where, Bool-cases, inl, inr,
}
use razorpay_buildathon.Engine.Reconciler.{ObligationRow}
use razorpay_buildathon.Engine.CheckoutWatcher.{
  CheckoutEvent, SessionRow, is_session, touch, complete, mark_converted, abandoned,
  abandoned_session, is_abandoned, new_session,
}

-- The calls that write the sessions.
pub data WatcherCall : Type 0 where
  touches : ℕ → CheckoutEvent → WatcherCall
  completes : ℕ → String → String → WatcherCall
  converts : ℕ → ℕ → String → String → WatcherCall

-- A call that throws changes nothing.
abbrev pub call : WatcherCall → List SessionRow → List SessionRow
call (touches now e) sessions = get_or sessions (touch now e sessions)
call (completes now m x) sessions = complete now m x sessions
call (converts threshold now id case_id) sessions =
    (mark_converted threshold now id case_id sessions []).0

abbrev pub run : List WatcherCall → List SessionRow → List SessionRow
run [] sessions = sessions
run (c ∷ cs) sessions = run cs (call c sessions)

abbrev has_id : String → SessionRow → Bool
has_id id s = s.id === id

-- The session is in the table, and linked to its case.
record IsConverted (id : String) (sessions : List SessionRow) : Type 0 where
  there : any (has_id id) sessions ≡ true
  linked : All (λ s. has_id id s ≡ true → is_some s.case_id ≡ true) sessions

update_where-IsConverted :
    (id : String) (p : SessionRow → Bool) (f : SessionRow → SessionRow) (sessions : List SessionRow)
    → ((s : SessionRow) → (f s).id ≡ s.id)
    → ((s : SessionRow) → is_some s.case_id ≡ true → is_some (f s).case_id ≡ true)
    → IsConverted id sessions
    → IsConverted id (update_where p f sessions)
update_where-IsConverted id p f sessions same keeps v = record {
  there = any-update_where (has_id id) p f sessions (λ s. ap (λ i. i === id) (same s)) ∙ v.there;
  linked =
      All-update_where (λ s. has_id id s ≡ true → is_some s.case_id ≡ true) p f sessions
        (λ s h t. keeps s (h (sym (ap (λ i. i === id) (same s)) ∙ t))) v.linked;
}

call-IsConverted :
    (id : String) (c : WatcherCall) (sessions : List SessionRow)
    → IsConverted id sessions
    → IsConverted id (call c sessions)
unfolding touch complete mark_converted
call-IsConverted id (completes now m x) sessions v =
    update_where-IsConverted id _ _ sessions (λ s. refl) (λ s t. t) v
call-IsConverted id (converts threshold now i case_id) sessions v =
    update_where-IsConverted id _ _ sessions (λ s. refl) (λ s t. refl) v
call-IsConverted id (touches now e) sessions v =
    elim (Bool-cases (any (is_session e.merchant_id e.external_ref) sessions)) [
      | inl t ↦ rw t (update_where-IsConverted id _ _ sessions (λ s. refl) (λ s t. t) v)
      | inr n ↦ rw n (elim (Bool-cases (any (has_id e.session_id) sessions)) [
        | inl t ↦ rw t v
        | inr free ↦ rw free (record {
          there = ground (arith, any-append (has_id id) sessions (new_session now e ∷ []), v.there);
          linked =
              All-append (λ s. has_id id s ≡ true → is_some s.case_id ≡ true) sessions
                (new_session now e ∷ []) v.linked
                ((λ t. absurd (taken ((===_iff e.session_id id).0 t) free v.there)), tt);
        })
      ])
    ]
  where
    taken :
        e.session_id ≡ id
        → any (has_id e.session_id) sessions ≡ false
        → any (has_id id) sessions ≡ true
        → ⊥
    taken q free there = let not_there = subst (λ i. any (has_id i) sessions ≡ false) q free in cc

run-IsConverted :
    (id : String) (cs : List WatcherCall) (sessions : List SessionRow)
    → IsConverted id sessions
    → IsConverted id (run cs sessions)
run-IsConverted id [] sessions v = v
run-IsConverted id (c ∷ cs) sessions v =
    run-IsConverted id cs (call c sessions) (call-IsConverted id c sessions v)

marked-IsConverted :
    (id case_id : String) (sessions : List SessionRow)
    → any (has_id id) sessions ≡ true
    → IsConverted id (update_where (has_id id) (λ s. record s { case_id = some case_id }) sessions)
marked-IsConverted id case_id sessions h = record {
  there = any-update_where (has_id id) (has_id id) _ sessions (λ s. refl) ∙ h;
  linked = all_linked sessions;
}
  where
    all_linked :
        (xs : List SessionRow)
        → All
            (λ s. has_id id s ≡ true → is_some s.case_id ≡ true)
            (update_where (has_id id) (λ s. record s { case_id = some case_id }) xs)
    all_linked [] = tt
    all_linked (x ∷ xs) = ((λ t. ground (arith)), all_linked xs)

-- Once a session of the table is marked as converted, no further events, completions or conversions
-- bring it back: at any later time, with any obligations, it is not among the abandoned ones.
pub mark_converted_once :
    (threshold at now : ℕ) (id case_id : String) (sessions : List SessionRow)
    (cs : List WatcherCall) (obligations : List ObligationRow)
    → any (λ s. s.id === id) sessions ≡ true
    → All
        (λ a. (a.session_id === id) ≡ false)
        (abandoned threshold now obligations (run (converts threshold at id case_id ∷ cs) sessions))
unfolding abandoned mark_converted
mark_converted_once threshold at now id case_id sessions cs obligations h =
    let v =
      run-IsConverted id cs
        (update_where (has_id id) (λ s. record s { case_id = some case_id }) sessions)
        (marked-IsConverted id case_id sessions h) in
    All-map (λ a. (a.session_id === id) ≡ false) (abandoned_session now) _
      (All-sort (λ s. has_id id s ≡ false) _ _
        (All-filter (λ s. has_id id s ≡ true → is_some s.case_id ≡ true) (λ s. has_id id s ≡ false)
          (is_abandoned threshold now obligations) _ (λ s k t. not_listed s k t) v.linked))
  where
    not_listed :
        (s : SessionRow)
        → (has_id id s ≡ true → is_some s.case_id ≡ true)
        → is_abandoned threshold now obligations s ≡ true
        → has_id id s ≡ false
    not_listed s k t = elim (Bool-cases (has_id id s)) [
      | inl own ↦ let linked = k own in absurd (ground arith)
      | inr other ↦ other
    ]
