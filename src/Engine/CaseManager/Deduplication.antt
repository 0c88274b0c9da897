-- ===== src/Engine/CaseManager/Deduplication.antt =====
-- One obligation for a merchant's reference, and one open case for an obligation.
use razorpay_buildathon.Base.{
  ℕ, ◌≤◌, ◌≡◌, refl, sym, ◌∙◌, inl, inr, String, Bool, true, not, ◌&&◌, Option, none, some, List,
  [], ◌∷◌, ◌++◌, arith, ◌===◌, ◌==◌, ===_iff, length, count, filter, find?, sort, any, is_some, leb,
  Bool-cases, Option-cases, count-append, length-filter, length-sort, count-update_where-le,
  count-find?,
}
use razorpay_buildathon.Base.Int.{pos, eq_ℤ}
use razorpay_buildathon.Core.Events.{CaseEvent, CaseRevision, StoredCaseEvent, Reduced}
use razorpay_buildathon.Db.Tables.{CaseRow}
use razorpay_buildathon.Db.CaseEvents.{
  Db, Appended, after_reduce, is_case, of_case, project, advance, persist, append, append_locked,
}
use razorpay_buildathon.Engine.Reconciler.{ObligationRow}
use razorpay_buildathon.Engine.Verifier.{open_case, first_case}
use razorpay_buildathon.Engine.CaseManager.{
  OpenCaseRequest, Store, Opening, opened, thrown, has_key, due_obligation, upsert_obligation,
  new_case, with_new_case, after_event, attach_or_open, with_obligation, open_or_attach,
}

abbrev pub is_open_for : String → CaseRow → Bool
is_open_for ob c = c.obligation_id === ob && not (is_some c.closed_at)

-- What the index promises of the obligations, and deduplication of the cases.
pub record IsDeduplicated (s : Store) : Type 0 where
  pub one_key :
      (merchant external_ref : String) → count (has_key merchant external_ref) s.obligations ≤ 1
  pub one_open : (ob : String) → count (is_open_for ob) s.db.cases ≤ 1

pub open_case-none :
    (ob : String) (cases : List CaseRow)
    → open_case ob cases ≡ none
    → count (is_open_for ob) cases ≡ 0
unfolding open_case
open_case-none ob cases h =
    sym (length-filter (is_open_for ob) cases)
    ∙ sym (length-sort (λ a b. leb a.opened_at b.opened_at) (filter (is_open_for ob) cases))
    ∙ no_first (sort (λ a b. leb a.opened_at b.opened_at) (filter (is_open_for ob) cases)) h
  where
    no_first : (cs : List CaseRow) → first_case cs ≡ none → length cs ≡ 0
    no_first [] e = refl
    no_first (c ∷ cs) e = absurd (ground arith)

-- An append opens no case.
abbrev OpensNone : String → Db → Appended → Type 0
OpensNone ob db (Appended.ok e r db') =
    count (is_open_for ob) db'.cases ≤ count (is_open_for ob) db.cases
OpensNone ob db (Appended.err x) = Unit {0}

pub still_open :
    (ob : String) (r : CaseRevision) (at : ℕ) (c : CaseRow)
    → is_open_for ob (project r at c) ≡ true
    → is_open_for ob c ≡ true
still_open ob r at c h = ground arith

after_reduce-OpensNone :
    (ob : String) (reduced : Reduced) (id : String) (at : ℕ) (e : StoredCaseEvent) (db before : Db)
    → count (is_open_for ob) db.cases ≤ count (is_open_for ob) before.cases
    → OpensNone ob before (after_reduce reduced id at e db)
unfolding persist
after_reduce-OpensNone ob (Reduced.err x) id at e db before h = tt
after_reduce-OpensNone ob (Reduced.ok r) id at e db before h =
    elim (Bool-cases
      (any (λ v. (v.case_id === id) && (v.revision == r.revision)) db.case_revisions)) [
        | inl t ↦ rw t tt
        | inr f ↦ rw f (
            omega (
              arith,
              h,
              count-update_where-le (is_open_for ob) (is_case id) (project r at) db.cases
                  (still_open ob r at),
            ))
      ]

append_locked-OpensNone :
    (ob : String) (c : CaseRow) (event : CaseEvent) (source : String) (at : ℕ) (db : Db)
    → OpensNone ob db (append_locked c event source at db)
unfolding append_locked
append_locked-OpensNone ob c event source at db =
    elim (Bool-cases (any (λ e. of_case c.id e && eq_ℤ e.seq (pos c.next_seq)) db.case_events)) [
      | inl t ↦ rw t tt
      | inr f ↦ rw f (
          after_reduce-OpensNone ob _ c.id at _ _ db
            (count-update_where-le (is_open_for ob) (is_case c.id) advance db.cases (λ a q. q)))
    ]

append-OpensNone :
    (ob id : String) (event : CaseEvent) (source : String) (at : ℕ) (db : Db)
    → OpensNone ob db (append id event source at db)
unfolding append
append-OpensNone ob id event source at db = elim (Option-cases (find? (is_case id) db.cases)) [
  | inl e ↦ rw e tt
  | inr (c, e) ↦ rw e (append_locked-OpensNone ob c event source at db)
]

-- The store that a call leaves.
abbrev pub store_of : Opening → Store
store_of (opened r s) = s
store_of (thrown x s) = s

after_event-IsDeduplicated :
    (a : Appended) (req : OpenCaseRequest) (s : Store)
    → ((ob : String) → OpensNone ob s.db a)
    → IsDeduplicated s
    → IsDeduplicated (store_of (after_event a req s))
after_event-IsDeduplicated (Appended.err x) req s opens v = v
after_event-IsDeduplicated (Appended.ok e r db) req s opens v = record {
  one_key = v.one_key;
  one_open = λ ob. omega (arith, opens ob, v.one_open ob);
}

-- The new case is the only open one of its obligation.
with_new_case-IsDeduplicated :
    (now : ℕ) (obligation_id : String) (req : OpenCaseRequest) (s : Store)
    → count (is_open_for obligation_id) s.db.cases ≡ 0
    → IsDeduplicated s
    → IsDeduplicated (with_new_case now obligation_id req s)
with_new_case-IsDeduplicated now obligation_id req s none_open v = record {
  one_key = v.one_key;
  one_open = λ ob. ground (
    arith,
    ===_iff obligation_id ob,
    v.one_open ob,
    none_open,
    count-append (is_open_for ob) s.db.cases (new_case now obligation_id req ∷ []),
  );
}

attach_or_open-IsDeduplicated :
    (now : ℕ) (req : OpenCaseRequest) (obligation_id : String) (s before : Store)
    → IsDeduplicated s
    → IsDeduplicated before
    → IsDeduplicated (
        store_of
          (attach_or_open (open_case obligation_id s.db.cases) now req obligation_id s before))
unfolding attach_or_open
attach_or_open-IsDeduplicated now req obligation_id s before v w =
    elim (Option-cases (open_case obligation_id s.db.cases)) [
      | inr (c, e) ↦ rw e v
      | inl e ↦ rw e (elim (Bool-cases (any (is_case req.case_id) s.db.cases)) [
        | inl t ↦ rw t w
        | inr f ↦ rw f (
            after_event-IsDeduplicated _ req (with_new_case now obligation_id req s)
              (λ ob. append-OpensNone ob req.case_id _ "case_manager" now _)
              (with_new_case-IsDeduplicated now obligation_id req s
                (open_case-none obligation_id s.db.cases e) v))
      ])
    ]

key_added :
    (req : OpenCaseRequest) (obligations : List ObligationRow) (merchant external_ref : String)
    → find? (has_key req.merchant_id req.external_ref) obligations ≡ none
    → count (has_key merchant external_ref) obligations ≤ 1
    → count (has_key merchant external_ref) (obligations ++ due_obligation req ∷ []) ≤ 1
key_added req obligations merchant external_ref e h = ground (
  arith,
  ===_iff req.merchant_id merchant,
  ===_iff req.external_ref external_ref,
  count-find? (has_key req.merchant_id req.external_ref) obligations e,
  count-append (has_key merchant external_ref) obligations (due_obligation req ∷ []),
)

abbrev OneKey : List ObligationRow → Type 0
OneKey obligations =
    (merchant external_ref : String) → count (has_key merchant external_ref) obligations ≤ 1

abbrev KeepsKeys : Option (String × List ObligationRow) → Type 0
KeepsKeys none = Unit {0}
KeepsKeys (some (id, obligations)) = OneKey obligations

upsert_obligation-KeepsKeys :
    (req : OpenCaseRequest) (obligations : List ObligationRow)
    → OneKey obligations
    → KeepsKeys (upsert_obligation req obligations)
unfolding upsert_obligation
upsert_obligation-KeepsKeys req obligations h =
    elim (Option-cases (find? (has_key req.merchant_id req.external_ref) obligations)) [
      | inr (o, e) ↦ rw (e, upsert_obligation) h
      | inl e ↦
          rw (e, upsert_obligation)
            (elim (Bool-cases (any (λ o. o.id === req.obligation_id) obligations)) [
              | inl t ↦ rw t tt
              | inr f ↦ rw f (λ m x. key_added req obligations m x e (h m x))
            ])
    ]

with_obligation-IsDeduplicated :
    (o : Option (String × List ObligationRow)) (now : ℕ) (req : OpenCaseRequest) (s : Store)
    → KeepsKeys o
    → IsDeduplicated s
    → IsDeduplicated (store_of (with_obligation o now req s))
with_obligation-IsDeduplicated none now req s k v = v
with_obligation-IsDeduplicated (some (id, obligations)) now req s k v =
    attach_or_open-IsDeduplicated now req id (record s { obligations = obligations }) s
      (record { one_key = k; one_open = v.one_open }) v

-- Where every merchant's reference has at most one obligation and every obligation at most one open
-- case, `openOrAttach` leaves a store in which this still holds, also where it throws.
pub open_or_attach-IsDeduplicated :
    (now : ℕ) (req : OpenCaseRequest) (s : Store)
    → IsDeduplicated s
    → IsDeduplicated (store_of (open_or_attach now req s))
unfolding open_or_attach
open_or_attach-IsDeduplicated now req s v =
    with_obligation-IsDeduplicated (upsert_obligation req s.obligations) now req s
      (upsert_obligation-KeepsKeys req s.obligations v.one_key) v
