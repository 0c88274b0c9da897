-- ===== src/Engine/Blackboard/Claims.antt =====
-- A role has at most one live claim in a case.
use razorpay_buildathon.Base.{
  ℕ, String, ◌+◌, ◌≤◌, ◌≡◌, refl, ◌∙◌, ap, sym, inl, inr, Bool, false, not, ◌&&◌, some, List, [],
  ◌∷◌, ◌++◌, arith, ◌===◌, ===_iff, ===_refl, any, filter, update_where, length, count, any-map,
  any-sort, any-filter, any-ext, map, if◌then◌else◌, Bool-cases, length-append, length-update_where,
}
use razorpay_buildathon.Core.Roles.{RoleId, same_role, same_role_iff}
use razorpay_buildathon.Engine.Blackboard.{
  ClaimRow, Board, WriteClaim, holds_role, is_live_of, fall, new_claim, write_claim, live_claims,
  by_role, invalidate_roles, holds_one_of,
}

count-append :
    (p : ClaimRow → Bool) (xs ys : List ClaimRow) → count p (xs ++ ys) ≡ count p xs + count p ys
count-append p [] ys = omega arith
count-append p (x ∷ xs) ys = omega (arith, count-append p xs ys)

-- The invariant of the unique index: no role of a case has two live claims.
abbrev pub LiveUnique : List ClaimRow → Type 0
LiveUnique cs = (case_id : String) (r : RoleId) → count (holds_role case_id r) cs ≤ 1

any-count : (p : ClaimRow → Bool) (xs : List ClaimRow) → any p xs ≡ false → count p xs ≡ 0
any-count p [] h = omega arith
any-count p (x ∷ xs) h = ground (arith, any-count p xs)

fall-count :
    (q : ClaimRow → Bool) (now : ℕ) (case_id : String) (r : RoleId) (cs : List ClaimRow)
    → count (holds_role case_id r) (update_where q (fall now) cs) ≤ count (holds_role case_id r) cs
fall-count q now case_id r [] = omega arith
fall-count q now case_id r (c ∷ cs) = ground (arith, fall-count q now case_id r cs)

-- Another role or case keeps its live claims.
fall-other :
    (now : ℕ) (case_id : String) (r : RoleId) (j : String) (s : RoleId) (cs : List ClaimRow)
    → ((case_id === j) && same_role r s) ≡ false
    → count (holds_role j s) (update_where (holds_role case_id r) (fall now) cs)
      ≡ count (holds_role j s) cs
fall-other now case_id r j s [] h = omega arith
fall-other now case_id r j s (c ∷ cs) h = ground (
  arith,
  ===_iff c.case_id case_id,
  ===_iff c.case_id j,
  ===_iff case_id j,
  same_role_iff c.role r,
  same_role_iff c.role s,
  same_role_iff r s,
  fall-other now case_id r j s cs h,
)

fall-none :
    (now : ℕ) (case_id : String) (r : RoleId) (cs : List ClaimRow)
    → count (holds_role case_id r) (update_where (holds_role case_id r) (fall now) cs) ≡ 0
fall-none now case_id r [] = omega arith
fall-none now case_id r (c ∷ cs) = ground (arith, fall-none now case_id r cs)

-- The rows after a write that succeeds.
pub written :
    (now : ℕ) (w : WriteClaim) (b b' : Board)
    → write_claim now w b ≡ some b'
    → b'.claims
      ≡ update_where (holds_role w.case_id w.role) (fall now) b.claims ++ new_claim now w ∷ []
unfolding write_claim
written now w b b' h = ground arith

pub live_after :
    (now : ℕ) (w : WriteClaim) (b b' : Board) (j : String) (s : RoleId)
    → write_claim now w b ≡ some b'
    → count (holds_role j s) b'.claims
      ≡ (if (w.case_id === j) && same_role w.role s then 1 else count (holds_role j s) b.claims)
live_after now w b b' j s h = elim (Bool-cases ((w.case_id === j) && same_role w.role s)) [
  | inl same ↦
      let ej : w.case_id ≡ j = (===_iff w.case_id j).0 (ground arith) in
      let es : w.role ≡ s = (same_role_iff w.role s).0 (ground arith) in
      rw
        (
          same,
          written now w b b' h,
          count-append (holds_role j s)
              (update_where (holds_role w.case_id w.role) (fall now) b.claims)
              (new_claim now w ∷ []),
        )
        (rw (← ej, ← es)
          (ground (arith, fall-none now w.case_id w.role b.claims, ===_refl w.case_id)))
  | inr other ↦
      rw
        (
          other,
          written now w b b' h,
          count-append (holds_role j s)
              (update_where (holds_role w.case_id w.role) (fall now) b.claims)
              (new_claim now w ∷ []),
        )
        (ground (arith, fall-other now w.case_id w.role j s b.claims other))
]

-- A claim that is written is the only live claim of its role in its case, every other role and
-- case keeps as many live claims as it had, and no row of the table is lost.
pub write_claim-replaces :
    (now : ℕ) (w : WriteClaim) (b b' : Board)
    → write_claim now w b ≡ some b'
    → (count (holds_role w.case_id w.role) b'.claims ≡ 1)
      × ((j : String) (s : RoleId)
          → ((w.case_id === j) && same_role w.role s) ≡ false
          → count (holds_role j s) b'.claims ≡ count (holds_role j s) b.claims)
      × (length b'.claims ≡ length b.claims + 1)
write_claim-replaces now w b b' h = (
  ground (arith, live_after now w b b' w.case_id w.role h, ===_refl w.case_id),
  λ j s other. live_after now w b b' j s h ∙ rw other,
  rw (written now w b b' h) (
      omega (
        arith,
        length-append (update_where (holds_role w.case_id w.role) (fall now) b.claims)
            (new_claim now w ∷ []),
        length-update_where (holds_role w.case_id w.role) (fall now) b.claims,
      )),
)

write_claim-LiveUnique :
    (now : ℕ) (w : WriteClaim) (b b' : Board)
    → write_claim now w b ≡ some b'
    → LiveUnique b.claims
    → LiveUnique b'.claims
write_claim-LiveUnique now w b b' h u j s = ground (arith, live_after now w b b' j s h, u j s)

invalidate_roles-LiveUnique :
    (now : ℕ) (case_id : String) (roles : List RoleId) (b : Board)
    → LiveUnique b.claims
    → LiveUnique (invalidate_roles now case_id roles b).0.claims
unfolding invalidate_roles
invalidate_roles-LiveUnique now case_id [] b u = u
invalidate_roles-LiveUnique now case_id (r ∷ roles) b u =
    λ j s. omega (arith, fall-count (holds_one_of case_id (r ∷ roles)) now j s b.claims, u j s)

pub fall-id :
    (q : ClaimRow → Bool) (now : ℕ) (id : String) (cs : List ClaimRow)
    → any (λ c. c.id === id) (update_where q (fall now) cs) ≡ any (λ c. c.id === id) cs
fall-id q now id [] = refl
fall-id q now id (c ∷ cs) = ground (arith, fall-id q now id cs)

count-any : (p : ClaimRow → Bool) (cs : List ClaimRow) → count p cs ≡ 0 → any p cs ≡ false
count-any p [] h = refl
count-any p (c ∷ cs) h = ground (arith, count-any p cs)

fall-any :
    (now : ℕ) (case_id : String) (r : RoleId) (cs : List ClaimRow)
    → any (holds_role case_id r) (update_where (holds_role case_id r) (fall now) cs) ≡ false
fall-any now case_id r cs = count-any (holds_role case_id r) _ (fall-none now case_id r cs)

-- A claim with a fresh id is always written: the insert never meets the unique index on the live
-- claim of a role.
pub write_claim-total :
    (now : ℕ) (w : WriteClaim) (b : Board)
    → any (λ c. c.id === w.id) b.claims ≡ false
    → (b' : Board) × (write_claim now w b ≡ some b')
unfolding write_claim
write_claim-total now w b h = (
  record b {
    claims = update_where (holds_role w.case_id w.role) (fall now) b.claims ++ new_claim now w ∷ [];
  },
  rw (
    fall-id (holds_role w.case_id w.role) now w.id b.claims,
    h,
    fall-any now w.case_id w.role b.claims,
  ),
)

-- The roles of the live claims are those with a live claim in the table.
pub live_claims-roles :
    (case_id : String) (b : Board) (s : RoleId)
    → any (same_role s) (map (λ c. c.role) (live_claims case_id b))
      ≡ any (holds_role case_id s) b.claims
unfolding live_claims
live_claims-roles case_id b s =
    any-map (λ (c : ClaimRow). c.role) (same_role s) (live_claims case_id b)
    ∙ any-sort (λ (c : ClaimRow). same_role s c.role) by_role (filter (is_live_of case_id) b.claims)
    ∙ any-filter (λ (c : ClaimRow). same_role s c.role) (is_live_of case_id) b.claims
    ∙ any-ext (λ (c : ClaimRow). same_role s c.role && is_live_of case_id c) (holds_role case_id s)
        b.claims (λ c. ground (arith, same_role_iff s c.role, same_role_iff c.role s))

-- The live claims that a statement leaves are those that it did not select.
fall-left :
    (p : ClaimRow → Bool) (now : ℕ) (case_id : String) (s : RoleId) (cs : List ClaimRow)
    → any (holds_role case_id s) (update_where p (fall now) cs)
      ≡ any (λ c. holds_role case_id s c && not (p c)) cs
fall-left p now case_id s [] = refl
fall-left p now case_id s (c ∷ cs) = ground (arith, fall-left p now case_id s cs)

any-const :
    (p : ClaimRow → Bool) (b : Bool) (cs : List ClaimRow) → any (λ c. p c && b) cs ≡ (any p cs && b)
any-const p b [] = refl
any-const p b (c ∷ cs) = ground (arith, any-const p b cs)

role_selected :
    (case_id : String) (roles : List RoleId) (s : RoleId) (c : ClaimRow)
    → (holds_role case_id s c && not (holds_one_of case_id roles c))
      ≡ (holds_role case_id s c && not (any (same_role s) roles))
role_selected case_id roles s c = elim (Bool-cases (same_role c.role s)) [
  | inl same ↦
      let e = ap (λ r. any (same_role r) roles) ((same_role_iff c.role s).0 same) in
      ground (arith, e)
  | inr other ↦ rw other (ground arith)
]

invalidate_roles-any :
    (now : ℕ) (case_id : String) (roles : List RoleId) (s : RoleId) (b : Board)
    → any (holds_role case_id s) (invalidate_roles now case_id roles b).0.claims
      ≡ (any (holds_role case_id s) b.claims && not (any (same_role s) roles))
unfolding invalidate_roles
invalidate_roles-any now case_id [] s b = ground arith
invalidate_roles-any now case_id (r ∷ roles) s b =
    fall-left (holds_one_of case_id (r ∷ roles)) now case_id s b.claims
    ∙ any-ext (λ (c : ClaimRow). holds_role case_id s c && not (holds_one_of case_id (r ∷ roles) c))
        (λ (c : ClaimRow). holds_role case_id s c && not (any (same_role s) (r ∷ roles))) b.claims
        (role_selected case_id (r ∷ roles) s)
    ∙ any-const (holds_role case_id s) (not (any (same_role s) (r ∷ roles))) b.claims

-- The live claims of a case after an invalidation are those of the roles that were not named.
pub live_claims-invalidate_roles :
    (now : ℕ) (case_id : String) (roles : List RoleId) (s : RoleId) (b : Board)
    → any
        (same_role s)
        (map (λ c. c.role) (live_claims case_id (invalidate_roles now case_id roles b).0))
      ≡ (any (same_role s) (map (λ c. c.role) (live_claims case_id b))
          && not (any (same_role s) roles))
live_claims-invalidate_roles now case_id roles s b =
    live_claims-roles case_id (invalidate_roles now case_id roles b).0 s
    ∙ invalidate_roles-any now case_id roles s b
    ∙ ap (λ x. x && not (any (same_role s) roles)) (sym (live_claims-roles case_id b s))
