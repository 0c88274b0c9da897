-- ===== src/Core/Actions/Lookup.antt =====
-- What a lookup in a loaded library guarantees.
use razorpay_buildathon.Base.{
  ℕ, zero, suc, String, ◌≡◌, refl, sym, subst, All, find_last?-found, find_last?-All, ◌⊎◌, inl, inr,
  true, false, none, some, List, [], ◌∷◌, arith, ◌===◌, ===_iff, ===_refl, any, find_last?,
  get_elem?, Bool-cases,
}
use razorpay_buildathon.Core.Actions.{
  ActionError, ActionDef, capability_kind, schedule_kind, ForbiddenActionDef, ActionLibrary, Found,
  Loaded, LoadedLibrary, LoadError, RawAction, RawDefaults, get, has_id, forbids, names_capability,
  to_action, check_action, load_actions, parse_action_library,
}

pub Loaded-cases :
    (x : Loaded)
    → ((l : List ActionDef) × (x ≡ Loaded.ok l)) ⊎ ((e : LoadError) × (x ≡ Loaded.err e))
Loaded-cases (Loaded.ok l) = inl (l, refl)
Loaded-cases (Loaded.err e) = inr (e, refl)

-- The parts of a load that succeeds.
load_actions-cons :
    (d : RawDefaults) (seen : List String) (a : RawAction) (rest : List RawAction)
    (l : List ActionDef)
    → load_actions d seen (a ∷ rest) ≡ Loaded.ok l
    → (check_action seen a ≡ none)
      × ((l' : List ActionDef) × (load_actions d (a.id ∷ seen) rest ≡ Loaded.ok l')
          × (l ≡ to_action d a ∷ l'))
unfolding load_actions
load_actions-cons d seen a rest l h = elim (Loaded-cases (load_actions d (a.id ∷ seen) rest)) [
  | inl (l', e) ↦ (ground arith, (l', e, ground arith))
  | inr (x, e) ↦ absurd (ground arith)
]

check-fresh :
    (seen : List String) (a : RawAction)
    → check_action seen a ≡ none
    → any (λ s. s === a.id) seen ≡ false
unfolding check_action
check-fresh seen a h = ground arith

check-kind :
    (seen : List String) (a : RawAction)
    → check_action seen a ≡ none
    → (a.kind ≡ capability_kind) × (names_capability a.capability ≡ true)
      ⊎ (a.kind ≡ schedule_kind) × (names_capability a.capability ≡ false)
unfolding check_action
check-kind seen a h = ground arith

-- An id that was seen is not loaded again.
seen_absent :
    (d : RawDefaults) (id : String) (raw : List RawAction) (seen : List String) (l : List ActionDef)
    → any (λ s. s === id) seen ≡ true
    → load_actions d seen raw ≡ Loaded.ok l
    → find_last? (has_id id) l ≡ none
unfolding load_actions to_action
seen_absent d id [] seen l s h = ground arith
seen_absent d id (a ∷ rest) seen l s h =
    let (c, (l', e, x)) = load_actions-cons d seen a rest l h in
    let later = seen_absent d id rest (a.id ∷ seen) l' (rw s (ground arith)) e in
    elim (Bool-cases (a.id === id)) [
      | inl same ↦
          absurd
            (let fresh = rw ((===_iff a.id id).0 same) at (check-fresh seen a c) in ground arith)
      | inr other ↦ rw x (ground arith)
    ]

-- The entry that was loaded last is found first.
newest :
    (d : RawDefaults) (x : RawAction) (l : List ActionDef)
    → find_last? (has_id x.id) l ≡ none
    → find_last? (has_id x.id) (to_action d x ∷ l) ≡ some (to_action d x)
unfolding to_action
newest d x l h = rw (h, find_last?) (rw (===_refl x.id))

load_actions-find :
    (d : RawDefaults) (raw : List RawAction) (seen : List String) (l : List ActionDef) (i : ℕ)
    (a : RawAction)
    → load_actions d seen raw ≡ Loaded.ok l
    → get_elem? raw i ≡ some a
    → find_last? (has_id a.id) l ≡ some (to_action d a)
unfolding load_actions
load_actions-find d [] seen l i a h k = cc
load_actions-find d (x ∷ rest) seen l zero a h k =
    let (c, (l', e, q)) = load_actions-cons d seen x rest l h in
    let here = seen_absent d x.id rest (x.id ∷ seen) l' (rw (===_refl x.id)) e in
    let same : x ≡ a = cc in
    rw q (
      subst
        (λ (y : RawAction). find_last? (has_id y.id) (to_action d x ∷ l') ≡ some (to_action d y))
        same (newest d x l' here))
load_actions-find d (x ∷ rest) seen l (suc i) a h k =
    let (c, (l', e, q)) = load_actions-cons d seen x rest l h in
    let there = load_actions-find d rest (x.id ∷ seen) l' i a e k in rw q (rw (there, find_last?))

-- A capability action names its capability, and a schedule action binds none.
abbrev pub IsBound : ActionDef → Type 0
IsBound a =
    (a.kind ≡ capability_kind) × (names_capability a.capability ≡ true)
    ⊎ (a.kind ≡ schedule_kind) × (names_capability a.capability ≡ false)

load_actions-IsBound :
    (d : RawDefaults) (raw : List RawAction) (seen : List String) (l : List ActionDef)
    → load_actions d seen raw ≡ Loaded.ok l
    → All IsBound l
unfolding load_actions
load_actions-IsBound d [] seen l h = let e : [] ≡ l = ground arith in subst (All IsBound) e tt
load_actions-IsBound d (x ∷ rest) seen l h =
    let (c, (l', e, q)) = load_actions-cons d seen x rest l h in
    subst (All IsBound) (sym q)
      (unfold to_action in check-kind seen x c, load_actions-IsBound d rest (x.id ∷ seen) l' e)

parse_actions :
    (v : ℕ) (d : RawDefaults) (raw : List RawAction) (forbidden : List ForbiddenActionDef)
    (lib : ActionLibrary)
    → parse_action_library v d raw forbidden ≡ LoadedLibrary.ok lib
    → (load_actions d [] raw ≡ Loaded.ok lib.actions) × (lib.forbidden ≡ forbidden)
unfolding parse_action_library
parse_actions v d raw forbidden lib h = ground arith

-- Loading and looking up: every entry of a library that loads without error is found under its
-- id, with its defaults filled in, unless the library forbids that id.
pub get-parse_action_library :
    (v : ℕ) (d : RawDefaults) (raw : List RawAction) (forbidden : List ForbiddenActionDef)
    (lib : ActionLibrary) (i : ℕ) (a : RawAction)
    → parse_action_library v d raw forbidden ≡ LoadedLibrary.ok lib
    → get_elem? raw i ≡ some a
    → find_last? (forbids a.id) forbidden ≡ none
    → get lib a.id ≡ Found.ok (to_action d a)
unfolding get
get-parse_action_library v d raw forbidden lib i a h k f =
    let (l, q) = parse_actions v d raw forbidden lib h in
    let found = load_actions-find d raw [] lib.actions i a l k in rw (found, q, f)

-- An action that a loaded library resolves carries the id that was asked for, is not forbidden,
-- and names a PSP capability exactly if it is a capability action.
pub get_sound :
    (v : ℕ) (d : RawDefaults) (raw : List RawAction) (forbidden : List ForbiddenActionDef)
    (lib : ActionLibrary) (id : String) (a : ActionDef)
    → parse_action_library v d raw forbidden ≡ LoadedLibrary.ok lib
    → get lib id ≡ Found.ok a
    → (a.id ≡ id) × (find_last? (forbids id) forbidden ≡ none) × IsBound a
unfolding get
get_sound v d raw forbidden lib id a h g =
    let (l, q) = parse_actions v d raw forbidden lib h in
    let found : find_last? (has_id id) lib.actions ≡ some a = ground arith in
    (
      (===_iff a.id id).0 (find_last?-found (has_id id) lib.actions found),
      ground arith,
      find_last?-All IsBound (has_id id) lib.actions a (load_actions-IsBound d raw [] lib.actions l)
          found,
    )

pub found-cases :
    (f : Found) → ((a : ActionDef) × (f ≡ Found.ok a)) ⊎ ((e : ActionError) × (f ≡ Found.err e))
found-cases (Found.ok a) = inl (a, refl)
found-cases (Found.err e) = inr (e, refl)
