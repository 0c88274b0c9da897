-- ===== src/Sim/World/Draining.antt =====
-- Every event of the world is drained once, at the first tick that reaches it.
use Prim.Native.Nat.{bit_xor}
use mathlib.Core.List.{append_assoc}
use razorpay_buildathon.Base.{
  ℕ, zero, suc, ◌+◌, ◌≤◌, Bool, true, false, List, [], ◌∷◌, ◌++◌, ◌≡◌, ◌⊎◌, refl, sym, ap, ◌∙◌, inl,
  inr, arith, leb, drop, filter, length, sort, All, All-imp, Bool-cases, filter-All-false,
  if◌then◌else◌,
}
use razorpay_buildathon.Base.Sorting.{Sorted, sort-Sorted}
use razorpay_buildathon.Base.Order.{TextOrder}
use razorpay_buildathon.Core.Floats.{Floats}
use razorpay_buildathon.Attribution.Rng.{u32}
use razorpay_buildathon.Sim.World.{
  WorldEvent, World, Injection, SyntheticCase, event_before, drain_loop, drain_until, events_of,
  new_world,
}

abbrev pub is_due : ℕ → WorldEvent → Bool
is_due t e = leb e.at_ms t

-- The events at the front that are due, and those from the first that is not.
abbrev due_of : ℕ → List WorldEvent → List WorldEvent
due_of t [] = []
due_of t (e ∷ es) = let rest = due_of t es in if is_due t e then e ∷ rest else []

abbrev rest_of : ℕ → List WorldEvent → List WorldEvent
rest_of t [] = []
rest_of t (e ∷ es) = let rest = rest_of t es in if is_due t e then rest else e ∷ es

drain_loop-due :
    (t n : ℕ) (es : List WorldEvent) → drain_loop t n es ≡ (due_of t es, n + length (due_of t es))
drain_loop-due t n [] = ap {A = ℕ} (λ k. ([], k)) (omega arith)
drain_loop-due t n (e ∷ es) = elim (Bool-cases (is_due t e)) [
  | inl h ↦
      rw (h, drain_loop-due t (suc n) es) (ap {A = ℕ} (λ k. (e ∷ due_of t es, k)) (omega arith))
  | inr h ↦ rw h (ap {A = ℕ} (λ k. ([], k)) (omega arith))
]

due_of-due_of :
    (t u : ℕ) (es : List WorldEvent) → t ≤ u → due_of t es ++ due_of u (rest_of t es) ≡ due_of u es
due_of-due_of t u [] h = refl
due_of-due_of t u (e ∷ es) h = ground (arith, due_of-due_of t u es h)

rest_of-drop : (t : ℕ) (es : List WorldEvent) → drop (length (due_of t es)) es ≡ rest_of t es
rest_of-drop t [] = refl
rest_of-drop t (e ∷ es) = ground (arith, rest_of-drop t es)

-- The ticks of the clock in turn, and all that they drained.
abbrev pub drain_all : List ℕ → World → List WorldEvent × World
drain_all [] w = ([], w)
drain_all (t ∷ ts) w =
    let (due, w') = drain_until t w in let (later, w'') = drain_all ts w' in (due ++ later, w'')

abbrev remaining : World → List WorldEvent
remaining w = drop w.cursor w.events

drop_nil : (n : ℕ) → drop {A = WorldEvent} n [] ≡ []
drop_nil zero = refl
drop_nil (suc n) = refl

suc_add : (m n : ℕ) → suc m + n ≡ suc (m + n)
suc_add m n = omega arith

drop_add : (m n : ℕ) (es : List WorldEvent) → drop (m + n) es ≡ drop n (drop m es)
drop_add zero n es = ap {A = ℕ} (λ k. drop k es) (omega arith)
drop_add (suc m) n [] = ap (λ k. drop k []) (suc_add m n) ∙ sym (drop_nil n)
drop_add (suc m) n (e ∷ es) = ap (λ k. drop k (e ∷ es)) (suc_add m n) ∙ drop_add m n es

drain_until-due : (t : ℕ) (w : World) → (drain_until t w).0 ≡ due_of t (remaining w)
unfolding drain_until
drain_until-due t w = ap (λ p. p.0) (drain_loop-due t w.cursor (remaining w))

drain_until-rest : (t : ℕ) (w : World) → remaining (drain_until t w).1 ≡ rest_of t (remaining w)
unfolding drain_until
drain_until-rest t w =
    ap (λ p. drop p.1 w.events) (drain_loop-due t w.cursor (remaining w))
    ∙ drop_add w.cursor (length (due_of t (remaining w))) w.events
    ∙ rest_of-drop t (remaining w)

-- Ticks no later than `last`, and then `last`.
drained_by :
    (ts : List ℕ) (last : ℕ) (w : World)
    → All (λ t. t ≤ last) ts
    → (drain_all ts w).0 ++ (drain_until last (drain_all ts w).1).0 ≡ due_of last (remaining w)
drained_by [] last w h = drain_until-due last w
drained_by (t ∷ ts) last w (h, hs) =
    let w' = (drain_until t w).1 in
    append_assoc (drain_until t w).0 (drain_all ts w').0 (drain_until last (drain_all ts w').1).0
    ∙ ap (λ l. (drain_until t w).0 ++ l) (drained_by ts last w' hs)
    ∙ ap (λ l. l ++ due_of last (remaining w')) (drain_until-due t w)
    ∙ ap (λ l. due_of t (remaining w) ++ due_of last l) (drain_until-rest t w)
    ∙ due_of-due_of t last (remaining w) h

due_of-filter :
    (order : TextOrder) (t : ℕ) (es : List WorldEvent)
    → Sorted (event_before order) es
    → due_of t es ≡ filter (is_due t) es
due_of-filter order t [] h = refl
due_of-filter order t (e ∷ es) (h, hs) = elim (Bool-cases (is_due t e)) [
  | inl k ↦ rw k (ap (λ l. e ∷ l) (due_of-filter order t es hs))
  | inr k ↦ rw k (
      sym (
        filter-All-false (is_due t) es (
          All-imp (λ x. event_before order e x ≡ true) (λ x. is_due t x ≡ false) es
            (λ x b. ground (arith, k, b)) h)))
]

event_before_total :
    (order : TextOrder) (a b : WorldEvent)
    → (event_before order a b ≡ true) ⊎ (event_before order b a ≡ true)
event_before_total order a b = ground (arith, order.before_total a.case_id b.case_id)

event_before_trans :
    (order : TextOrder) (a b c : WorldEvent)
    → event_before order a b ≡ true
    → event_before order b c ≡ true
    → event_before order a c ≡ true
event_before_trans order a b c p q =
    ground (arith, p, q, order.before_trans a.case_id b.case_id c.case_id)

-- In the world of any cases, whatever ticks came before, what they and the tick at `last`, none of
-- them later than it, have drained altogether are the events at or before `last`, each once and in
-- their order.
pub drain_all_exact :
    (f : Floats) (order : TextOrder) (cases : List (SyntheticCase f)) (injections : List Injection)
    (seed : ℕ) (ts : List ℕ) (last : ℕ)
    → All (λ t. t ≤ last) ts
    → let w = new_world f order cases injections seed in
      (drain_all ts w).0 ++ (drain_until last (drain_all ts w).1).0 ≡ filter (is_due last) w.events
unfolding new_world
drain_all_exact f order cases injections seed ts last h =
    let events = events_of f cases (u32 (bit_xor seed 0x5eed)) in
    drained_by ts last (new_world f order cases injections seed) h
    ∙ due_of-filter order last (sort (event_before order) events) (
        sort-Sorted (event_before order) (event_before_total order) (event_before_trans order)
          events)
