-- ===== src/Core/Stats/StepUp.antt =====
-- `benjaminiHochberg` against the textbook description of the step-up procedure.
use mathlib.Core.List.{Permᴰ}
use razorpay_buildathon.Base.{
  ℕ, suc, ◌+◌, ◌≡◌, ◌⊎◌, inl, inr, refl, subst, sym, true, false, some, List, [], ◌∷◌, arith,
  length, take, drop, get_elem?, sort, Bool-cases, All, length-sort,
}
use razorpay_buildathon.Base.Sorting.{Sorted, sort-Sorted, sort-perm}
use razorpay_buildathon.Core.Floats.{Floats, IsOrdered}
use razorpay_buildathon.Core.Stats.{passes, last_passing, by_p_value, benjamini_hochberg}

-- Every element has the property at its index, where the first has the index `i`.
abbrev pub AllAt {ℓ κ} : {A : Type ℓ} → (ℕ → A → Type κ) → ℕ → List A → Type κ
AllAt P i [] = Unit
AllAt P i (x ∷ xs) = P i x × AllAt P (suc i) xs

module _ {A : Type 0} (f : Floats) (p_value : A → f.Float) (alpha : f.Float) where
  -- The greatest p-value that the rank `k` of `m`, counted from 1, may have.
  abbrev pub threshold : ℕ → ℕ → f.Float
  threshold m k = f.mul (f.div (f.ratio k 1) (f.ratio m 1)) alpha

  -- The item at the index `i`, counted from 0.
  abbrev pub Fails : ℕ → ℕ → A → Type 0
  Fails m i x = f.le (p_value x) (threshold m (i + 1)) ≡ false

  -- Every item's p-value is at most those of the items after it.
  abbrev pub Ascending : List A → Type 0
  Ascending [] = Unit {0}
  Ascending (x ∷ xs) = All (λ y. f.le (p_value x) (p_value y) ≡ true) xs × Ascending xs

  Sorted-Ascending : (xs : List A) → Sorted (by_p_value f p_value) xs → Ascending xs
  Sorted-Ascending [] h = tt
  Sorted-Ascending (x ∷ xs) (h, hs) = (h, Sorted-Ascending xs hs)

  -- The cutoff stands at the last index that passes, if any does.
  abbrev Cut : ℕ → ℕ → List A → ℕ → ℕ → Type 0
  Cut m i xs cutoff n =
      ((n ≡ cutoff) × AllAt (Fails m) i xs)
      ⊎ ((k j : ℕ) × (x : A) × (j ≡ i + k)
          × (n ≡ suc j)
          × (get_elem? xs k ≡ some x)
          × (passes f alpha m j (p_value x) ≡ true)
          × AllAt (Fails m) (suc j) (drop (suc k) xs))

  last_passing-Cut :
      (m i : ℕ) (xs : List A) (cutoff : ℕ)
      → Cut m i xs cutoff (last_passing f p_value alpha m i xs cutoff)
  last_passing-Cut m i [] cutoff = inl (refl, tt)
  last_passing-Cut m i (x ∷ xs) cutoff = elim (Bool-cases (passes f alpha m i (p_value x))) [
    | inl t ↦ rw t (elim (last_passing-Cut m (suc i) xs (suc i)) [
      | inl (e, fails) ↦ inr (0, i, x, omega arith, e, refl, t, fails)
      | inr (k, j, y, q, e, found, passing, fails) ↦
          inr (suc k, j, y, omega arith, e, found, passing, fails)
    ])
    | inr no_pass ↦ rw no_pass (elim (last_passing-Cut m (suc i) xs cutoff) [
      | inl (e, fails) ↦ inl (e, (refl, fails))
      | inr (k, j, y, q, e, found, passing, fails) ↦
          inr (suc k, j, y, omega arith, e, found, passing, fails)
    ])
  ]

  -- What a cut of the whole list is.
  abbrev IsLast : ℕ → List A → ℕ → Type 0
  IsLast m sorted n =
      AllAt (Fails m) n (drop n sorted)
      × ((n ≡ 0)
          ⊎ ((j : ℕ) × (x : A) × (n ≡ suc j)
              × (get_elem? sorted j ≡ some x)
              × (passes f alpha m j (p_value x) ≡ true)))

  Cut-IsLast : (m : ℕ) (sorted : List A) (n : ℕ) → Cut m 0 sorted 0 n → IsLast m sorted n
  Cut-IsLast m sorted n (inl (e, fails)) = subst (IsLast m sorted) (sym e) (fails, inl refl)
  Cut-IsLast m sorted n (inr (k, j, x, q, e, found, passing, fails)) =
      let same : k ≡ j = omega arith in
      subst (IsLast m sorted) (sym e) (
        subst (λ i. AllAt (Fails m) (suc j) (drop (suc i) sorted)) same fails,
        inr (j, x, refl, subst (λ i. get_elem? sorted i ≡ some x) same found, passing),
      )

  -- What the procedure selects are the first `n` of the items ranked by ascending p-value, which are
  -- the given items in another order, where no rank after the `n`-th has a p-value of at most
  -- (rank / number of items) * alpha, and the `n`-th has, unless `n` is 0; where the comparison of
  -- the numbers is total and transitive.
  pub benjamini_hochberg_step_up :
      IsOrdered f
      → (items : List A)
      → (ranked : List A) × (n : ℕ) × Permᴰ ranked items
        × Ascending ranked
        × (benjamini_hochberg f p_value items alpha ≡ take n ranked)
        × AllAt (Fails (length items)) n (drop n ranked)
        × ((n ≡ 0)
            ⊎ ((j : ℕ) × (x : A) × (n ≡ suc j)
                × (get_elem? ranked j ≡ some x)
                × (f.le (p_value x) (threshold (length items) (j + 1)) ≡ true)))
  unfolding benjamini_hochberg
  benjamini_hochberg_step_up ordered items =
      let ranked = sort (by_p_value f p_value) items in
      let m = length ranked in
      let n = last_passing f p_value alpha m 0 ranked 0 in
      let cut = Cut-IsLast m ranked n (last_passing-Cut m 0 ranked 0) in
      let same = length-sort (by_p_value f p_value) items in
      let last = subst (λ k. IsLast k ranked n) same cut in
      (
        ranked,
        n,
        sort-perm (by_p_value f p_value) items,
        Sorted-Ascending ranked (
            sort-Sorted (by_p_value f p_value) (λ a b. ordered.le_total (p_value a) (p_value b))
              (λ a b c. ordered.le_trans (p_value a) (p_value b) (p_value c)) items),
        refl,
        last.0,
        last.1,
      )
