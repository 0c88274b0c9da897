-- ===== src/Base/Sorting.antt =====
-- Insertion by a total and transitive comparison sorts.
use mathlib.Core.List.{Permᴰ}
use mathlib.Core.List.Permᴰ as PermD
use razorpay_buildathon.Base.{
  ◌≡◌, refl, ◌⊎◌, inl, inr, Bool, true, List, [], ◌∷◌, arith, All, All-imp, insert, sort,
  Bool-cases,
}

module _ {A : Type 0} (before : A → A → Bool) where
  -- Each element stands before all that follow it.
  abbrev pub Sorted : List A → Type 0
  Sorted [] = Unit {0}
  Sorted (x ∷ xs) = All (λ y. before x y ≡ true) xs × Sorted xs

  All-insert : (P : A → Type 0) (a : A) (xs : List A) → P a → All P xs → All P (insert before a xs)
  All-insert P a [] p h = (p, tt)
  All-insert P a (x ∷ xs) p (h, hs) = elim (Bool-cases (before a x)) [
    | inl t ↦ rw t (p, (h, hs))
    | inr f ↦ rw f (h, All-insert P a xs p hs)
  ]

  insert-Sorted :
      ((a b : A) → (before a b ≡ true) ⊎ (before b a ≡ true))
      → ((a b c : A) → before a b ≡ true → before b c ≡ true → before a c ≡ true)
      → (a : A) (xs : List A) → Sorted xs
      → Sorted (insert before a xs)
  insert-Sorted total trans a [] h = (tt, tt)
  insert-Sorted total trans a (x ∷ xs) (h, hs) = elim (Bool-cases (before a x)) [
    | inl t ↦ rw t (
      (t, All-imp (λ y. before x y ≡ true) (λ y. before a y ≡ true) xs (λ y q. trans a x y t q) h),
      (h, hs),
    )
    | inr f ↦
        let back : before x a ≡ true = elim (total a x) [
          | inl t ↦ absurd (ground arith)
          | inr b ↦ b
        ] in
        rw f (All-insert (λ y. before x y ≡ true) a xs back h, insert-Sorted total trans a xs hs)
  ]

  pub sort-Sorted :
      ((a b : A) → (before a b ≡ true) ⊎ (before b a ≡ true))
      → ((a b c : A) → before a b ≡ true → before b c ≡ true → before a c ≡ true)
      → (xs : List A) → Sorted (sort before xs)
  sort-Sorted total trans [] = tt
  sort-Sorted total trans (x ∷ xs) =
      insert-Sorted total trans x (sort before xs) (sort-Sorted total trans xs)

  insert-perm : (a : A) (xs : List A) → Permᴰ (insert before a xs) (a ∷ xs)
  insert-perm a [] = PermD.refl (a ∷ [])
  insert-perm a (x ∷ xs) = elim (Bool-cases (before a x)) [
    | inl t ↦ rw t (PermD.refl (a ∷ x ∷ xs))
    | inr f ↦ rw f (Permᴰ.trans (Permᴰ.cons refl (insert-perm a xs)) (Permᴰ.swap refl refl))
  ]

  pub sort-perm : (xs : List A) → Permᴰ (sort before xs) xs
  sort-perm [] = Permᴰ.nil
  sort-perm (x ∷ xs) = Permᴰ.trans (insert-perm x (sort before xs)) (Permᴰ.cons refl (sort-perm xs))
