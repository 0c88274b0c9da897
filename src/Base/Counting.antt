-- ===== src/Base/Counting.antt =====
-- Lemmas on counts, and on what a filter or an update leaves of them.
use Prim.Native.Nat.{◌+◌, ◌≤◌}
use mathlib.Core.Path.{◌≡◌, refl, ap, ◌∙◌}
use mathlib.Core.Bool.{Bool, true, false, ◌||◌, ◌&&◌}
use mathlib.Core.List.{List, [], ◌∷◌, ◌++◌}
use mathlib.Core.Option.{none}
use native.Mathlib.Omega.{arith}
use mathlib.Core.Logic.{inl, inr}
use razorpay_buildathon.Base.Tests.{if◌then◌else◌, Bool-cases}
use razorpay_buildathon.Base.Lists.{
  length, filter, find?, any, count, insert, sort, update_where, All,
}
use razorpay_buildathon.Base.ListLemmas.{filter-append, All-imp}

module _ {ℓ} {A : Type ℓ} where
  pub count-append : (p : A → Bool) (xs ys : List A) → count p (xs ++ ys) ≡ count p xs + count p ys
  count-append p [] ys = omega arith
  count-append p (x ∷ xs) ys = omega (arith, count-append p xs ys)

  pub length-filter : (p : A → Bool) (xs : List A) → length (filter p xs) ≡ count p xs
  length-filter p [] = refl
  length-filter p (x ∷ xs) = ground (arith, length-filter p xs)

  -- An update that makes no row meet a test that it did not meet.
  pub count-update_where-le :
      (p q : A → Bool) (f : A → A) (xs : List A)
      → ((x : A) → p (f x) ≡ true → p x ≡ true)
      → count p (update_where q f xs) ≤ count p xs
  count-update_where-le p q f [] h = omega arith
  count-update_where-le p q f (x ∷ xs) h = ground (arith, h x, count-update_where-le p q f xs h)

  pub count-find? : (p : A → Bool) (xs : List A) → find? p xs ≡ none → count p xs ≡ 0
  count-find? p [] h = refl
  count-find? p (x ∷ xs) h = ground (arith, count-find? p xs)

  pub find?-any : (p : A → Bool) (xs : List A) → any p xs ≡ false → find? p xs ≡ none
  find?-any p [] h = refl
  find?-any p (x ∷ xs) h = ground (arith, find?-any p xs)

  pub filter-count : (p : A → Bool) (xs : List A) → count p xs ≡ 0 → filter p xs ≡ []
  filter-count p [] h = refl
  filter-count p (x ∷ xs) h = ground (arith, filter-count p xs)

  pub filter-All-false : (p : A → Bool) (xs : List A) → All (λ x. p x ≡ false) xs → filter p xs ≡ []
  filter-All-false p [] h = refl
  filter-All-false p (x ∷ xs) h = rw h.0 (filter-All-false p xs h.1)

  pub update_where-append :
      (p : A → Bool) (f : A → A) (xs ys : List A)
      → update_where p f (xs ++ ys) ≡ update_where p f xs ++ update_where p f ys
  update_where-append p f [] ys = refl
  update_where-append p f (x ∷ xs) ys = simp (update_where-append p f xs ys)

  -- The last row is the only one to meet a test, before and after two updates of it.
  pub filter-updated_last :
      (p q : A → Bool) (f g : A → A) (xs : List A) (n : A)
      → ((x : A) → p (f x) ≡ true → p x ≡ true)
      → ((x : A) → p (g x) ≡ true → p x ≡ true)
      → count p xs ≡ 0
      → q n ≡ true
      → q (f n) ≡ true
      → p (g (f n)) ≡ true
      → filter p (update_where q g (update_where q f (xs ++ n ∷ []))) ≡ g (f n) ∷ []
  filter-updated_last p q f g xs n keep_f keep_g none_before hit hit' kept =
      let old = update_where q g (update_where q f xs) in
      let no_old : count p old ≡ 0 = omega (
        arith,
        none_before,
        count-update_where-le p q f xs keep_f,
        count-update_where-le p q g (update_where q f xs) keep_g,
      ) in
      let split : update_where q g (update_where q f (xs ++ n ∷ [])) ≡ old ++ g (f n) ∷ [] =
        rw (update_where-append q f xs (n ∷ []), hit)
          (rw (update_where-append q g (update_where q f xs) (f n ∷ []), hit') refl) in
      ap (filter p) split
      ∙ filter-append p old (g (f n) ∷ [])
      ∙ rw (filter-count p old no_old, kept) refl

module _ {ℓ} {A : Type ℓ} where
  pub count-filter :
      (p q : A → Bool) (xs : List A) → count p (filter q xs) ≡ count (λ x. q x && p x) xs
  count-filter p q [] = refl
  count-filter p q (x ∷ xs) = ground (arith, count-filter p q xs)

  -- Each row that meets the test `p` after the update met `r` before it.
  pub count-update_where-imp :
      (p r q : A → Bool) (f : A → A) (xs : List A)
      → ((x : A) → p (if q x then f x else x) ≡ true → r x ≡ true)
      → count p (update_where q f xs) ≤ count r xs
  count-update_where-imp p r q f [] h = omega arith
  count-update_where-imp p r q f (x ∷ xs) h =
      ground (arith, h x, count-update_where-imp p r q f xs h)

  -- Each element, as what a test on the whole list sees.
  pub All-seen : (xs : List A) → All (λ x. (p : A → Bool) → p x ≡ true → any p xs ≡ true) xs
  All-seen [] = tt
  All-seen (x ∷ xs) = (
    (λ p t. rw t),
    All-imp (λ y. (p : A → Bool) → p y ≡ true → any p xs ≡ true) _ xs
        (λ y k p t. ground (arith, k p t)) (All-seen xs),
  )

  pub count-All-false : (p : A → Bool) (xs : List A) → All (λ x. p x ≡ false) xs → count p xs ≡ 0
  count-All-false p [] h = refl
  count-All-false p (x ∷ xs) h = ground (arith, h.0, count-All-false p xs h.1)

  pub count-imp :
      (p r : A → Bool) (xs : List A) → ((x : A) → p x ≡ true → r x ≡ true) → count p xs ≤ count r xs
  count-imp p r [] h = omega arith
  count-imp p r (x ∷ xs) h = ground (arith, h x, count-imp p r xs h)

  pub any-update_where :
      (p q : A → Bool) (f : A → A) (xs : List A)
      → ((x : A) → p (f x) ≡ p x)
      → any p (update_where q f xs) ≡ any p xs
  any-update_where p q f [] h = refl
  any-update_where p q f (x ∷ xs) h = ground (arith, h x, any-update_where p q f xs h)

  pub All-update_where {κ} :
      (P : A → Type κ) (q : A → Bool) (f : A → A) (xs : List A)
      → ((x : A) → P x → P (f x))
      → All P xs
      → All P (update_where q f xs)
  All-update_where P q f [] h k = tt
  All-update_where P q f (x ∷ xs) h k = elim (Bool-cases (q x)) [
    | inl t ↦ rw t (h x k.0, All-update_where P q f xs h k.1)
    | inr n ↦ rw n (k.0, All-update_where P q f xs h k.1)
  ]

  pub any-append : (p : A → Bool) (xs ys : List A) → any p (xs ++ ys) ≡ (any p xs || any p ys)
  any-append p [] ys = refl
  any-append p (x ∷ xs) ys = ground (arith, any-append p xs ys)

  pub count-none :
      (p q : A → Bool) (xs : List A) → any p xs ≡ false → count (λ x. p x && q x) xs ≡ 0
  count-none p q [] h = refl
  count-none p q (x ∷ xs) h = ground (arith, count-none p q xs)

module _ {ℓ} {A : Type ℓ} (p : A → Bool) (before : A → A → Bool) where
  count-insert :
      (x : A) (xs : List A) → count p (insert before x xs) ≡ (if p x then 1 else 0) + count p xs
  count-insert x [] = refl
  count-insert x (y ∷ ys) = ground (arith, count-insert x ys)

  pub count-sort : (xs : List A) → count p (sort before xs) ≡ count p xs
  count-sort [] = refl
  count-sort (x ∷ xs) = omega (arith, count-insert x (sort before xs), count-sort xs)
