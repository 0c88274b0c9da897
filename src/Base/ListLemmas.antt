-- ===== src/Base/ListLemmas.antt =====
-- Lemmas on lists.
use Prim.Native.Nat.{ℕ, zero, suc, ◌+◌, ◌-◌, min}
use mathlib.Core.Path.{◌≡◌, refl, ap, subst, ◌∙◌}
use mathlib.Core.Logic.{inl, inr}
use mathlib.Core.Bool.{Bool, true, false, ◌||◌, ◌&&◌}
use mathlib.Core.List.{List, [], ◌∷◌, ◌++◌, map}
use mathlib.Core.Option.{none, some}
use native.Mathlib.Omega.{arith}
use razorpay_buildathon.Base.Tests.{Option-cases, Bool-cases}
use razorpay_buildathon.Base.Lists.{
  length, take, drop, get_elem?, filter, find?, find_last?, any, insert, sort, update_where, All,
}

module _ {ℓ} {A : Type ℓ} where
  pub length-append : (xs ys : List A) → length (xs ++ ys) ≡ length xs + length ys
  length-append [] ys = omega arith
  length-append (x ∷ xs) ys = omega (arith, length-append xs ys)

  pub length-take : (n : ℕ) (xs : List A) → length (take n xs) ≡ min n (length xs)
  length-take zero xs = omega arith
  length-take (suc n) [] = omega arith
  length-take (suc n) (x ∷ xs) = omega (arith, length-take n xs)

  pub length-drop : (n : ℕ) (xs : List A) → length (drop n xs) ≡ length xs - n
  length-drop zero xs = omega arith
  length-drop (suc n) [] = omega arith
  length-drop (suc n) (x ∷ xs) = omega (arith, length-drop n xs)

  pub take-append-drop : (n : ℕ) (xs : List A) → take n xs ++ drop n xs ≡ xs
  take-append-drop zero xs = refl
  take-append-drop (suc n) [] = refl
  take-append-drop (suc n) (x ∷ xs) = ap (◌∷◌ x) (take-append-drop n xs)

  pub length-update_where :
      (p : A → Bool) (f : A → A) (xs : List A) → length (update_where p f xs) ≡ length xs
  length-update_where p f [] = refl
  length-update_where p f (x ∷ xs) = ap suc (length-update_where p f xs)

  pub All-append {κ} : (P : A → Type κ) (xs ys : List A) → All P xs → All P ys → All P (xs ++ ys)
  All-append P [] ys h k = k
  All-append P (x ∷ xs) ys h k = (h.0, All-append P xs ys h.1 k)

  pub find?-found : (p : A → Bool) (xs : List A) {a : A} → find? p xs ≡ some a → p a ≡ true
  find?-found p [] h = cc
  find?-found p (x ∷ xs) {a} h = ground (arith, find?-found p xs {a = a})

  pub find?-append :
      (p : A → Bool) (xs ys : List A) → find? p xs ≡ none → find? p (xs ++ ys) ≡ find? p ys
  find?-append p [] ys h = refl
  find?-append p (x ∷ xs) ys h = ground (arith, find?-append p xs ys)

  pub find_last?-found :
      (p : A → Bool) (xs : List A) {a : A} → find_last? p xs ≡ some a → p a ≡ true
  find_last?-found p [] h = cc
  find_last?-found p (x ∷ xs) {a} h = ground (arith, find_last?-found p xs {a = a})

  pub find_last?-All {κ} :
      (P : A → Type κ) (p : A → Bool) (xs : List A) (a : A)
      → All P xs
      → find_last? p xs ≡ some a
      → P a
  find_last?-All P p [] a w h = absurd (ground arith)
  find_last?-All P p (x ∷ xs) a w h = elim (Option-cases (find_last? p xs)) [
    | inl e ↦ elim (Bool-cases (p x)) [
      | inl t ↦ subst P (ground arith) w.0
      | inr f ↦ absurd (ground arith)
    ]
    | inr (b, e) ↦ find_last?-All P p xs a w.1 (ground arith)
  ]

  any-insert :
      (p : A → Bool) (before : A → A → Bool) (a : A) (xs : List A)
      → any p (insert before a xs) ≡ (p a || any p xs)
  any-insert p before a [] = refl
  any-insert p before a (x ∷ xs) = ground (arith, any-insert p before a xs)

  pub any-sort :
      (p : A → Bool) (before : A → A → Bool) (xs : List A) → any p (sort before xs) ≡ any p xs
  any-sort p before [] = refl
  any-sort p before (x ∷ xs) =
      ground (arith, any-insert p before x (sort before xs), any-sort p before xs)

  pub any-filter : (p q : A → Bool) (xs : List A) → any p (filter q xs) ≡ any (λ x. p x && q x) xs
  any-filter p q [] = refl
  any-filter p q (x ∷ xs) = ground (arith, any-filter p q xs)

  pub any-ext : (p q : A → Bool) (xs : List A) → ((x : A) → p x ≡ q x) → any p xs ≡ any q xs
  any-ext p q [] h = refl
  any-ext p q (x ∷ xs) h = ground (arith, h x, any-ext p q xs h)

module _ {ℓ} {A : Type ℓ} where
  pub any-take : (p : A → Bool) (n : ℕ) (xs : List A) → any p (take n xs) ≡ true → any p xs ≡ true
  any-take p zero xs h = cc
  any-take p (suc n) [] h = cc
  any-take p (suc n) (x ∷ xs) h = ground (arith, any-take p n xs)

  pub All-take {κ} : (P : A → Type κ) (n : ℕ) (xs : List A) → All P xs → All P (take n xs)
  All-take P zero xs h = tt
  All-take P (suc n) [] h = tt
  All-take P (suc n) (x ∷ xs) h = (h.0, All-take P n xs h.1)

  pub All-both {κ ι χ} :
      (P : A → Type κ) (Q : A → Type ι) (R : A → Type χ) (xs : List A)
      → ((x : A) → P x → Q x → R x)
      → All P xs
      → All Q xs
      → All R xs
  All-both P Q R [] f h k = tt
  All-both P Q R (x ∷ xs) f h k = (f x h.0 k.0, All-both P Q R xs f h.1 k.1)

  All-insert {κ} :
      (P : A → Type κ) (before : A → A → Bool) (a : A) (xs : List A)
      → P a
      → All P xs
      → All P (insert before a xs)
  All-insert P before a [] h k = (h, tt)
  All-insert P before a (x ∷ xs) h k = elim (Bool-cases (before a x)) [
    | inl first ↦ rw first (h, k)
    | inr later ↦ rw later (k.0, All-insert P before a xs h k.1)
  ]

  pub All-sort {κ} :
      (P : A → Type κ) (before : A → A → Bool) (xs : List A) → All P xs → All P (sort before xs)
  All-sort P before [] h = tt
  All-sort P before (x ∷ xs) h =
      All-insert P before x (sort before xs) h.0 (All-sort P before xs h.1)

  -- What a filter leaves also has the property that its test shows.
  pub All-filter {κ ι} :
      (P : A → Type κ) (Q : A → Type ι) (p : A → Bool) (xs : List A)
      → ((x : A) → P x → p x ≡ true → Q x)
      → All P xs
      → All Q (filter p xs)
  All-filter P Q p [] h k = tt
  All-filter P Q p (x ∷ xs) h k = elim (Bool-cases (p x)) [
    | inl t ↦ rw t (h x k.0 t, All-filter P Q p xs h k.1)
    | inr f ↦ rw f (All-filter P Q p xs h k.1)
  ]

  pub All-unit : (xs : List A) → All (λ _. Unit {0}) xs
  All-unit [] = tt
  All-unit (x ∷ xs) = (tt, All-unit xs)

  pub All-get_elem? {κ} :
      (P : A → Type κ) (xs : List A) (i : ℕ) (x : A) → All P xs → get_elem? xs i ≡ some x → P x
  All-get_elem? P [] i x h e = absurd (ground arith)
  All-get_elem? P (y ∷ ys) zero x h e = let q : y ≡ x = ground arith in subst P q h.0
  All-get_elem? P (y ∷ ys) (suc i) x h e = All-get_elem? P ys i x h.1 e

  pub get_elem?-update_where :
      (p : A → Bool) (f : A → A) (xs : List A) (i : ℕ) (x : A)
      → get_elem? xs i ≡ some x
      → p x ≡ false
      → get_elem? (update_where p f xs) i ≡ some x
  get_elem?-update_where p f [] i x e h = cc
  get_elem?-update_where p f (y ∷ ys) zero x e h = ground arith
  get_elem?-update_where p f (y ∷ ys) (suc i) x e h = get_elem?-update_where p f ys i x e h

  pub get_elem?-append_left :
      (xs ys : List A) (i : ℕ) (x : A) → get_elem? xs i ≡ some x → get_elem? (xs ++ ys) i ≡ some x
  get_elem?-append_left [] ys i x e = cc
  get_elem?-append_left (y ∷ xs) ys zero x e = e
  get_elem?-append_left (y ∷ xs) ys (suc i) x e = get_elem?-append_left xs ys i x e

module _ {ℓ} {A : Type ℓ} where
  pub filter-append :
      (p : A → Bool) (xs ys : List A) → filter p (xs ++ ys) ≡ filter p xs ++ filter p ys
  filter-append p [] ys = refl
  filter-append p (x ∷ xs) ys = ground (arith, filter-append p xs ys)

  insert-snoc :
      (before : A → A → Bool) (a : A) (xs : List A) (y : A)
      → before a y ≡ true
      → insert before a (xs ++ y ∷ []) ≡ insert before a xs ++ y ∷ []
  insert-snoc before a [] y h = ground arith
  insert-snoc before a (x ∷ xs) y h = ground (arith, insert-snoc before a xs y h)

  -- What may stand last of all, sorts last.
  pub sort-snoc :
      (before : A → A → Bool) (xs : List A) (y : A)
      → All (λ x. before x y ≡ true) xs
      → sort before (xs ++ y ∷ []) ≡ sort before xs ++ y ∷ []
  sort-snoc before [] y h = refl
  sort-snoc before (x ∷ xs) y h =
      ap (insert before x) (sort-snoc before xs y h.1) ∙ insert-snoc before x (sort before xs) y h.0

  pub find?-update_where :
      (p : A → Bool) (f : A → A) (xs : List A) (x : A)
      → ((a : A) → p (f a) ≡ p a)
      → find? p xs ≡ some x
      → find? p (update_where p f xs) ≡ some (f x)
  find?-update_where p f [] x k h = absurd (ground arith)
  find?-update_where p f (y ∷ ys) x k h = ground (arith, k y, find?-update_where p f ys x k)

  pub All-any-false : (p : A → Bool) (xs : List A) → any p xs ≡ false → All (λ x. p x ≡ false) xs
  All-any-false p [] h = tt
  All-any-false p (x ∷ xs) h = elim (Bool-cases (p x)) [
    | inl t ↦ absurd (ground arith)
    | inr f ↦ (f, All-any-false p xs (ground arith))
  ]

  pub any-false-All : (p : A → Bool) (xs : List A) → All (λ x. p x ≡ false) xs → any p xs ≡ false
  any-false-All p [] h = refl
  any-false-All p (x ∷ xs) h = ground (arith, any-false-All p xs h.1, h.0)

module _ {ℓ κ} {A : Type ℓ} {B : Type κ} where
  pub any-map : (f : A → B) (p : B → Bool) (xs : List A) → any p (map f xs) ≡ any (λ x. p (f x)) xs
  any-map f p [] = refl
  any-map f p (x ∷ xs) = ground (arith, any-map f p xs)

  pub length-map : (f : A → B) (xs : List A) → length (map f xs) ≡ length xs
  length-map f [] = refl
  length-map f (x ∷ xs) = ap suc (length-map f xs)

  pub All-map {ι} :
      (P : B → Type ι) (f : A → B) (xs : List A) → All (λ x. P (f x)) xs → All P (map f xs)
  All-map P f [] h = tt
  All-map P f (x ∷ xs) h = (h.0, All-map P f xs h.1)

module _ {ℓ κ} {A : Type ℓ} where
  pub All-imp : (P Q : A → Type κ) (xs : List A) → ((x : A) → P x → Q x) → All P xs → All Q xs
  All-imp P Q [] f h = tt
  All-imp P Q (x ∷ xs) f (h, hs) = (f x h, All-imp P Q xs f hs)

module _ {ℓ} {A : Type ℓ} where
  length-insert :
      (before : A → A → Bool) (a : A) (xs : List A) → length (insert before a xs) ≡ suc (length xs)
  length-insert before a [] = refl
  length-insert before a (x ∷ xs) = ground (arith, length-insert before a xs)

  pub length-sort : (before : A → A → Bool) (xs : List A) → length (sort before xs) ≡ length xs
  length-sort before [] = refl
  length-sort before (x ∷ xs) =
      length-insert before x (sort before xs) ∙ ap suc (length-sort before xs)

module _ {ℓ κ ι} {A : Type ℓ} {B : Type κ} where
  All-each : (P : A → B → Type ι) (ys : List B) → All (λ y. All (λ x. P x y) []) ys
  All-each P [] = tt
  All-each P (y ∷ ys) = (tt, All-each P ys)

  All-pair :
      (P : A → B → Type ι) (x : A) (xs : List A) (ys : List B)
      → All (P x) ys
      → All (λ y. All (λ a. P a y) xs) ys
      → All (λ y. All (λ a. P a y) (x ∷ xs)) ys
  All-pair P x xs [] h k = tt
  All-pair P x xs (y ∷ ys) h k = ((h.0, k.0), All-pair P x xs ys h.1 k.1)

  pub All-swap :
      (P : A → B → Type ι) (xs : List A) (ys : List B)
      → All (λ x. All (P x) ys) xs
      → All (λ y. All (λ x. P x y) xs) ys
  All-swap P [] ys h = All-each P ys
  All-swap P (x ∷ xs) ys h = All-pair P x xs ys h.0 (All-swap P xs ys h.1)
