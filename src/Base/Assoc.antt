-- ===== src/Base/Assoc.antt =====
-- `Map` with texts as keys: an association list, in the order of the first insertions.
use razorpay_buildathon.Base.{
  ◌≡◌, refl, String, Option, none, some, List, [], ◌∷◌, arith, ◌===◌, ===_iff, if◌then◌else◌,
}

module _ {ℓ} {V : Type ℓ} where
  abbrev pub lookup : String → List (String × V) → Option V
  lookup k [] = none
  lookup k ((j, v) ∷ m) = if j === k then some v else lookup k m

  abbrev pub set_key : String → V → List (String × V) → List (String × V)
  set_key k v [] = (k, v) ∷ []
  set_key k v ((j, w) ∷ m) = if j === k then (j, v) ∷ m else (j, w) ∷ set_key k v m

  abbrev pub remove_key : String → List (String × V) → List (String × V)
  remove_key k [] = []
  remove_key k ((j, w) ∷ m) = if j === k then remove_key k m else (j, w) ∷ remove_key k m

  pub lookup-set_key :
      (k j : String) (v : V) (m : List (String × V))
      → lookup j (set_key k v m) ≡ (if k === j then some v else lookup j m)
  lookup-set_key k j v [] = refl
  lookup-set_key k j v ((i, w) ∷ m) =
      ground (arith, ===_iff k j, ===_iff i k, ===_iff i j, lookup-set_key k j v m)

  pub lookup-remove_key :
      (k j : String) (m : List (String × V))
      → lookup j (remove_key k m) ≡ (if k === j then none else lookup j m)
  lookup-remove_key k j [] = ground arith
  lookup-remove_key k j ((i, w) ∷ m) =
      ground (arith, ===_iff k j, ===_iff i k, ===_iff i j, lookup-remove_key k j m)
