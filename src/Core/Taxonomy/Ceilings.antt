-- ===== src/Core/Taxonomy/Ceilings.antt =====
-- What a loaded taxonomy says about retries.
use razorpay_buildathon.Base.{
  ℕ, String, ◌<◌, ◌≡◌, refl, sym, subst, ◌⊎◌, inl, inr, true, false, none, some, List, [], ◌∷◌, ◌↔◌,
  arith, All, find_last?, find_last?-All, Option-cases,
}
use razorpay_buildathon.Core.Types.{Rail}
use razorpay_buildathon.Core.Taxonomy.{
  hard, DeclineEntry, Classification, DeclineTaxonomy, TaxonomyError, Loaded, LoadedTaxonomy,
  has_key, classify, classify_entry, check_entry, load_entries, parse_taxonomy,
}

Loaded-cases :
    (x : Loaded)
    → ((l : List DeclineEntry) × (x ≡ Loaded.ok l)) ⊎ ((e : TaxonomyError) × (x ≡ Loaded.err e))
Loaded-cases (Loaded.ok l) = inl (l, refl)
Loaded-cases (Loaded.err e) = inr (e, refl)

load_entries-cons :
    (seen : List DeclineEntry) (c : DeclineEntry) (rest l : List DeclineEntry)
    → load_entries seen (c ∷ rest) ≡ Loaded.ok l
    → (check_entry seen c ≡ none)
      × ((l' : List DeclineEntry) × (load_entries (c ∷ seen) rest ≡ Loaded.ok l') × (l ≡ c ∷ l'))
unfolding load_entries
load_entries-cons seen c rest l h = elim (Loaded-cases (load_entries (c ∷ seen) rest)) [
  | inl (l', e) ↦ (ground arith, (l', e, ground arith))
  | inr (x, e) ↦ absurd (ground arith)
]

abbrev IsSound : DeclineEntry → Type 0
IsSound e = e.hardness ≡ hard → e.retry_eligible ≡ false

check_entry-IsSound :
    (seen : List DeclineEntry) (c : DeclineEntry) → check_entry seen c ≡ none → IsSound c
unfolding check_entry
check_entry-IsSound seen c h = ground arith

load_entries-IsSound :
    (raw seen l : List DeclineEntry) → load_entries seen raw ≡ Loaded.ok l → All IsSound l
unfolding load_entries
load_entries-IsSound [] seen l h = let e : [] ≡ l = ground arith in subst (All IsSound) e tt
load_entries-IsSound (c ∷ rest) seen l h =
    let (k, (l', e, q)) = load_entries-cons seen c rest l h in
    subst (All IsSound) (sym q)
      (check_entry-IsSound seen c k, load_entries-IsSound rest (c ∷ seen) l' e)

-- The entry behind a classification.
classified :
    (t : DeclineTaxonomy) (rail : Rail) (code : String) (n : ℕ) (c : Classification)
    → classify t rail code n ≡ some c
    → (e : DeclineEntry) × (find_last? (has_key rail code) t.entries ≡ some e)
      × (c ≡ classify_entry e n)
unfolding classify
classified t rail code n c h = elim (Option-cases (find_last? (has_key rail code) t.entries)) [
  | inl p ↦ absurd (ground arith)
  | inr (e, p) ↦ (e, p, ground arith)
]

-- In a taxonomy that loads, a hard decline is never retried, whatever the attempt number.
pub hard_never_retried :
    (version : ℕ) (codes : List DeclineEntry) (t : DeclineTaxonomy) (rail : Rail) (code : String)
    (n : ℕ) (c : Classification)
    → parse_taxonomy version codes ≡ LoadedTaxonomy.ok t
    → classify t rail code n ≡ some c
    → c.hardness ≡ hard
    → c.retry_permitted ≡ false
unfolding parse_taxonomy classify_entry
hard_never_retried version codes t rail code n c h k x =
    let (e, found, q) = classified t rail code n c k in
    let sound =
      find_last?-All IsSound (has_key rail code) t.entries e
        (load_entries-IsSound codes [] t.entries (ground arith)) found in
    ground (arith, sound)

-- A classification permits a retry exactly if its code is eligible and the attempts are below the
-- code's ceiling; the rest of it does not depend on the attempt.
pub retry_permitted_iff :
    (t : DeclineTaxonomy) (rail : Rail) (code : String) (n m : ℕ) (c : Classification)
    → classify t rail code n ≡ some c
    → ((c.retry_permitted ≡ true) ↔ ((c.retry_eligible ≡ true) × (n < c.retry_ceiling)))
      × ((d : Classification) × (classify t rail code m ≡ some d)
          × (d.cause ≡ c.cause)
          × (d.retry_ceiling ≡ c.retry_ceiling)
          × (d.retry_eligible ≡ c.retry_eligible))
unfolding classify classify_entry
retry_permitted_iff t rail code n m c h =
    let (e, found, q) = classified t rail code n c h in
    (ground arith, (classify_entry e m, ground arith, ground arith, ground arith, ground arith))
