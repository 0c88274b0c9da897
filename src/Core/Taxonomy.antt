-- ===== src/Core/Taxonomy.antt =====
-- packages/core/src/taxonomy.ts: the decline taxonomy, its classifier, and its loader after the
-- YAML parse. Confidences are in hundredths.
pub mod Ceilings
use razorpay_buildathon.Base.{
  ℕ, String, Bool, true, false, ◌&&◌, Option, none, some, List, [], ◌∷◌, ◌===◌, ltb, if◌then◌else◌,
  any, filter, find_last?,
}
use razorpay_buildathon.Core.Types.{Rail, same_rail}

pub data Hardness : Type 0 where
  hard soft : Hardness

pub record DeclineEntry : Type 0 where
  pub rail : Rail
  pub code : String
  pub cause : String
  pub hardness : Hardness
  pub retry_eligible : Bool
  pub retry_ceiling : ℕ
  pub confidence : ℕ
  pub rule_id : String

pub record Classification : Type 0 where
  pub cause : String
  pub confidence : ℕ
  pub rule_id : String
  pub hardness : Hardness
  pub retry_eligible : Bool
  pub retry_ceiling : ℕ
  pub retry_permitted : Bool

pub record DeclineTaxonomy : Type 0 where
  pub version : ℕ
  pub entries : List DeclineEntry

-- The key `rail::code`: no rail holds a colon, so the key determines both.
abbrev pub has_key : Rail → String → DeclineEntry → Bool
has_key rail code e = same_rail e.rail rail && e.code === code

unfoldable pub classify_entry : DeclineEntry → ℕ → Classification
classify_entry e attempt_no = record {
  cause = e.cause;
  confidence = e.confidence;
  rule_id = e.rule_id;
  hardness = e.hardness;
  retry_eligible = e.retry_eligible;
  retry_ceiling = e.retry_ceiling;
  retry_permitted = e.retry_eligible && ltb attempt_no e.retry_ceiling;
}

unfoldable pub classify : DeclineTaxonomy → Rail → String → ℕ → Option Classification
unfolding classify_entry
classify t rail code attempt_no = elim (find_last? (has_key rail code) t.entries) [
  | none ↦ none
  | some e ↦ some (classify_entry e attempt_no)
]

pub data TaxonomyError : Type 0 where
  duplicate_entry hard_but_eligible : Rail → String → TaxonomyError

pub data Loaded : Type 0 where
  ok : List DeclineEntry → Loaded
  err : TaxonomyError → Loaded

-- A raw code has the fields of an entry, under the YAML file's names.
unfoldable pub check_entry : List DeclineEntry → DeclineEntry → Option TaxonomyError
check_entry seen c =
    if any (has_key c.rail c.code) seen
    then some (duplicate_entry c.rail c.code)
    else elim c.hardness [
      | hard ↦ if c.retry_eligible then some (hard_but_eligible c.rail c.code) else none
      | soft ↦ none
    ]

abbrev prepend : DeclineEntry → Loaded → Loaded
prepend e (ok es) = ok (e ∷ es)
prepend e (err x) = err x

abbrev or_else : Option TaxonomyError → Loaded → Loaded
or_else none rest = rest
or_else (some x) rest = err x

-- `seen` holds the entries whose keys were taken.
unfoldable pub load_entries : List DeclineEntry → List DeclineEntry → Loaded
load_entries seen [] = ok []
load_entries seen (c ∷ rest) =
    or_else (check_entry seen c) (prepend c (load_entries (c ∷ seen) rest))

pub data LoadedTaxonomy : Type 0 where
  ok : DeclineTaxonomy → LoadedTaxonomy
  err : TaxonomyError → LoadedTaxonomy

unfoldable pub parse_taxonomy : ℕ → List DeclineEntry → LoadedTaxonomy
parse_taxonomy version codes = elim (load_entries [] codes) [
  | ok es ↦ LoadedTaxonomy.ok (record { version = version; entries = es })
  | err x ↦ LoadedTaxonomy.err x
]
