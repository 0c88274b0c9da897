-- ===== src/Attribution/Holdout.antt =====
-- packages/attribution/src/holdout.ts: which cases the agent leaves alone, and the balance of strata.
pub mod Balance
use Prim.Native.String.{◌++◌}
use razorpay_buildathon.Base.{
  ℕ, suc, ◌+◌, ◌*◌, String, Bool, true, false, Option, none, some, List, [], ◌∷◌, leb, take, get_or,
  map, sort, if◌then◌else◌,
}
use razorpay_buildathon.Base.Assoc.{lookup, set_key}
use razorpay_buildathon.Base.Order.{TextOrder}
use razorpay_buildathon.Core.Platform.{Platform}
use razorpay_buildathon.Core.Floats.{Floats, of_nat}

pub record StratumInput : Type 0 where
  pub case_id : String
  pub cause : String
  pub amount_paise : ℕ

abbrev pub max_safe_integer : ℕ
max_safe_integer = 9007199254740991

abbrev pub value_bands : List (String × ℕ)
value_bands =
    ("lt_1k", 100_000)
    ∷ ("1k_5k", 500_000)
    ∷ ("5k_25k", 2_500_000)
    ∷ ("gt_25k", max_safe_integer)
    ∷ []

abbrev pub first_band : List (String × ℕ) → ℕ → Option String
first_band [] amount = none
first_band ((label, max_paise) ∷ bands) amount =
    if leb amount max_paise then some label else first_band bands amount

-- `none` where `find` gives `undefined`, whose `label` throws.
unfoldable pub value_band : ℕ → Option String
value_band amount = first_band value_bands amount

abbrev pub stratum_text : String → Option String → Option String
stratum_text cause none = none
stratum_text cause (some band) = some (cause ++ (":" ++ band))

unfoldable pub stratum_of : StratumInput → Option String
unfolding value_band
stratum_of i = stratum_text i.cause (value_band i.amount_paise)

-- `readUIntBE`, of a list of bytes.
abbrev pub read_uint_be : ℕ → List ℕ → ℕ
read_uint_be acc [] = acc
read_uint_be acc (b ∷ bs) = read_uint_be (acc * 256 + b) bs

abbrev pub assign : Platform → (f : Floats) → ℕ → String → f.Float → Option String → Option Bool
assign pf f seed case_id rate none = none
assign pf f seed case_id rate (some stratum) =
    let digest =
      pf.from_hex (pf.sha256 (pf.show_number seed ++ ("|" ++ (stratum ++ ("|" ++ case_id))))) in
    some (f.lt (f.div (of_nat f (read_uint_be 0 (take 6 digest))) (of_nat f 0xffffffffffff)) rate)

unfoldable pub assign_holdout : Platform → (f : Floats) → StratumInput → f.Float → ℕ → Option Bool
unfolding stratum_of
assign_holdout pf f i holdout_rate seed = assign pf f seed i.case_id holdout_rate (stratum_of i)

pub record Assignment : Type 0 where
  pub stratum : String
  pub holdout : Bool

pub record Arms : Type 0 where
  pub treated : ℕ
  pub holdout : ℕ

abbrev pub no_arms : Arms
no_arms = record { treated = 0; holdout = 0 }

abbrev pub add_to : Bool → Arms → Arms
add_to true row = record row { holdout = suc row.holdout }
add_to false row = record row { treated = suc row.treated }

-- The loop over the assignments.
unfoldable pub by_stratum : List Assignment → List (String × Arms) → List (String × Arms)
by_stratum [] rows = rows
by_stratum (a ∷ rest) rows =
    by_stratum rest
      (set_key a.stratum (add_to a.holdout (get_or no_arms (lookup a.stratum rows))) rows)

module _ (f : Floats) where
  pub record StratumBalance : Type 0 where
    pub stratum : String
    pub treated : ℕ
    pub holdout : ℕ
    pub holdout_share : f.Float

  abbrev pub balance_row : String × Arms → StratumBalance
  balance_row (stratum, r) = record {
    stratum = stratum;
    treated = r.treated;
    holdout = r.holdout;
    holdout_share = f.div (of_nat f r.holdout) (of_nat f (r.treated + r.holdout));
  }

  unfoldable pub balance : TextOrder → List Assignment → List StratumBalance
  unfolding by_stratum
  balance order assignments =
      sort (λ a b. order.before a.stratum b.stratum) (map balance_row (by_stratum assignments []))
