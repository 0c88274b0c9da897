-- ===== src/Db/Ledger.antt =====
-- packages/db/src/ledger.ts: the ledger. There is no update or delete, and so no definition of one.
use razorpay_buildathon.Base.{ℕ, String, Option, List, [], ◌∷◌, ◌++◌, ◌===◌, filter, get_or}
use razorpay_buildathon.Core.Json.{Params, end}

pub record LedgerAppend : Type 0 where
  pub case_id : String
  pub actor : String
  pub event_type : String
  pub payload : Option Params
  pub policy_version : Option String

pub record LedgerEntry : Type 0 where
  pub case_id : String
  pub ts : ℕ
  pub actor : String
  pub event_type : String
  pub payload : Params
  pub policy_version : Option String

unfoldable pub append : ℕ → LedgerAppend → List LedgerEntry → List LedgerEntry
append now e ledger =
    ledger
    ++ record {
      case_id = e.case_id;
      ts = now;
      actor = e.actor;
      event_type = e.event_type;
      payload = get_or end e.payload;
      policy_version = e.policy_version;
    }
      ∷ []

-- The rows of a case in the order of their ids, which is the order they were inserted in.
unfoldable pub read : String → List LedgerEntry → List LedgerEntry
read case_id ledger = filter (λ e. e.case_id === case_id) ledger
