-- ===== src/Connectors/Adapter.antt =====
-- The interface of packages/connectors/src/adapter.ts to a provider: what its methods answer, or
-- `none` where they throw.
use razorpay_buildathon.Base.{String, Bool, Option, List}
use razorpay_buildathon.Core.Json.{Params}
use razorpay_buildathon.Core.Actions.{ActionSurface}
use razorpay_buildathon.Core.Capability.{CapabilityToken}

pub record AdapterCall : Type 0 where
  pub case_id : String
  pub obligation_id : String
  pub customer_id : String
  pub params : Params
  pub idem_key : String

-- The provider's reference and text are left out.
pub record CallResult : Type 0 where
  pub ok : Bool

pub record Adapter : Type 0 where
  pub name : String
  pub surface : ActionSurface
  pub capabilities : List String
  pub answer : String → AdapterCall → CapabilityToken → Option CallResult
  -- Whether the provider knows an idempotency key.
  pub finds : String → Bool
