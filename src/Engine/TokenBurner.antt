-- ===== src/Engine/TokenBurner.antt =====
-- packages/engine/src/token-burn.ts: the tokens that were used.
use razorpay_buildathon.Base.{
  ℕ, String, Bool, Option, none, some, List, [], ◌∷◌, ◌++◌, ◌===◌, if◌then◌else◌, any,
}
use razorpay_buildathon.Core.Capability.{CapabilityToken}

pub record BurnRow : Type 0 where
  pub nonce : String
  pub case_id : String
  pub action_id : String
  pub burned_at : ℕ

abbrev pub has_nonce : String → BurnRow → Bool
has_nonce nonce b = b.nonce === nonce

-- The insert into `token_burns`; `none` on its unique index.
unfoldable pub burn : ℕ → CapabilityToken → List BurnRow → Option (List BurnRow)
burn now token burns =
    if any (has_nonce token.nonce) burns
    then none
    else some (
        burns
        ++ record {
          nonce = token.nonce;
          case_id = token.case_id;
          action_id = token.action_id;
          burned_at = now;
        }
          ∷ [])

unfoldable pub is_burned : String → List BurnRow → Bool
is_burned nonce burns = any (has_nonce nonce) burns
