-- ===== src/Agents/CachedProvider.antt =====
-- packages/agents/src/cached-provider.ts and the requests of provider.ts there: the cache of what the
-- provider answered, over the `claim_cache` table of migrations/0011_claim_cache.sql. What the inner
-- provider would reply is an argument, `none` where it throws; a role is its text.
pub mod Replay
use Prim.Native.String.{◌++◌, slice}
use razorpay_buildathon.Base.{
  ℕ, suc, String, Bool, true, not, Option, none, some, List, [], ◌∷◌, ◌++◌ as ◌+++◌, ◌===◌,
  if◌then◌else◌, any, find?, update_where,
}
use razorpay_buildathon.Core.Platform.{Platform}
use razorpay_buildathon.Core.Json.{Value, join}

pub data Effort : Type 0 where
  no_effort low medium high : Effort

pub record ProviderRequest : Type 0 where
  pub role : String
  pub instructions : String
  pub input : String
  pub schema : Value
  pub schema_name : String
  pub schema_version : String
  pub model : String
  pub effort : Effort
  pub cache_key : String
  pub timeout_ms : ℕ

pub record ProviderUsage : Type 0 where
  pub input_tokens : ℕ
  pub output_tokens : ℕ
  pub cached_input_tokens : ℕ

pub record ProviderResponse : Type 0 where
  pub value : Value
  pub provider : String
  pub model : String
  pub response_id : String
  pub latency_ms : ℕ
  pub usage : ProviderUsage
  pub validated : Bool

pub record CacheRow : Type 0 where
  pub cache_key : String
  pub role : String
  pub input_hash : String
  pub schema_version : String
  pub model : String
  pub payload : Value
  pub usage : ProviderUsage
  pub latency_ms : ℕ
  pub hits : ℕ
  pub created_at : ℕ
  pub last_hit_at : Option ℕ

pub record CacheStats : Type 0 where
  pub hits : ℕ
  pub misses : ℕ

pub record Cache : Type 0 where
  pub rows : List CacheRow
  pub stats : CacheStats

unfoldable pub key_for : Platform → ProviderRequest → String
key_for pf req = pf.sha256 (
    join " " (
      req.role ∷ req.schema_name ∷ req.schema_version ∷ req.model ∷ req.instructions ∷ req.input
      ∷ []))

abbrev pub has_cache_key : String → CacheRow → Bool
has_cache_key key r = r.cache_key === key

abbrev pub bump : ℕ → CacheRow → CacheRow
bump now r = record r { hits = suc r.hits; last_hit_at = some now }

-- The answer from a row of the cache.
abbrev pub served : String → String → CacheRow → ProviderResponse
served name key hit = record {
  value = hit.payload;
  provider = name ++ "(cached)";
  model = hit.model;
  response_id = "cache:" ++ slice key 0 12;
  latency_ms = hit.latency_ms;
  usage = hit.usage;
  validated = true;
}

abbrev pub new_row : ℕ → String → ProviderRequest → ProviderResponse → CacheRow
new_row now key req res = record {
  cache_key = key;
  role = req.role;
  input_hash = slice key 0 32;
  schema_version = req.schema_version;
  model = res.model;
  payload = res.value;
  usage = res.usage;
  latency_ms = res.latency_ms;
  hits = 0;
  created_at = now;
  last_hit_at = none;
}

-- The insert, which a row already there under the key leaves alone.
unfoldable pub insert_row : CacheRow → List CacheRow → List CacheRow
insert_row r rows = if any (has_cache_key r.cache_key) rows then rows else rows +++ (r ∷ [])

abbrev pub missed : Cache → Cache
missed c = record c { stats = record c.stats { misses = suc c.stats.misses } }

-- After the miss: what the inner provider replied.
abbrev pub on_reply :
    Option ProviderResponse → ℕ → String → ProviderRequest → Cache → Option ProviderResponse × Cache
on_reply none now key req c = (none, c)
on_reply (some res) now key req c = (
  some res,
  if res.validated then record c { rows = insert_row (new_row now key req res) c.rows } else c,
)

abbrev pub on_lookup :
    Option CacheRow
    → String
    → ℕ
    → Option ProviderResponse
    → String
    → ProviderRequest
    → Cache
    → Option ProviderResponse × Cache
on_lookup (some hit) name now reply key req c = (
  some (served name key hit),
  record {
    rows = update_where (has_cache_key key) (bump now) c.rows;
    stats = record c.stats { hits = suc c.stats.hits };
  },
)
on_lookup none name now reply key req c = on_reply reply now key req (missed c)

-- `enabled` and the inner provider's name are the configuration.
unfoldable pub complete :
    Platform
    → Bool
    → String
    → ℕ
    → Option ProviderResponse
    → ProviderRequest
    → Cache
    → Option ProviderResponse × Cache
unfolding insert_row
complete pf enabled name now reply req c =
    if not enabled
    then (reply, c)
    else on_lookup (find? (has_cache_key (key_for pf req)) c.rows) name now reply (key_for pf req)
        req c
