-- ===== src/Agents/CachedProvider/Replay.antt =====
-- What the cache gave once it gives again.
use Prim.Native.String.{◌++◌ as ◌+++◌, slice}
use razorpay_buildathon.Base.{
  ℕ, String, true, false, Option, none, some, List, [], ◌∷◌, ◌≡◌, refl, ◌++◌, sym, subst, arith,
  ===_iff, ===_refl, find?, any, update_where, find?-append, find?-any, Bool-cases, inl, inr, ◌∙◌,
}
use razorpay_buildathon.Core.Platform.{Platform}
use razorpay_buildathon.Agents.CachedProvider.{
  ProviderRequest, ProviderResponse, CacheRow, Cache, key_for, has_cache_key, bump, served, new_row,
  insert_row, missed, on_reply, on_lookup, complete,
}

-- A later call of `complete`: what the inner provider would reply, the time and the request.
pub record Completion : Type 0 where
  pub at : ℕ
  pub reply : Option ProviderResponse
  pub req : ProviderRequest

abbrev pub run : Platform → String → List Completion → Cache → Cache
run pf name [] c = c
run pf name (x ∷ xs) c = run pf name xs (complete pf true name x.at x.reply x.req c).1

-- What a row answers under its key.
abbrev answered : String → String → Option CacheRow → Option ProviderResponse
answered name key none = none
answered name key (some r) = some (served name key r)

abbrev stored : String → String → List CacheRow → Option ProviderResponse
stored name key rows = answered name key (find? (has_cache_key key) rows)

stored-bump :
    (name key j : String) (now : ℕ) (rows : List CacheRow)
    → stored name key (update_where (has_cache_key j) (bump now) rows) ≡ stored name key rows
stored-bump name key j now [] = refl
stored-bump name key j now (r ∷ rows) =
    ground (arith, ===_iff r.cache_key j, ===_iff r.cache_key key, stored-bump name key j now rows)

stored-append :
    (name key : String) (r : CacheRow) (res : ProviderResponse) (rows : List CacheRow)
    → stored name key rows ≡ some res
    → stored name key (rows ++ r ∷ []) ≡ some res
stored-append name key r res [] h = absurd (ground arith)
stored-append name key r res (s ∷ rows) h = ground (arith, stored-append name key r res rows)

stored-insert_row :
    (name key : String) (r : CacheRow) (res : ProviderResponse) (rows : List CacheRow)
    → stored name key rows ≡ some res
    → stored name key (insert_row r rows) ≡ some res
unfolding insert_row
stored-insert_row name key r res rows h = ground (arith, h, stored-append name key r res rows h)

stored-on_reply :
    (name key j : String) (res : ProviderResponse) (reply : Option ProviderResponse) (now : ℕ)
    (req : ProviderRequest) (c : Cache)
    → stored name key c.rows ≡ some res
    → stored name key (on_reply reply now j req c).1.rows ≡ some res
stored-on_reply name key j res none now req c h = h
stored-on_reply name key j res (some x) now req c h = elim (Bool-cases x.validated) [
  | inl e ↦ rw e (stored-insert_row name key (new_row now j req x) res c.rows h)
  | inr e ↦ rw e h
]

stored-on_lookup :
    (name key j : String) (res : ProviderResponse) (hit : Option CacheRow)
    (reply : Option ProviderResponse) (now : ℕ) (req : ProviderRequest) (c : Cache)
    → stored name key c.rows ≡ some res
    → stored name key (on_lookup hit name now reply j req c).1.rows ≡ some res
stored-on_lookup name key j res (some r) reply now req c h = stored-bump name key j now c.rows ∙ h
stored-on_lookup name key j res none reply now req c h =
    stored-on_reply name key j res reply now req (missed c) h

stored-run :
    (pf : Platform) (name key : String) (res : ProviderResponse) (xs : List Completion) (c : Cache)
    → stored name key c.rows ≡ some res
    → stored name key (run pf name xs c).rows ≡ some res
unfolding complete
stored-run pf name key res [] c h = h
stored-run pf name key res (x ∷ xs) c h = stored-run pf name key res xs _ (
    stored-on_lookup name key (key_for pf x.req) res
      (find? (has_cache_key (key_for pf x.req)) c.rows) x.reply x.at x.req c h)

complete-stored :
    (pf : Platform) (name : String) (now : ℕ) (reply : Option ProviderResponse)
    (req : ProviderRequest) (c : Cache) (res : ProviderResponse)
    → stored name (key_for pf req) c.rows ≡ some res
    → (complete pf true name now reply req c).0 ≡ some res
unfolding complete
complete-stored pf name now reply req c res h =
    served_hit (find? (has_cache_key (key_for pf req)) c.rows) h
  where
    served_hit :
        (hit : Option CacheRow)
        → answered name (key_for pf req) hit ≡ some res
        → (on_lookup hit name now reply (key_for pf req) req c).0 ≡ some res
    served_hit none k = absurd (ground arith)
    served_hit (some r) k = k

-- The answer of the cache to a request whose response it has stored.
abbrev replayed : Platform → String → ProviderRequest → ProviderResponse → ProviderResponse
replayed pf name req res = served name (key_for pf req) (new_row 0 (key_for pf req) req res)

stored_after_miss :
    (pf : Platform) (name : String) (now : ℕ) (req : ProviderRequest) (res : ProviderResponse)
    (c : Cache)
    → any (has_cache_key (key_for pf req)) c.rows ≡ false
    → res.validated ≡ true
    → stored name (key_for pf req) (complete pf true name now (some res) req c).1.rows
      ≡ some (replayed pf name req res)
unfolding complete insert_row
stored_after_miss pf name now req res c h v =
    rw
      (
        find?-any (has_cache_key (key_for pf req)) c.rows h,
        v,
        h,
        find?-append (has_cache_key (key_for pf req)) c.rows
            (new_row now (key_for pf req) req res ∷ [])
            (find?-any (has_cache_key (key_for pf req)) c.rows h),
        ===_refl (key_for pf req),
      )
      refl

-- Once a validated response to a request that was not in the cache is given, any later request with
-- the same key is answered with the same value, model, usage and latency, under the provider's name
-- marked as cached and an id made of the key's first twelve characters, whatever other requests came
-- between and whatever the inner provider would reply now.
pub complete_replays :
    (pf : Platform) (name : String) (now later : ℕ) (req again : ProviderRequest)
    (res : ProviderResponse) (c : Cache) (between : List Completion)
    (reply : Option ProviderResponse)
    → any (has_cache_key (key_for pf req)) c.rows ≡ false
    → res.validated ≡ true
    → key_for pf again ≡ key_for pf req
    → (complete pf true name later reply again
        (run pf name between (complete pf true name now (some res) req c).1)).0
      ≡ some (record {
        value = res.value;
        provider = name +++ "(cached)";
        model = res.model;
        response_id = "cache:" +++ slice (key_for pf req) 0 12;
        latency_ms = res.latency_ms;
        usage = res.usage;
        validated = true;
      })
complete_replays pf name now later req again res c between reply h v e =
    complete-stored pf name later reply again _ (replayed pf name req res) (
      subst
        (λ k.
          stored name k (run pf name between (complete pf true name now (some res) req c).1).rows
          ≡ some (replayed pf name req res))
        (sym e)
        (stored-run pf name (key_for pf req) (replayed pf name req res) between _
          (stored_after_miss pf name now req res c h v)))
