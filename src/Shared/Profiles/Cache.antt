-- ===== src/Shared/Profiles/Cache.antt =====
-- The cache of `ModelProfileResolver`: `_cache_lookup`, the write of `_build_and_cache`, and
-- `invalidate`. Times are in whole seconds.
use docintel.Common.{
  text_eq_refl, if_true, ◌∙◌, ap, ℕ, ◌+◌, ◌≡◌, refl, Bool, true, false, not, ◌&&◌, Option, none,
  some, List, [], ◌∷◌, Text, text_eq, text_eq_iff, keep, ltb, if◌then◌else◌, arith,
}
use docintel.Shared.Profiles.{Params, Row, resolve}

-- `TTL`.
abbrev pub ttl : ℕ
ttl = 60

-- An entry of `_cache`: its key, its value and when it expires.
pub record Entry : Type 0 where
  pub model_name : Text
  pub tenant_id : Text
  pub value : Params
  pub expires_at : ℕ

-- The entries, and the cached platform rows with their expiry.
pub record Resolver : Type 0 where
  pub cache : List Entry
  pub platform : Option (List Row × ℕ)

unfoldable pub is_key : Text → Text → Entry → Bool
is_key name tenant e = text_eq e.model_name name && text_eq e.tenant_id tenant

unfoldable pub find : Text → Text → List Entry → Option Entry
find name tenant [] = none
find name tenant (e ∷ es) = if is_key name tenant e then some e else find name tenant es

-- The value of an entry that has not expired.
unfoldable pub fresh : ℕ → Option Entry → Option Params
fresh now none = none
fresh now (some e) = if ltb now e.expires_at then some e.value else none

unfoldable pub cache_lookup : Text → Text → ℕ → Resolver → Option Params
cache_lookup name tenant now r = fresh now (find name tenant r.cache)

-- `self._cache[(model_name, tenant_id)] = ...`.
unfoldable pub put : Entry → List Entry → List Entry
put e [] = e ∷ []
put e (d ∷ es) = if is_key e.model_name e.tenant_id d then e ∷ es else d ∷ put e es

unfoldable pub build_and_cache :
    List (Text × Params) → Text → Text → List Row → List Row → ℕ → Resolver → Params × Resolver
build_and_cache builtin name tenant platform_rows tenant_rows now r =
    let resolved = resolve builtin name platform_rows tenant_rows in
    let entry : Entry = record {
      model_name = name;
      tenant_id = tenant;
      value = resolved;
      expires_at = now + ttl;
    } in
    (resolved, record r { cache = put entry r.cache })

unfoldable pub invalidate : Option Text → Resolver → Resolver
invalidate none r = record { cache = []; platform = none }
invalidate (some tenant) r = record {
  cache = keep (λ e. not (text_eq e.tenant_id tenant)) r.cache;
  platform = none;
}

-- `_get_platform_rows_sync`; `fetched` is what the database has.
unfoldable pub cached_rows : ℕ → Option (List Row × ℕ) → Option (List Row)
cached_rows now none = none
cached_rows now (some (rows, expires_at)) = if ltb now expires_at then some rows else none

unfoldable pub rows_or_fetch : ℕ → List Row → Resolver → Option (List Row) → List Row × Resolver
rows_or_fetch now fetched r (some rows) = (rows, r)
rows_or_fetch now fetched r none = (fetched, record r { platform = some (fetched, now + ttl) })

unfoldable pub get_platform_rows : ℕ → List Row → Resolver → List Row × Resolver
get_platform_rows now fetched r = rows_or_fetch now fetched r (cached_rows now r.platform)

-- `resolve_sync` behind the lookup; `platform_rows` and `tenant_rows` are what the database has.
unfoldable pub resolve_with :
    List (Text × Params)
    → Text
    → Text
    → List Row
    → List Row
    → ℕ
    → Resolver
    → Option Params
    → Params × Resolver
resolve_with builtin name tenant platform_rows tenant_rows now r (some value) = (value, r)
resolve_with builtin name tenant platform_rows tenant_rows now r none =
    let (rows, r') = get_platform_rows now platform_rows r in
    build_and_cache builtin name tenant rows tenant_rows now r'

unfoldable pub resolve_sync :
    List (Text × Params) → Text → Text → List Row → List Row → ℕ → Resolver → Params × Resolver
resolve_sync builtin name tenant platform_rows tenant_rows now r =
    resolve_with builtin name tenant platform_rows tenant_rows now r
      (cache_lookup name tenant now r)

find-put :
    (name tenant : Text) (e : Entry) (es : List Entry)
    → find name tenant (put e es) ≡ (
        if text_eq e.model_name name && text_eq e.tenant_id tenant
        then some e
        else find name tenant es)
unfolding find put is_key
find-put name tenant e [] = refl
find-put name tenant e (d ∷ es) = ground (
  arith,
  find-put name tenant e es,
  text_eq_iff e.model_name name,
  text_eq_iff e.tenant_id tenant,
  text_eq_iff d.model_name name,
  text_eq_iff d.tenant_id tenant,
  text_eq_iff d.model_name e.model_name,
  text_eq_iff d.tenant_id e.tenant_id,
)

find-keep :
    (name tenant t : Text) (es : List Entry)
    → find name tenant (keep (λ e. not (text_eq e.tenant_id t)) es)
      ≡ (if text_eq tenant t then none else find name tenant es)
unfolding find is_key
find-keep name tenant t [] = ground arith
find-keep name tenant t (d ∷ es) = ground (
  arith,
  find-keep name tenant t es,
  text_eq_iff tenant t,
  text_eq_iff d.tenant_id t,
  text_eq_iff d.tenant_id tenant,
)

fresh_unless :
    (now : ℕ) (b : Bool) (o : Option Entry)
    → fresh now (if b then none else o) ≡ (if b then none else fresh now o)
unfolding fresh
fresh_unless now true o = refl
fresh_unless now false o = refl

fresh_either :
    (now : ℕ) (b : Bool) (e : Entry) (o : Option Entry)
    → fresh now (if b then some e else o)
      ≡ (if b then (if ltb now e.expires_at then some e.value else none) else fresh now o)
unfolding fresh
fresh_either now true e o = refl
fresh_either now false e o = refl

-- A built value is found again under its own model and tenant for exactly `ttl` seconds, and building
-- it changes no other lookup.
pub cache_lookup-build_and_cache :
    (builtin : List (Text × Params)) (name tenant : Text) (platform_rows tenant_rows : List Row)
    (built : ℕ) (r : Resolver) (name' tenant' : Text) (now : ℕ)
    → cache_lookup name' tenant' now
        (build_and_cache builtin name tenant platform_rows tenant_rows built r).1
      ≡ (if text_eq name name' && text_eq tenant tenant'
          then (if ltb now (built + ttl)
              then some (resolve builtin name platform_rows tenant_rows)
              else none)
          else cache_lookup name' tenant' now r)
unfolding cache_lookup build_and_cache
cache_lookup-build_and_cache builtin name tenant platform_rows tenant_rows built r name' tenant'
      now =
    ap (fresh now) (find-put name' tenant' _ r.cache)
    ∙ fresh_either now (text_eq name name' && text_eq tenant tenant') _ (find name' tenant' r.cache)

-- Invalidating a tenant makes all lookups for it miss, and changes no lookup of another tenant.
pub cache_lookup-invalidate :
    (t : Text) (r : Resolver) (name tenant : Text) (now : ℕ)
    → cache_lookup name tenant now (invalidate (some t) r)
      ≡ (if text_eq tenant t then none else cache_lookup name tenant now r)
unfolding cache_lookup invalidate
cache_lookup-invalidate t r name tenant now =
    ap (fresh now) (find-keep name tenant t r.cache) ∙ fresh_unless now (text_eq tenant t) _

-- After an invalidation of a tenant, the next parameters that are resolved for it are made of the
-- rows that the database has then, whatever was cached.
pub resolve_sync-invalidate :
    (builtin : List (Text × Params)) (name tenant : Text) (platform_rows tenant_rows : List Row)
    (now : ℕ) (r : Resolver)
    → (resolve_sync builtin name tenant platform_rows tenant_rows now
        (invalidate (some tenant) r)).0
      ≡ resolve builtin name platform_rows tenant_rows
unfolding resolve_sync resolve_with get_platform_rows rows_or_fetch cached_rows build_and_cache
    invalidate
resolve_sync-invalidate builtin name tenant platform_rows tenant_rows now r =
    let missed =
      cache_lookup-invalidate tenant r name tenant now
      ∙ if_true (text_eq tenant tenant) none _ (text_eq_refl tenant) in
    ap
      (λ o.
        (resolve_with builtin name tenant platform_rows tenant_rows now (invalidate (some tenant) r)
          o).0)
      missed
