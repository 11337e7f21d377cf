-- ===== src/Rag/Stream/Leak.antt =====
-- The cache entries that a stream writes are not scoped by the documents that they quote.
use docintel.Common.{◌≡◌, ◌≤◌, some, List, ◌∷◌, is_empty, All, All-map, arith, ap}
use docintel.Shared.Security.{UserContext}
use docintel.Rag.Cache.{CachePoint, check, clearance_level}
use docintel.Rag.Cache.Access.{check_nearest}
use docintel.Rag.Gate.{Settings}
use docintel.Rag.Engine.{Engine, Request}
use docintel.Rag.Stream.{stream}
use docintel.Rag.Stream.Effects.{stream-Faithful}

-- For every caller of the tenant whose clearance is at least that of `internal`, the cache check
-- returns any entry that a stream has written, if that is the nearest point, whatever the levels
-- and roles of the documents in the answer are and whatever roles the caller holds.
pub check-cache_writes :
    {V S : Type 0} (cfg : Settings) (e : Engine V S) (req : Request) (reader : UserContext)
    → (near : List CachePoint) → 1 ≤ clearance_level (some reader)
    → All
        (λ p. check (p ∷ near) req.tenant_id (some reader) ≡ some p)
        (stream cfg e req).cache_writes
check-cache_writes cfg e req reader near h =
    All-map
      (λ p (_, _, tenant, level, roles).
        check_nearest near req.tenant_id (some reader) p tenant (omega arith) (ap is_empty roles))
      _ (stream-Faithful cfg e req).cached
