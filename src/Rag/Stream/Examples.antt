-- ===== src/Rag/Stream/Examples.antt =====
-- The theorems about streams at one run.
use docintel.Common.{[], ◌∷◌, ◌≡◌, some, codes, All, arith}
use docintel.Shared.Security.{classification_order}
use docintel.Rag.Demo.{demo_settings, demo_engine, demo_request, demo_user}
use docintel.Rag.Events.{EndsOnce, start, done, follow}
use docintel.Rag.Cache.{check, clearance_level}
use docintel.Rag.Stream.{stream}
use docintel.Rag.Stream.Protocol.{stream-Completes}
use docintel.Rag.Stream.Effects.{Faithful, stream-Faithful}
use docintel.Rag.Stream.Leak.{check-cache_writes}

stream-Completes_example :
    (follow start (stream demo_settings demo_engine demo_request).events ≡ some done)
    × EndsOnce (stream demo_settings demo_engine demo_request).events
stream-Completes_example = stream-Completes demo_settings demo_engine demo_request (omega arith)

stream-Faithful_example : Faithful (codes "t1") (stream demo_settings demo_engine demo_request)
stream-Faithful_example = stream-Faithful demo_settings demo_engine demo_request

check-cache_writes_example :
    All
      (λ p. check (p ∷ []) (codes "t1") (some demo_user) ≡ some p)
      (stream demo_settings demo_engine demo_request).cache_writes
unfolding clearance_level classification_order
check-cache_writes_example =
    check-cache_writes demo_settings demo_engine demo_request demo_user [] (omega arith)
