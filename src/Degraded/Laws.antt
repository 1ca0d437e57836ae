-- ===== src/Degraded/Laws.antt =====
-- What the reason code of `mapDegradedReason` says of the stages.
use priority_kb.Base.{◌≡◌, ◌≢◌, ◌↔◌, true, none, some, arith}
use priority_kb.Degraded.{citation_validation_failed, Health, map_degraded_reason}

-- Two requests with candidates get the same reason only if the same stages failed.
pub map_degraded_reason_injective :
    (g h : Health)
    → g.fused_non_empty ≡ true
    → h.fused_non_empty ≡ true
    → map_degraded_reason g ≡ map_degraded_reason h
    → g ≡ h
unfolding map_degraded_reason
map_degraded_reason_injective g h p q e = ground arith

-- There is no reason exactly when all stages succeeded.
pub map_degraded_reason-eq-none :
    (h : Health)
    → (map_degraded_reason h ≡ none)
      ↔ ((h.embed_ok ≡ true) × (h.rerank_ok ≡ true) × (h.synth_ok ≡ true))
unfolding map_degraded_reason
map_degraded_reason-eq-none h = ground arith

pub map_degraded_reason-ne-citation :
    (h : Health) → map_degraded_reason h ≢ some citation_validation_failed
unfolding map_degraded_reason
map_degraded_reason-ne-citation h = ground arith
