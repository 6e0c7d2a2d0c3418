-- ===== src/Adaptive/Settled.antt =====
-- Where the API holds the settings that the resource asks for.
use Prim.Native.Nat.{◌^◌}
use axonops_operator.Prelude.{ℕ, ◌-◌, Bool, none, ◌&&◌, leb}
use axonops_operator.K8s.{K8s}
use axonops_operator.Http.{ℤ, pos, negsuc, Request}
use axonops_operator.Client.{Client, request}
use axonops_operator.Client.Adaptive.{AdaptiveRepairSettings, adaptive_repair_url}
use axonops_operator.Adaptive.{AdaptiveRepair}

-- Whether a number fits an integer of the given bits beside the sign.
unfoldable pub fits : ℕ → ℤ → Bool
fits bits (pos n) = leb n (2 ^ bits - 1)
fits bits (negsuc n) = leb n (2 ^ bits - 1)

-- The fields fit their Go types.
unfoldable pub in_range : AdaptiveRepairSettings → Bool
unfolding fits
in_range s =
    fits 63 s.gc_grace_threshold
    && fits 31 s.max_segments_per_table
    && fits 31 s.segment_retries
    && fits 31 s.segment_target_size_mb
    && fits 31 s.table_parallelism

abbrev pub settings_request : Client → AdaptiveRepair → Request
settings_request c a =
    request c "GET" (adaptive_repair_url c a.spec.cluster_type a.spec.cluster_name) none
