-- ===== src/Client/Adaptive.antt =====
-- The adaptive repair methods of internal/axonops/client.go and their payload.
use Prim.Native.Nat.{◌^◌}
use axonops_operator.Prelude.{
  ℕ, ◌-◌, String, Bool, false, Option, none, some, List, [], ◌∷◌, ◌<>◌, leb, equal_fold,
  if◌then◌else◌,
}
use axonops_operator.Errors.{wrap, Result, ok, err}
use axonops_operator.Json.{
  Json, Items, Fields, cons, nil, null, array, object, end, field, text, number, negative, bool,
  text_slice, fields_of, text_field, bool_field, type_error,
}
use axonops_operator.Http.{Response, Std, Env, M, ℤ, pos, negsuc, pure, ◌>>=◌}
use axonops_operator.Client.{Client, perform, expect_status, then_ok}
use axonops_operator.Client.Repair.{cluster_path}

-- A `none` among the tables is the nil slice.
pub record AdaptiveRepairSettings : Type 0 where
  pub active : Bool
  pub blacklisted_tables : Option (List String)
  pub filter_twcs_tables : Bool
  pub gc_grace_threshold : ℤ
  pub max_segments_per_table : ℤ
  pub segment_retries : ℤ
  pub segment_target_size_mb : ℤ
  pub segment_timeout : String
  pub table_parallelism : ℤ

unfoldable pub int_json : ℤ → Json
int_json (pos n) = number n
int_json (negsuc n) = negative n

unfoldable pub settings_fields : AdaptiveRepairSettings → Fields
unfolding text_slice int_json
settings_fields s = field "Active" (bool s.active) (
    field "BlacklistedTables" (text_slice s.blacklisted_tables) (
      field "FilterTWCSTables" (bool s.filter_twcs_tables) (
        field "GcGraceThreshold" (int_json s.gc_grace_threshold) (
          field "MaxSegmentsPerTable" (int_json s.max_segments_per_table) (
            field "SegmentRetries" (int_json s.segment_retries) (
              field "SegmentTargetSizeMB" (int_json s.segment_target_size_mb) (
                field "SegmentTimeout" (text s.segment_timeout)
                  (field "TableParallelism" (int_json s.table_parallelism) end))))))))

unfoldable pub settings_json : AdaptiveRepairSettings → Json
unfolding settings_fields
settings_json s = object (settings_fields s)

-- An `int64` for 63 bits beside the sign, an `int32` for 31.
unfoldable pub set_int : ℕ → Json → Result ℤ → Result ℤ
set_int bits (number n) (ok _) = if leb n (2 ^ bits - 1) then ok (pos n) else err type_error
set_int bits (negative n) (ok _) = if leb n (2 ^ bits - 1) then ok (negsuc n) else err type_error
set_int bits null r = r
set_int _ _ _ = err type_error

unfoldable pub int_field : ℕ → String → Fields → Result ℤ → Result ℤ
unfolding set_int equal_fold
int_field bits name end r = r
int_field bits name (field k v fs) r =
    int_field bits name fs (if equal_fold k name then set_int bits v r else r)

unfoldable pub texts_of : Items → Result (List String)
unfolding then_ok
texts_of nil = ok []
texts_of (cons (text t) vs) = then_ok (texts_of vs) λ ts. ok (t ∷ ts)
texts_of (cons null vs) = then_ok (texts_of vs) λ ts. ok ("" ∷ ts)
texts_of (cons _ vs) = err type_error

unfoldable pub set_slice : Json → Result (Option (List String)) → Result (Option (List String))
unfolding texts_of then_ok
set_slice (array vs) (ok _) = then_ok (texts_of vs) λ ts. ok (some ts)
set_slice null (ok _) = ok none
set_slice _ _ = err type_error

unfoldable pub slice_field :
    String → Fields → Result (Option (List String)) → Result (Option (List String))
unfolding set_slice equal_fold
slice_field name end r = r
slice_field name (field k v fs) r =
    slice_field name fs (if equal_fold k name then set_slice v r else r)

unfoldable pub decode_settings_fields : Fields → Result AdaptiveRepairSettings
unfolding bool_field slice_field int_field text_field then_ok
decode_settings_fields fs = then_ok (bool_field "Active" fs (ok false)) λ active.
    then_ok (slice_field "BlacklistedTables" fs (ok none)) λ tables.
      then_ok (bool_field "FilterTWCSTables" fs (ok false)) λ twcs.
        then_ok (int_field 63 "GcGraceThreshold" fs (ok (pos 0))) λ grace.
          then_ok (int_field 31 "MaxSegmentsPerTable" fs (ok (pos 0))) λ segments.
            then_ok (int_field 31 "SegmentRetries" fs (ok (pos 0))) λ retries.
              then_ok (int_field 31 "SegmentTargetSizeMB" fs (ok (pos 0))) λ size.
                then_ok (text_field "SegmentTimeout" fs (ok "")) λ timeout.
                  then_ok (int_field 31 "TableParallelism" fs (ok (pos 0))) λ parallelism.
                    ok (record {
                      active = active;
                      blacklisted_tables = tables;
                      filter_twcs_tables = twcs;
                      gc_grace_threshold = grace;
                      max_segments_per_table = segments;
                      segment_retries = retries;
                      segment_target_size_mb = size;
                      segment_timeout = timeout;
                      table_parallelism = parallelism;
                    })

unfoldable pub decode_settings : Response → Result AdaptiveRepairSettings
unfolding fields_of decode_settings_fields then_ok
decode_settings resp = elim (then_ok (then_ok resp.value fields_of) decode_settings_fields) [
  | err e ↦ err (wrap "failed to decode adaptive repair response" e)
  | ok s ↦ ok s
]

unfoldable pub adaptive_repair_url : Client → String → String → String
unfolding cluster_path
adaptive_repair_url c cluster_type cluster =
    c.base_url <> "/api/v1/adaptiveRepair/" <> cluster_path c cluster_type cluster

module _ {W O : Type 0} (std : Std) (env : Env W O) (c : Client) where
  unfoldable pub get_adaptive_repair : String → String → M W O (Result AdaptiveRepairSettings)
  unfolding perform expect_status then_ok decode_settings
  get_adaptive_repair cluster_type cluster = do
    r ←
        perform std env c "GET" (adaptive_repair_url c cluster_type cluster) none
          "failed to get adaptive repair settings"
    pure (then_ok (then_ok r (expect_status (200 ∷ []))) decode_settings)

  unfoldable pub update_adaptive_repair :
      String → String → AdaptiveRepairSettings → M W O (Result Response)
  unfolding perform expect_status then_ok settings_json
  update_adaptive_repair cluster_type cluster settings = do
    r ←
        perform std env c "POST" (adaptive_repair_url c cluster_type cluster)
          (some (settings_json settings)) "failed to update adaptive repair settings"
    pure (then_ok r (expect_status (200 ∷ 201 ∷ 204 ∷ [])))
