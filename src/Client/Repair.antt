-- ===== src/Client/Repair.antt =====
-- The scheduled repair methods of internal/axonops/client.go and their payloads.
use axonops_operator.Prelude.{
  ℕ, String, Bool, Option, none, some, List, [], ◌∷◌, ◌<>◌, ◌&&◌, if◌then◌else◌,
}
use axonops_operator.Errors.{wrap, Result, ok, err}
use axonops_operator.Json.{
  Json, Items, Fields, cons, nil, object, end, field, text, number, bool, text_slice, fields_of,
  text_field, items_field, field_fits, is_text, is_bool, is_int, is_text_slice, type_error,
}
use axonops_operator.Http.{Response, Std, Env, M, pure, ◌>>=◌}
use axonops_operator.Client.{Client, path_escape, perform, expect_status, then_ok}

-- A `none` among the lists is the nil slice.
pub record ScheduledRepairParams : Type 0 where
  pub tag : String
  pub keyspace : String
  pub tables : Option (List String)
  pub blacklisted_tables : Option (List String)
  pub nodes : Option (List String)
  pub segments_per_node : ℕ
  pub segmented : Bool
  pub incremental : Bool
  pub job_threads : ℕ
  pub schedule : Bool
  pub schedule_expr : String
  pub primary_range : Bool
  pub parallelism : String
  pub optimise_streams : Bool
  pub specific_data_centers : Option (List String)
  pub paxos : String
  pub skip_paxos : Bool
  pub paxos_only : Bool

-- An entry of the answer, with the tags of its parameters.
pub record ScheduledRepairEntry : Type 0 where
  pub id : String
  pub tags : List String

repair_params_rest : ScheduledRepairParams → Fields
unfolding text_slice
repair_params_rest p = field "schedule" (bool p.schedule) (
    field "scheduleExpr" (text p.schedule_expr) (
      field "primaryRange" (bool p.primary_range) (
        field "parallelism" (text p.parallelism) (
          field "optimiseStreams" (bool p.optimise_streams) (
            field "specificDataCenters" (text_slice p.specific_data_centers) (
              field "paxos" (text p.paxos) (
                field "skipPaxos" (bool p.skip_paxos)
                  (field "paxosOnly" (bool p.paxos_only) end))))))))

unfoldable pub repair_params_json : ScheduledRepairParams → Json
unfolding text_slice repair_params_rest
repair_params_json p = object (
    field "tag" (text p.tag) (
      field "keyspace" (text p.keyspace) (
        field "tables" (text_slice p.tables) (
          field "blacklistedTables" (text_slice p.blacklisted_tables) (
            field "nodes" (text_slice p.nodes) (
              field "segmentsPerNode" (number p.segments_per_node) (
                field "segmented" (bool p.segmented) (
                  field "incremental" (bool p.incremental)
                    (field "jobThreads" (number p.job_threads) (repair_params_rest p))))))))))

-- The fields of `ScheduledRepairParams` that decoding checks beside the tag.
params_fit : Fields → Bool
unfolding field_fits is_text is_bool is_int is_text_slice
params_fit fs =
    field_fits "keyspace" is_text fs
    && field_fits "tables" is_text_slice fs
    && field_fits "blacklistedTables" is_text_slice fs
    && field_fits "nodes" is_text_slice fs
    && field_fits "segmentsPerNode" is_int fs
    && field_fits "segmented" is_bool fs
    && field_fits "incremental" is_bool fs
    && field_fits "jobThreads" is_int fs
    && field_fits "schedule" is_bool fs
    && field_fits "scheduleExpr" is_text fs
    && field_fits "primaryRange" is_bool fs
    && field_fits "parallelism" is_text fs
    && field_fits "optimiseStreams" is_bool fs
    && field_fits "specificDataCenters" is_text_slice fs
    && field_fits "paxos" is_text fs
    && field_fits "skipPaxos" is_bool fs
    && field_fits "paxosOnly" is_bool fs

decode_tag : Json → Result String
unfolding params_fit fields_of text_field then_ok
decode_tag v =
    then_ok (fields_of v)
      λ fs. if params_fit fs then text_field "tag" fs (ok "") else err type_error

decode_tags : Items → Result (List String)
unfolding decode_tag
decode_tags nil = ok []
decode_tags (cons v vs) =
    let rest = decode_tags vs in then_ok (decode_tag v) λ t. then_ok rest λ ts. ok (t ∷ ts)

decode_entry : Json → Result ScheduledRepairEntry
unfolding decode_tags items_field
decode_entry v = then_ok (fields_of v) λ fs. then_ok (text_field "ID" fs (ok "")) λ i.
    then_ok (items_field "Params" fs (ok nil))
      λ vs. then_ok (decode_tags vs) λ ts. ok (record { id = i; tags = ts })

decode_entries : Items → Result (List ScheduledRepairEntry)
unfolding decode_entry
decode_entries nil = ok []
decode_entries (cons v vs) =
    let rest = decode_entries vs in then_ok (decode_entry v) λ e. then_ok rest λ es. ok (e ∷ es)

unfoldable pub decode_repairs : Response → Result (List ScheduledRepairEntry)
unfolding decode_entries
decode_repairs resp =
    elim (then_ok resp.value
      λ v. then_ok (fields_of v) λ fs. then_ok (items_field "Repairs" fs (ok nil)) decode_entries) [
        | err e ↦ err (wrap "failed to decode response" e)
        | ok es ↦ ok es
      ]

unfoldable pub cluster_path : Client → String → String → String
unfolding path_escape
cluster_path c cluster_type cluster =
    path_escape c.org_id <> "/" <> path_escape cluster_type <> "/" <> path_escape cluster

module _ {W O : Type 0} (std : Std) (env : Env W O) (c : Client) where
  unfoldable pub get_scheduled_repairs :
      String → String → M W O (Result (List ScheduledRepairEntry))
  unfolding perform expect_status then_ok decode_repairs
  get_scheduled_repairs cluster_type cluster = do
    r ←
        perform std env c "GET"
          (c.base_url <> "/api/v1/repair/" <> cluster_path c cluster_type cluster) none
          "failed to get scheduled repairs"
    pure (then_ok (then_ok r (expect_status (200 ∷ []))) decode_repairs)

  unfoldable pub create_scheduled_repair :
      String → String → ScheduledRepairParams → M W O (Result Response)
  unfolding perform expect_status then_ok
  create_scheduled_repair cluster_type cluster params = do
    r ←
        perform std env c "POST"
          (c.base_url <> "/api/v1/addrepair/" <> cluster_path c cluster_type cluster)
          (some (repair_params_json params)) "failed to create scheduled repair"
    pure (then_ok r (expect_status (200 ∷ 201 ∷ 204 ∷ [])))

  unfoldable pub delete_scheduled_repair : String → String → String → M W O (Result Response)
  unfolding perform expect_status then_ok
  delete_scheduled_repair cluster_type cluster id = do
    r ←
        perform std env c "DELETE"
          (c.base_url
            <> "/api/v1/cassandrascheduledrepair/"
            <> cluster_path c cluster_type cluster
            <> "?id="
            <> path_escape id)
          none "failed to delete scheduled repair"
    pure (then_ok r (expect_status (200 ∷ 204 ∷ 404 ∷ [])))
