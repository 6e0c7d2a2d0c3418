-- ===== src/Client/Backup.antt =====
-- The scheduled snapshot methods of internal/axonops/client.go and their payloads.
use axonops_operator.Prelude.{
  ℕ, String, Bool, true, false, Option, none, some, List, [], ◌∷◌, ◌<>◌, ◌==◌, nat_eq,
  if◌then◌else◌,
}
use axonops_operator.Errors.{wrap, Result, ok, err}
use axonops_operator.Json.{
  Json, Items, Fields, cons, nil, null, array, object, end, field, text, number, negative, bool,
  texts, text_slice, fields_of, text_field, items_field, field_fits, type_error,
}
use axonops_operator.Http.{Response, Std, Env, M, ℤ, pos, negsuc, pure, new_uuid, ◌>>=◌}
use axonops_operator.Client.{Client, perform, expect_status, then_ok}
use axonops_operator.Client.Repair.{cluster_path}

-- A `none` among the lists is the nil slice; a table is its name.
pub record BackupPayload : Type 0 where
  pub id : String
  pub tag : String
  pub datacenters : Option (List String)
  pub nodes : Option (List String)
  pub tables : Option (List String)
  pub keyspaces : Option (List String)
  pub all_tables : Bool
  pub all_nodes : Bool
  pub local_retention_duration : String
  pub remote : Bool
  pub remote_type : String
  pub remote_path : String
  pub remote_retention_duration : String
  pub remote_config : String
  pub timeout : String
  pub transfers : ℕ
  pub tps_limit : ℤ
  pub bw_limit : String
  pub schedule : Bool
  pub schedule_expr : String

-- A text field with `omitempty`.
optional_text : String → String → Fields → Fields
optional_text name t fs = if t == "" then fs else field name (text t) fs

optional_number : String → ℤ → Fields → Fields
optional_number name (pos n) fs = if nat_eq n 0 then fs else field name (number n) fs
optional_number name (negsuc n) fs = field name (negative n) fs

table_refs : List String → Items
table_refs [] = nil
table_refs (t ∷ ts) = cons (object (field "Name" (text t) end)) (table_refs ts)

table_slice : Option (List String) → Json
unfolding table_refs
table_slice none = null
table_slice (some ts) = array (table_refs ts)

-- The fields from `Remote` on.
remote_fields : BackupPayload → Fields
unfolding optional_text optional_number
remote_fields b = field "Remote" (bool b.remote) (
    optional_text "remoteType" b.remote_type (
      optional_text "remotePath" b.remote_path (
        optional_text "RemoteRetentionDuration" b.remote_retention_duration (
          optional_text "remoteConfig" b.remote_config (
            optional_text "timeout" b.timeout (
              optional_number "transfers" (pos b.transfers) (
                optional_number "tpslimit" b.tps_limit (
                  optional_text "bwlimit" b.bw_limit (
                    field "schedule" (bool b.schedule)
                      (optional_text "scheduleExpr" b.schedule_expr end))))))))))

unfoldable pub backup_json : BackupPayload → Json
unfolding text_slice table_slice remote_fields
backup_json b = object (
    field "ID" (text b.id) (
      field "tag" (text b.tag) (
        field "datacenters" (text_slice b.datacenters) (
          field "nodes" (text_slice b.nodes) (
            field "tables" (table_slice b.tables) (
              field "keyspaces" (text_slice b.keyspaces) (
                field "allTables" (bool b.all_tables) (
                  field "allNodes" (bool b.all_nodes) (
                    field "LocalRetentionDuration" (text b.local_retention_duration)
                      (remote_fields b))))))))))

-- What a `[]json.RawMessage` takes.
is_array : Json → Bool
is_array (array vs) = true
is_array null = true
is_array _ = false

-- The id of a snapshot.
decode_snapshot : Json → Result String
unfolding is_array field_fits fields_of text_field then_ok
decode_snapshot v =
    then_ok (fields_of v)
      λ fs. if field_fits "Params" is_array fs then text_field "ID" fs (ok "") else err type_error

decode_snapshot_list : Items → Result (List String)
unfolding decode_snapshot then_ok
decode_snapshot_list nil = ok []
decode_snapshot_list (cons v vs) =
    let rest = decode_snapshot_list vs in
    then_ok (decode_snapshot v) λ i. then_ok rest λ is'. ok (i ∷ is')

-- The ids of the snapshots in an answer.
unfoldable pub decode_snapshots : Response → Result (List String)
unfolding decode_snapshot_list fields_of items_field then_ok
decode_snapshots resp =
    elim (then_ok resp.value λ v.
      then_ok (fields_of v)
        λ fs. then_ok (items_field "ScheduledSnapshots" fs (ok nil)) decode_snapshot_list) [
          | err e ↦ err (wrap "failed to decode response" e)
          | ok ids ↦ ok ids
        ]

unfoldable pub scheduled_snapshots_url : Client → String → String → String
unfolding cluster_path
scheduled_snapshots_url c cluster_type cluster =
    c.base_url <> "/api/v1/cassandraScheduleSnapshot/" <> cluster_path c cluster_type cluster

unfoldable pub snapshot_url : Client → String → String → String
unfolding cluster_path
snapshot_url c cluster_type cluster =
    c.base_url <> "/api/v1/cassandraSnapshot/" <> cluster_path c cluster_type cluster

module _ {W O : Type 0} (std : Std) (env : Env W O) (c : Client) where
  unfoldable pub get_scheduled_snapshots : String → String → M W O (Result (List String))
  unfolding perform expect_status then_ok decode_snapshots
  get_scheduled_snapshots cluster_type cluster = do
    r ←
        perform std env c "GET" (scheduled_snapshots_url c cluster_type cluster) none
          "failed to get scheduled snapshots"
    pure (then_ok (then_ok r (expect_status (200 ∷ []))) decode_snapshots)

  -- A payload that has an id keeps it.
  unfoldable pub with_backup_id : BackupPayload → M W O BackupPayload
  unfolding new_uuid
  with_backup_id b =
      if b.id == "" then (do id ← new_uuid env; pure (record b { id = id })) else pure b

  unfoldable pub create_scheduled_snapshot :
      String → String → BackupPayload → M W O (Result Response)
  unfolding with_backup_id perform expect_status then_ok
  create_scheduled_snapshot cluster_type cluster payload = do
    b ← with_backup_id payload
    r ←
        perform std env c "POST" (snapshot_url c cluster_type cluster) (some (backup_json b))
          "failed to create scheduled snapshot"
    pure (then_ok r (expect_status (200 ∷ 201 ∷ 204 ∷ [])))

  -- The ids to delete are in the body.
  unfoldable pub delete_scheduled_snapshot : String → String → String → M W O (Result Response)
  unfolding perform expect_status then_ok texts
  delete_scheduled_snapshot cluster_type cluster id = do
    r ←
        perform std env c "DELETE" (scheduled_snapshots_url c cluster_type cluster)
          (some (array (texts (id ∷ [])))) "failed to delete scheduled snapshot"
    pure (then_ok r (expect_status (200 ∷ 204 ∷ 404 ∷ [])))
