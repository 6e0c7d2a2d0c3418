-- ===== src/Client/Kafka.antt =====
-- The Kafka methods of internal/axonops/client.go and their payloads (internal/axonops/types.go).
use axonops_operator.Prelude.{ℕ, String, none, some, List, [], ◌∷◌, ◌<>◌, if◌then◌else◌}
use axonops_operator.Errors.{wrap, Result, ok, err}
use axonops_operator.Json.{
  Json, Items, Fields, array, cons, nil, object, end, field, text, number, text_fields, fields_of,
  text_field, field_fits, is_text_map, type_error,
}
use axonops_operator.Http.{Response, Std, Env, M, pure, ◌>>=◌}
use axonops_operator.Client.{Client, path_escape, perform, expect_status, check_body_error, then_ok}

pub record KafkaTopicConfig : Type 0 where
  pub name : String
  pub value : String

pub record KafkaTopicCreateRequest : Type 0 where
  pub topic_name : String
  pub partition_count : ℕ
  pub replication_factor : ℕ
  pub configs : List KafkaTopicConfig

pub record KafkaTopicConfigUpdate : Type 0 where
  pub key : String
  pub value : String
  pub op : String

pub record KafkaAcl : Type 0 where
  pub resource_type : String
  pub resource_name : String
  pub resource_pattern_type : String
  pub principal : String
  pub host : String
  pub operation : String
  pub permission_type : String

-- A `map[string]string`, in the order in which a run ranges over it.
pub record KafkaConnectorCreateRequest : Type 0 where
  pub name : String
  pub config : List (String × String)

pub record KafkaConnectorResponse : Type 0 where
  pub name : String
  pub type : String

unfoldable pub configs_json : List KafkaTopicConfig → Items
configs_json [] = nil
configs_json (c ∷ cs) =
    cons (object (field "name" (text c.name) (field "value" (text c.value) end))) (configs_json cs)

unfoldable pub topic_json : KafkaTopicCreateRequest → Json
unfolding configs_json
topic_json t = object (
    field "topicName" (text t.topic_name) (
      field "partitionCount" (number t.partition_count) (
        field "replicationFactor" (number t.replication_factor)
          (field "configs" (array (configs_json t.configs)) end))))

updates_json : List KafkaTopicConfigUpdate → Items
updates_json [] = nil
updates_json (u ∷ us) =
    cons
      (object
        (field "key" (text u.key) (field "value" (text u.value) (field "op" (text u.op) end))))
      (updates_json us)

unfoldable pub config_updates_json : List KafkaTopicConfigUpdate → Json
unfolding updates_json
config_updates_json us = object (field "configs" (array (updates_json us)) end)

unfoldable pub acl_json : KafkaAcl → Json
acl_json a = object (
    field "resourceType" (text a.resource_type) (
      field "resourceName" (text a.resource_name) (
        field "resourcePatternType" (text a.resource_pattern_type) (
          field "principal" (text a.principal) (
            field "host" (text a.host) (
              field "operation" (text a.operation)
                (field "permissionType" (text a.permission_type) end)))))))

unfoldable pub connector_json : KafkaConnectorCreateRequest → Json
unfolding text_fields
connector_json c =
    object (field "name" (text c.name) (field "config" (object (text_fields c.config)) end))

unfoldable pub connector_config_json : List (String × String) → Json
unfolding text_fields
connector_config_json m = object (field "config" (object (text_fields m)) end)

decode_connector_fields : Fields → Result KafkaConnectorResponse
unfolding text_field field_fits is_text_map
decode_connector_fields fs =
    if field_fits "config" is_text_map fs
    then (then_ok (text_field "name" fs (ok ""))
        λ n. then_ok (text_field "type" fs (ok "")) λ t. ok (record { name = n; type = t }))
    else err type_error

unfoldable pub decode_connector : Response → Result KafkaConnectorResponse
unfolding decode_connector_fields fields_of then_ok
decode_connector resp =
    elim (then_ok resp.value λ v. then_ok (fields_of v) decode_connector_fields) [
      | err e ↦ err (wrap "failed to decode response" e)
      | ok c ↦ ok c
    ]

-- The paths below the base URL.
unfoldable pub kafka_url : Client → String → String
unfolding path_escape
kafka_url c cluster =
    c.base_url <> "/api/v1/" <> path_escape c.org_id <> "/kafka/" <> path_escape cluster

unfoldable pub topics_url : Client → String → String
unfolding kafka_url
topics_url c cluster = kafka_url c cluster <> "/topics"

unfoldable pub topic_url : Client → String → String → String
unfolding topics_url
topic_url c cluster topic = topics_url c cluster <> "/" <> path_escape topic

unfoldable pub acls_url : Client → String → String
unfolding kafka_url
acls_url c cluster = kafka_url c cluster <> "/acls"

unfoldable pub connect_url : Client → String → String → String
unfolding kafka_url
connect_url c cluster connect = kafka_url c cluster <> "/connect/" <> path_escape connect

unfoldable pub connector_url : Client → String → String → String → String
unfolding connect_url
connector_url c cluster connect name = connect_url c cluster connect <> "/" <> path_escape name

-- The success codes, and the check of the body that follows.
unfoldable pub checked : List ℕ → Result Response → Result Response
unfolding expect_status check_body_error then_ok
checked codes r = then_ok r λ resp. then_ok (expect_status codes resp) check_body_error

module _ {W O : Type 0} (std : Std) (env : Env W O) (c : Client) where
  unfoldable pub create_kafka_topic : String → KafkaTopicCreateRequest → M W O (Result Response)
  unfolding perform checked
  create_kafka_topic cluster topic = do
    r ←
        perform std env c "POST" (topics_url c cluster) (some (topic_json topic))
          "failed to create kafka topic"
    pure (checked (200 ∷ 201 ∷ []) r)

  unfoldable pub update_kafka_topic_config :
      String → String → List KafkaTopicConfigUpdate → M W O (Result Response)
  unfolding perform checked
  update_kafka_topic_config cluster topic configs = do
    r ←
        perform std env c "PUT" (topic_url c cluster topic <> "/configs")
          (some (config_updates_json configs)) "failed to update kafka topic config"
    pure (checked (200 ∷ 204 ∷ []) r)

  unfoldable pub delete_kafka_topic : String → String → M W O (Result Response)
  unfolding perform checked
  delete_kafka_topic cluster topic = do
    r ← perform std env c "DELETE" (topic_url c cluster topic) none "failed to delete kafka topic"
    pure (checked (200 ∷ 204 ∷ 404 ∷ []) r)

  unfoldable pub create_kafka_acl : String → KafkaAcl → M W O (Result Response)
  unfolding perform checked
  create_kafka_acl cluster acl = do
    r ←
        perform std env c "POST" (acls_url c cluster) (some (acl_json acl))
          "failed to create kafka ACL"
    pure (checked (200 ∷ 204 ∷ 201 ∷ []) r)

  unfoldable pub delete_kafka_acl : String → KafkaAcl → M W O (Result Response)
  unfolding perform checked
  delete_kafka_acl cluster acl = do
    r ←
        perform std env c "DELETE" (acls_url c cluster) (some (acl_json acl))
          "failed to delete kafka ACL"
    pure (checked (200 ∷ 204 ∷ 404 ∷ []) r)

  unfoldable pub create_kafka_connector :
      String → String → KafkaConnectorCreateRequest → M W O (Result KafkaConnectorResponse)
  unfolding perform checked decode_connector
  create_kafka_connector cluster connect connector = do
    r ←
        perform std env c "POST" (connect_url c cluster connect <> "/connector")
          (some (connector_json connector)) "failed to create kafka connector"
    pure (then_ok (checked (200 ∷ 201 ∷ []) r) decode_connector)

  unfoldable pub update_kafka_connector_config :
      String → String → String → List (String × String) → M W O (Result Response)
  unfolding perform checked
  update_kafka_connector_config cluster connect name config = do
    r ←
        perform std env c "PUT" (connector_url c cluster connect name <> "/config")
          (some (connector_config_json config)) "failed to update kafka connector config"
    pure (checked (200 ∷ 204 ∷ []) r)

  unfoldable pub delete_kafka_connector : String → String → String → M W O (Result Response)
  unfolding perform checked
  delete_kafka_connector cluster connect name = do
    r ←
        perform std env c "DELETE" (connector_url c cluster connect name) none
          "failed to delete kafka connector"
    pure (checked (200 ∷ 204 ∷ 404 ∷ []) r)
