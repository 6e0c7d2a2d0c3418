-- ===== src/Client/Healthcheck/Records.antt =====
-- The payload of the healthcheck methods, in internal/axonops/types.go, as records and in JSON.
use axonops_operator.Prelude.{
  zero, String, Bool, true, Option, none, some, List, [], ◌∷◌, ◌==◌, if◌then◌else◌,
}
use axonops_operator.Json.{
  Json, Items, Fields, cons, nil, null, array, object, end, field, text, bool, texts,
}
use axonops_operator.Http.{ℤ, pos}
use axonops_operator.Client.Adaptive.{int_json}

-- A `none` among the lists is the nil slice.
pub record HealthcheckIntegrations : Type 0 where
  pub type : String
  pub routing : Option (List String)
  pub override_info : Bool
  pub override_warning : Bool
  pub override_error : Bool

pub record HealthcheckHttp : Type 0 where
  pub id : String
  pub name : String
  pub http : String
  pub method : String
  pub headers : Option (List String)
  pub body : String
  pub expected_status : ℤ
  pub interval : String
  pub timeout : String
  pub readonly : Bool
  pub tls_skip_verify : Bool
  pub supported_agent_types : Option (List String)
  pub integrations : HealthcheckIntegrations

pub record HealthcheckTcp : Type 0 where
  pub id : String
  pub name : String
  pub tcp : String
  pub interval : String
  pub timeout : String
  pub readonly : Bool
  pub supported_agent_types : Option (List String)
  pub integrations : HealthcheckIntegrations

pub record HealthcheckShell : Type 0 where
  pub id : String
  pub name : String
  pub script : String
  pub shell : String
  pub interval : String
  pub timeout : String
  pub readonly : Bool
  pub integrations : HealthcheckIntegrations

-- `HealthchecksResponse`
pub record Healthchecks : Type 0 where
  pub shell_checks : Option (List HealthcheckShell)
  pub http_checks : Option (List HealthcheckHttp)
  pub tcp_checks : Option (List HealthcheckTcp)

-- Fields that are left out where they are empty.
unfoldable pub omit_text : String → String → Fields → Fields
omit_text name t fs = if t == "" then fs else field name (text t) fs

unfoldable pub omit_bool : String → Bool → Fields → Fields
omit_bool name b fs = if b then field name (bool true) fs else fs

unfoldable pub omit_int : String → ℤ → Fields → Fields
unfolding int_json
omit_int name (pos zero) fs = fs
omit_int name i fs = field name (int_json i) fs

unfoldable pub omit_texts : String → Option (List String) → Fields → Fields
unfolding texts
omit_texts name none fs = fs
omit_texts name (some []) fs = fs
omit_texts name (some (t ∷ ts)) fs = field name (array (texts (t ∷ ts))) fs

-- A struct is never left out.
unfoldable pub healthcheck_integrations_json : HealthcheckIntegrations → Json
unfolding omit_text omit_bool omit_texts
healthcheck_integrations_json i = object (
    omit_text "Type" i.type (
      omit_texts "Routing" i.routing (
        omit_bool "OverrideInfo" i.override_info (
          omit_bool "OverrideWarning" i.override_warning
            (omit_bool "OverrideError" i.override_error end)))))

unfoldable pub http_json : HealthcheckHttp → Json
unfolding omit_text omit_bool omit_int omit_texts healthcheck_integrations_json
http_json h = object (
    field "id" (text h.id) (
      field "name" (text h.name) (
        field "http" (text h.http) (
          omit_text "method" h.method (
            omit_texts "headers" h.headers (
              omit_text "body" h.body (
                omit_int "expectedStatus" h.expected_status (
                  omit_text "interval" h.interval (
                    omit_text "timeout" h.timeout (
                      omit_bool "readonly" h.readonly (
                        omit_bool "tls_skip_verify" h.tls_skip_verify (
                          omit_texts "supportedAgentTypes" h.supported_agent_types (
                            field "integrations" (healthcheck_integrations_json h.integrations)
                              end)))))))))))))

unfoldable pub tcp_json : HealthcheckTcp → Json
unfolding omit_text omit_bool omit_texts healthcheck_integrations_json
tcp_json h = object (
    field "id" (text h.id) (
      field "name" (text h.name) (
        field "tcp" (text h.tcp) (
          omit_text "interval" h.interval (
            omit_text "timeout" h.timeout (
              omit_bool "readonly" h.readonly (
                omit_texts "supportedAgentTypes" h.supported_agent_types
                  (field "integrations" (healthcheck_integrations_json h.integrations) end))))))))

unfoldable pub shell_json : HealthcheckShell → Json
unfolding omit_text omit_bool healthcheck_integrations_json
shell_json h = object (
    field "id" (text h.id) (
      field "name" (text h.name) (
        field "script" (text h.script) (
          omit_text "shell" h.shell (
            omit_text "interval" h.interval (
              omit_text "timeout" h.timeout (
                omit_bool "readonly" h.readonly
                  (field "integrations" (healthcheck_integrations_json h.integrations) end))))))))

-- The slices of structs.
module _ {A : Type 0} (encode : A → Json) where
  unfoldable pub items_json : List A → Items
  items_json [] = nil
  items_json (a ∷ as') = cons (encode a) (items_json as')

  unfoldable pub list_json : Option (List A) → Json
  unfolding items_json
  list_json none = null
  list_json (some as') = array (items_json as')

unfoldable pub healthchecks_json : Healthchecks → Json
unfolding list_json http_json tcp_json shell_json
healthchecks_json h = object (
    field "shellchecks" (list_json shell_json h.shell_checks) (
      field "httpchecks" (list_json http_json h.http_checks)
        (field "tcpchecks" (list_json tcp_json h.tcp_checks) end)))
