-- ===== src/Client/Collector.antt =====
-- The log collector methods of internal/axonops/client.go and their payloads.
use axonops_operator.Prelude.{String, Bool, false, Option, none, some, List, [], ◌∷◌, ◌<>◌}
use axonops_operator.Errors.{wrap, Result, ok, err}
use axonops_operator.Json.{
  Json, Items, Fields, cons, nil, object, end, field, text, bool, null, array, fields_of,
  text_field, bool_field, any_field, struct_field, type_error,
}
use axonops_operator.Http.{Response, Std, Env, M, pure, ◌>>=◌}
use axonops_operator.Client.{Client, form_request, exchange, perform, expect_status, then_ok}
use axonops_operator.Client.Repair.{cluster_path}

-- `routing` is the encoding of the value of type `any`.
pub record LogCollectorIntegrations : Type 0 where
  pub override_error : Bool
  pub override_info : Bool
  pub override_warning : Bool
  pub routing : Json
  pub type : String

pub record LogCollector : Type 0 where
  pub uuid : String
  pub id : String
  pub name : String
  pub interval : String
  pub timeout : String
  pub filename : String
  pub date_format : String
  pub info_regex : String
  pub warning_regex : String
  pub error_regex : String
  pub debug_regex : String
  pub readonly : Bool
  pub integrations : LogCollectorIntegrations

integrations_json : LogCollectorIntegrations → Json
integrations_json i = object (
    field "OverrideError" (bool i.override_error) (
      field "OverrideInfo" (bool i.override_info) (
        field "OverrideWarning" (bool i.override_warning)
          (field "Routing" i.routing (field "Type" (text i.type) end)))))

collector_rest : LogCollector → Fields
unfolding integrations_json
collector_rest l = field "dateFormat" (text l.date_format) (
    field "infoRegex" (text l.info_regex) (
      field "warningRegex" (text l.warning_regex) (
        field "errorRegex" (text l.error_regex) (
          field "debugRegex" (text l.debug_regex) (
            field "readonly" (bool l.readonly)
              (field "integrations" (integrations_json l.integrations) end))))))

unfoldable pub collector_json : LogCollector → Json
unfolding collector_rest
collector_json l = object (
    field "uuid" (text l.uuid) (
      field "id" (text l.id) (
        field "name" (text l.name) (
          field "interval" (text l.interval) (
            field "timeout" (text l.timeout)
              (field "filename" (text l.filename) (collector_rest l)))))))

collector_items : List LogCollector → Items
unfolding collector_json
collector_items [] = nil
collector_items (l ∷ ls) = cons (collector_json l) (collector_items ls)

-- A slice of collectors; `none` is the nil slice.
unfoldable pub collectors_json : Option (List LogCollector) → Json
unfolding collector_items
collectors_json none = null
collectors_json (some ls) = array (collector_items ls)

module _ (std : Std) where
  decode_integrations : Fields → Result LogCollectorIntegrations
  unfolding text_field bool_field any_field then_ok
  decode_integrations fs = then_ok (bool_field "OverrideError" fs (ok false)) λ e.
      then_ok (bool_field "OverrideInfo" fs (ok false)) λ i.
        then_ok (bool_field "OverrideWarning" fs (ok false)) λ w.
          then_ok (text_field "Type" fs (ok "")) λ t. ok (record {
            override_error = e;
            override_info = i;
            override_warning = w;
            routing = std.any_json (any_field "Routing" fs null);
            type = t;
          })

  decode_collector : Json → Result LogCollector
  unfolding decode_integrations fields_of text_field bool_field struct_field then_ok
  decode_collector v = then_ok (fields_of v) λ fs. then_ok (text_field "uuid" fs (ok "")) λ u.
      then_ok (text_field "id" fs (ok "")) λ i. then_ok (text_field "name" fs (ok "")) λ n.
        then_ok (text_field "interval" fs (ok "")) λ every.
          then_ok (text_field "timeout" fs (ok "")) λ t.
            then_ok (text_field "filename" fs (ok "")) λ f.
              then_ok (text_field "dateFormat" fs (ok "")) λ d.
                then_ok (text_field "infoRegex" fs (ok "")) λ info.
                  then_ok (text_field "warningRegex" fs (ok "")) λ warning.
                    then_ok (text_field "errorRegex" fs (ok "")) λ e.
                      then_ok (text_field "debugRegex" fs (ok "")) λ debug.
                        then_ok (bool_field "readonly" fs (ok false)) λ r.
                          then_ok
                            (then_ok (struct_field "integrations" fs (ok end)) decode_integrations)
                            λ s. ok (record {
                              uuid = u;
                              id = i;
                              name = n;
                              interval = every;
                              timeout = t;
                              filename = f;
                              date_format = d;
                              info_regex = info;
                              warning_regex = warning;
                              error_regex = e;
                              debug_regex = debug;
                              readonly = r;
                              integrations = s;
                            })

  decode_items : Items → Result (List LogCollector)
  unfolding decode_collector then_ok
  decode_items nil = ok []
  decode_items (cons v vs) =
      let rest = decode_items vs in then_ok (decode_collector v) λ l. then_ok rest λ ls. ok (l ∷ ls)

  decode_list : Json → Result (List LogCollector)
  unfolding decode_items
  decode_list (array vs) = decode_items vs
  decode_list null = ok []
  decode_list _ = err type_error

  unfoldable pub decode_collectors : Response → Result (List LogCollector)
  unfolding decode_list then_ok
  decode_collectors resp = elim (then_ok resp.value decode_list) [
    | err e ↦ err (wrap "failed to decode response" e)
    | ok ls ↦ ok ls
  ]

unfoldable pub collectors_url : Client → String → String → String
unfolding cluster_path
collectors_url c cluster_type cluster =
    c.base_url <> "/api/v1/logcollectors/" <> cluster_path c cluster_type cluster

module _ {W O : Type 0} (std : Std) (env : Env W O) (c : Client) where
  unfoldable pub get_log_collectors : String → String → M W O (Result (List LogCollector))
  unfolding perform expect_status then_ok decode_collectors
  get_log_collectors cluster_type cluster = do
    r ←
        perform std env c "GET" (collectors_url c cluster_type cluster) none
          "failed to get log collectors"
    pure (then_ok (then_ok r (expect_status (200 ∷ []))) (decode_collectors std))

  unfoldable pub put_log_collectors :
      String → String → Option (List LogCollector) → M W O (Result Response)
  unfolding exchange expect_status then_ok
  put_log_collectors cluster_type cluster collectors =
      let url = collectors_url c cluster_type cluster in
      do
        r ←
            exchange std env url (form_request c "PUT" url "addlogs" (collectors_json collectors))
              "failed to put log collectors"
        pure (then_ok r (expect_status (200 ∷ 201 ∷ 204 ∷ [])))
