-- ===== src/Client/Healthcheck/Decode.antt =====
-- What encoding/json reads of the payload of the healthcheck methods.
use axonops_operator.Prelude.{
  String, false, Option, none, some, List, [], ◌∷◌, equal_fold, if◌then◌else◌,
}
use axonops_operator.Errors.{wrap, Result, ok, err}
use axonops_operator.Json.{
  Json, Items, Fields, cons, nil, null, array, end, field, fields_of, text_field, bool_field,
  struct_field, type_error,
}
use axonops_operator.Http.{Response, pos}
use axonops_operator.Client.{then_ok}
use axonops_operator.Client.Adaptive.{int_field, slice_field}
use axonops_operator.Client.Healthcheck.Records.{
  HealthcheckIntegrations, HealthcheckHttp, HealthcheckTcp, HealthcheckShell, Healthchecks,
}

unfoldable pub decode_healthcheck_integrations : Fields → Result HealthcheckIntegrations
unfolding text_field slice_field bool_field then_ok
decode_healthcheck_integrations fs = then_ok (text_field "Type" fs (ok "")) λ type.
    then_ok (slice_field "Routing" fs (ok none)) λ routing.
      then_ok (bool_field "OverrideInfo" fs (ok false)) λ info.
        then_ok (bool_field "OverrideWarning" fs (ok false)) λ warning.
          then_ok (bool_field "OverrideError" fs (ok false)) λ e. ok (record {
            type = type;
            routing = routing;
            override_info = info;
            override_warning = warning;
            override_error = e;
          })

integrations_field : Fields → Result HealthcheckIntegrations
unfolding struct_field decode_healthcheck_integrations then_ok
integrations_field fs =
    then_ok (struct_field "integrations" fs (ok end)) decode_healthcheck_integrations

unfoldable pub decode_http : Json → Result HealthcheckHttp
unfolding fields_of text_field bool_field int_field slice_field integrations_field then_ok
decode_http v = then_ok (fields_of v) λ fs. then_ok (text_field "id" fs (ok "")) λ id.
    then_ok (text_field "name" fs (ok "")) λ name. then_ok (text_field "http" fs (ok "")) λ http.
      then_ok (text_field "method" fs (ok "")) λ method.
        then_ok (slice_field "headers" fs (ok none)) λ headers.
          then_ok (text_field "body" fs (ok "")) λ body.
            then_ok (int_field 63 "expectedStatus" fs (ok (pos 0))) λ status.
              then_ok (text_field "interval" fs (ok "")) λ interval.
                then_ok (text_field "timeout" fs (ok "")) λ timeout.
                  then_ok (bool_field "readonly" fs (ok false)) λ readonly.
                    then_ok (bool_field "tls_skip_verify" fs (ok false)) λ skip.
                      then_ok (slice_field "supportedAgentTypes" fs (ok none)) λ agents.
                        then_ok (integrations_field fs) λ integrations. ok (record {
                          id = id;
                          name = name;
                          http = http;
                          method = method;
                          headers = headers;
                          body = body;
                          expected_status = status;
                          interval = interval;
                          timeout = timeout;
                          readonly = readonly;
                          tls_skip_verify = skip;
                          supported_agent_types = agents;
                          integrations = integrations;
                        })

unfoldable pub decode_tcp : Json → Result HealthcheckTcp
unfolding fields_of text_field bool_field slice_field integrations_field then_ok
decode_tcp v = then_ok (fields_of v) λ fs. then_ok (text_field "id" fs (ok "")) λ id.
    then_ok (text_field "name" fs (ok "")) λ name. then_ok (text_field "tcp" fs (ok "")) λ tcp.
      then_ok (text_field "interval" fs (ok "")) λ interval.
        then_ok (text_field "timeout" fs (ok "")) λ timeout.
          then_ok (bool_field "readonly" fs (ok false)) λ readonly.
            then_ok (slice_field "supportedAgentTypes" fs (ok none)) λ agents.
              then_ok (integrations_field fs) λ integrations. ok (record {
                id = id;
                name = name;
                tcp = tcp;
                interval = interval;
                timeout = timeout;
                readonly = readonly;
                supported_agent_types = agents;
                integrations = integrations;
              })

unfoldable pub decode_shell : Json → Result HealthcheckShell
unfolding fields_of text_field bool_field integrations_field then_ok
decode_shell v = then_ok (fields_of v) λ fs. then_ok (text_field "id" fs (ok "")) λ id.
    then_ok (text_field "name" fs (ok "")) λ name.
      then_ok (text_field "script" fs (ok "")) λ script.
        then_ok (text_field "shell" fs (ok "")) λ shell.
          then_ok (text_field "interval" fs (ok "")) λ interval.
            then_ok (text_field "timeout" fs (ok "")) λ timeout.
              then_ok (bool_field "readonly" fs (ok false)) λ readonly.
                then_ok (integrations_field fs) λ integrations. ok (record {
                  id = id;
                  name = name;
                  script = script;
                  shell = shell;
                  interval = interval;
                  timeout = timeout;
                  readonly = readonly;
                  integrations = integrations;
                })

module _ {A : Type 0} (decode : Json → Result A) where
  unfoldable pub decode_each : Items → Result (List A)
  unfolding then_ok
  decode_each nil = ok []
  decode_each (cons v vs) =
      let rest = decode_each vs in then_ok (decode v) λ a. then_ok rest λ as'. ok (a ∷ as')

  unfoldable pub set_list : Json → Result (Option (List A)) → Result (Option (List A))
  unfolding decode_each then_ok
  set_list (array vs) (ok _) = then_ok (decode_each vs) λ as'. ok (some as')
  set_list null (ok _) = ok none
  set_list _ _ = err type_error

  unfoldable pub list_field : String → Fields → Result (Option (List A)) → Result (Option (List A))
  unfolding set_list equal_fold
  list_field name end r = r
  list_field name (field k v fs) r =
      list_field name fs (if equal_fold k name then set_list v r else r)

unfoldable pub decode_healthchecks_fields : Fields → Result Healthchecks
unfolding list_field decode_http decode_tcp decode_shell then_ok
decode_healthchecks_fields fs =
    then_ok (list_field decode_shell "shellchecks" fs (ok none)) λ shell.
      then_ok (list_field decode_http "httpchecks" fs (ok none)) λ http.
        then_ok (list_field decode_tcp "tcpchecks" fs (ok none))
          λ tcp. ok (record { shell_checks = shell; http_checks = http; tcp_checks = tcp })

unfoldable pub decode_healthchecks : Response → Result Healthchecks
unfolding fields_of decode_healthchecks_fields then_ok
decode_healthchecks resp =
    elim (then_ok (then_ok resp.value fields_of) decode_healthchecks_fields) [
      | err e ↦ err (wrap "failed to decode response" e)
      | ok h ↦ ok h
    ]
