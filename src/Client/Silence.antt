-- ===== src/Client/Silence.antt =====
-- The silence window methods of internal/axonops/client.go and their payloads.
use axonops_operator.Prelude.{
  String, Bool, Option, none, some, List, [], ◌∷◌, ◌<>◌, ◌==◌, ◌&&◌, if◌then◌else◌,
}
use axonops_operator.Errors.{wrap, Result, ok, err}
use axonops_operator.Json.{
  Json, Items, Fields, cons, nil, null, array, object, end, field, text, bool, text_slice,
  fields_of, text_field, field_fits, is_text, is_bool, is_text_slice, type_error,
}
use axonops_operator.Http.{Response, Std, Env, M, pure, new_uuid, ◌>>=◌}
use axonops_operator.Client.{Client, path_escape, perform, expect_status, then_ok}
use axonops_operator.Client.Repair.{cluster_path}

-- A `none` among the lists is the nil slice.
pub record SilenceWindow : Type 0 where
  pub id : String
  pub active : Bool
  pub cron_expr : String
  pub is_recurring : Bool
  pub duration : String
  pub dcs : Option (List String)

unfoldable pub silence_json : SilenceWindow → Json
unfolding text_slice
silence_json s = object (
    field "ID" (text s.id) (
      field "Active" (bool s.active) (
        field "CronExpr" (text s.cron_expr) (
          field "IsRecurring" (bool s.is_recurring)
            (field "Duration" (text s.duration) (field "DCs" (text_slice s.dcs) end))))))

-- The fields of a window that decoding checks beside the id.
window_fits : Fields → Bool
unfolding field_fits is_text is_bool is_text_slice
window_fits fs =
    field_fits "Active" is_bool fs
    && field_fits "CronExpr" is_text fs
    && field_fits "IsRecurring" is_bool fs
    && field_fits "Duration" is_text fs
    && field_fits "DCs" is_text_slice fs

decode_id : Json → Result String
unfolding window_fits fields_of text_field then_ok
decode_id v =
    then_ok (fields_of v)
      λ fs. if window_fits fs then text_field "ID" fs (ok "") else err type_error

decode_ids : Items → Result (List String)
unfolding decode_id then_ok
decode_ids nil = ok []
decode_ids (cons v vs) =
    let rest = decode_ids vs in then_ok (decode_id v) λ i. then_ok rest λ is'. ok (i ∷ is')

decode_windows : Json → Result (List String)
unfolding decode_ids
decode_windows (array vs) = decode_ids vs
decode_windows null = ok []
decode_windows _ = err type_error

unfoldable pub decode_silences : Response → Result (List String)
unfolding decode_windows then_ok
decode_silences resp = elim (then_ok resp.value decode_windows) [
  | err e ↦ err (wrap "failed to decode response" e)
  | ok ids ↦ ok ids
]

unfoldable pub silences_url : Client → String → String → String
unfolding cluster_path
silences_url c cluster_type cluster =
    c.base_url <> "/api/v1/silenceWindow/" <> cluster_path c cluster_type cluster

module _ {W O : Type 0} (std : Std) (env : Env W O) (c : Client) where
  -- The ids of the windows.
  unfoldable pub get_silence_windows : String → String → M W O (Result (List String))
  unfolding perform expect_status then_ok decode_silences
  get_silence_windows cluster_type cluster = do
    r ←
        perform std env c "GET" (silences_url c cluster_type cluster) none
          "failed to get silence windows"
    pure (then_ok (then_ok r (expect_status (200 ∷ []))) decode_silences)

  -- A window that has an id keeps it.
  unfoldable pub with_id : SilenceWindow → M W O SilenceWindow
  unfolding new_uuid
  with_id s = if s.id == "" then (do id ← new_uuid env; pure (record s { id = id })) else pure s

  unfoldable pub create_silence_window : String → String → SilenceWindow → M W O (Result Response)
  unfolding with_id perform expect_status then_ok
  create_silence_window cluster_type cluster silence = do
    s ← with_id silence
    r ←
        perform std env c "POST" (silences_url c cluster_type cluster) (some (silence_json s))
          "failed to create silence window"
    pure (then_ok r (expect_status (200 ∷ 201 ∷ 204 ∷ [])))

  unfoldable pub delete_silence_window : String → String → String → M W O (Result Response)
  unfolding perform expect_status then_ok
  delete_silence_window cluster_type cluster id = do
    r ←
        perform std env c "DELETE" (silences_url c cluster_type cluster <> "/" <> path_escape id)
          none "failed to delete silence window"
    pure (then_ok r (expect_status (200 ∷ 204 ∷ 404 ∷ [])))
