-- ===== src/Backup/Remote.antt =====
-- The remote storage of a backup, in internal/controller/backups/axonopsbackup_controller.go: the
-- credentials, and the configuration in the style of rclone. A map of the code is a list of entries.
pub mod Lines
pub mod Reading
use axonops_operator.Prelude.{
  String, Bool, Option, none, some, List, [], ◌∷◌, ◌++◌, ◌<>◌, ◌==◌, ◌&&◌, not, or_default, join,
  map, if◌then◌else◌,
}
use axonops_operator.Errors.{Result, ok, err, foreign, wrap}
use axonops_operator.Http.{Secret, Std, Env, M, pure, get_secret, ◌>>=◌}
use axonops_operator.Connection.{secret_data}
use axonops_operator.ConfigHash.{sort_keys}
use axonops_operator.Backup.{Backup, S3Config, SftpConfig, AzureConfig, RemoteConfig}

-- What a `map[string]string` holds for a key.
abbrev pub value_of : List (String × String) → String → String
value_of config key = or_default (secret_data key config) ""

-- The loop over the sorted keys.
unfoldable pub config_lines : (String → String) → List String → List String
config_lines value [] = []
config_lines value (k ∷ ks) =
    let rest = config_lines value ks in
    if value k == "" then rest else (k <> " = " <> value k) ∷ rest

unfoldable pub format_remote_config : List (String × String) → String
unfolding secret_data sort_keys config_lines join
format_remote_config config =
    join "\n" (config_lines (value_of config) (sort_keys (map (λ e. e.0) config)))

unfoldable pub bool_to_string : Bool → String
bool_to_string b = if b then "true" else "false"

unfoldable pub s3_entries : S3Config → String → String → List (String × String)
unfolding bool_to_string
s3_entries s access_key_id secret_access_key =
    (("type", "s3")
      ∷ ("provider", "AWS")
      ∷ ("region", s.region)
      ∷ ("acl", s.acl)
      ∷ ("server_side_encryption", s.encryption)
      ∷ ("storage_class", s.storage_class)
      ∷ ("no_check_bucket", bool_to_string s.no_check_bucket)
      ∷ ("disable_checksum", bool_to_string s.disable_checksum)
      ∷ [])
    ++ (if not (access_key_id == "") && not (secret_access_key == "")
        then ("env_auth", "false")
          ∷ ("access_key_id", access_key_id)
          ∷ ("secret_access_key", secret_access_key)
          ∷ []
        else ("env_auth", "true") ∷ [])

unfoldable pub sftp_entries : SftpConfig → String → String → String → List (String × String)
sftp_entries s user pass key_file =
    ("type", "sftp")
    ∷ ("host", s.host)
    ∷ ("user", user)
    ∷ ("pass", pass)
    ∷ ("key_file", key_file)
    ∷ []

-- An entry that is there if its value is not empty.
abbrev entry : String → String → List (String × String)
entry key value = if value == "" then [] else (key, value) ∷ []

unfoldable pub azure_entries : AzureConfig → String → List (String × String)
azure_entries a key =
    (("type", "azureblob") ∷ ("account", a.account) ∷ [])
    ++ entry "key" key
    ++ entry "endpoint" a.endpoint
    ++ (if a.use_msi
        then (("use_msi", "true") ∷ [])
          ++ entry "msi_object_id" a.msi_object_id
          ++ entry "msi_client_id" a.msi_client_id
          ++ entry "msi_mi_res_id" a.msi_resource_id
        else [])

module _ {W : Type 0} (std : Std) (env : Env W Backup) where
  -- The secret of credentials in the namespace of the resource.
  unfoldable pub credentials_secret : String → String → String → M W Backup (Result Secret)
  unfolding get_secret
  credentials_secret what namespace name = do
    got ← get_secret env (record { namespace = namespace; name = name })
    pure (elim got [
      | err e ↦ err (wrap ("failed to get " <> what <> " credentials secret " <> std.quote name) e)
      | ok s ↦ ok s
    ])

  -- A reference goes before what the specification holds itself; neither leaves it to IAM.
  unfoldable pub resolve_s3_credentials : String → S3Config → M W Backup (Result (String × String))
  unfolding credentials_secret secret_data
  resolve_s3_credentials namespace s =
      if s.credentials_ref == ""
      then pure (
          ok (
            if not (s.access_key_id == "") && not (s.secret_access_key == "")
            then (s.access_key_id, s.secret_access_key)
            else ("", "")))
      else do
        got ← credentials_secret "S3" namespace s.credentials_ref
        pure (elim got [
          | err e ↦ err e
          | ok m ↦ ok (value_of m "access_key_id", value_of m "secret_access_key")
        ])

  unfoldable pub resolve_sftp_credentials :
      String → SftpConfig → M W Backup (Result (String × String × String))
  unfolding credentials_secret secret_data
  resolve_sftp_credentials namespace s =
      if s.credentials_ref == "" then pure (ok (s.user, s.password, s.key_file)) else do
        got ← credentials_secret "SFTP" namespace s.credentials_ref
        pure (elim got [
          | err e ↦ err e
          | ok m ↦ ok (value_of m "ssh_user", value_of m "ssh_pass", value_of m "key_file")
        ])

  unfoldable pub resolve_azure_credentials : String → AzureConfig → M W Backup (Result String)
  unfolding credentials_secret secret_data
  resolve_azure_credentials namespace a = if a.credentials_ref == "" then pure (ok a.key) else do
    got ← credentials_secret "Azure" namespace a.credentials_ref
    pure (elim got [ err e ↦ err e | ok m ↦ ok (value_of m "azure_key") ])

  unfoldable pub required : String → M W Backup (Result String)
  required type = pure (err (foreign (type <> " config is required when remote type is " <> type)))

  unfoldable pub build_s3_remote_config : String → Option S3Config → M W Backup (Result String)
  unfolding required resolve_s3_credentials s3_entries format_remote_config
  build_s3_remote_config namespace none = required "s3"
  build_s3_remote_config namespace (some s) = do
    r ← resolve_s3_credentials namespace s
    pure (elim r [ err e ↦ err e | ok (i, key) ↦ ok (format_remote_config (s3_entries s i key)) ])

  unfoldable pub build_sftp_remote_config : String → Option SftpConfig → M W Backup (Result String)
  unfolding required resolve_sftp_credentials sftp_entries format_remote_config
  build_sftp_remote_config namespace none = required "sftp"
  build_sftp_remote_config namespace (some s) = do
    r ← resolve_sftp_credentials namespace s
    pure (elim r [
      | err e ↦ err e
      | ok (user, pass, key_file) ↦ ok (format_remote_config (sftp_entries s user pass key_file))
    ])

  unfoldable pub build_azure_remote_config :
      String → Option AzureConfig → M W Backup (Result String)
  unfolding required resolve_azure_credentials azure_entries format_remote_config
  build_azure_remote_config namespace none = required "azure"
  build_azure_remote_config namespace (some a) = do
    r ← resolve_azure_credentials namespace a
    pure (elim r [ err e ↦ err e | ok key ↦ ok (format_remote_config (azure_entries a key)) ])

  -- `buildRemoteConfig` of a remote that is there.
  unfoldable pub build_remote_config : String → RemoteConfig → M W Backup (Result String)
  unfolding build_s3_remote_config build_sftp_remote_config build_azure_remote_config
  build_remote_config namespace r =
      if r.type == "s3"
      then build_s3_remote_config namespace r.s3
      else if r.type == "sftp"
      then build_sftp_remote_config namespace r.sftp
      else if r.type == "azure"
      then build_azure_remote_config namespace r.azure
      else pure (err (foreign ("unsupported remote type: " <> r.type)))
