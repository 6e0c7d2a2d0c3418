-- ===== src/Backup/Sync.antt =====
-- What a sync of a backup sends and records.
use axonops_operator.Prelude.{
  ℕ, String, ◌≡◌, ◌≢◌, refl, Bool, true, false, not, some, ◌∷◌, [], eq_iff, arith, ◌∙◌, sym,
}
use axonops_operator.Errors.{Result, ok, err, retryable}
use axonops_operator.Json.{array, texts}
use axonops_operator.K8s.{Key, K8s}
use axonops_operator.Http.{Request, Response, Url, Std, Env, Run}
use axonops_operator.Http.Trace.{requests, status_updates}
use axonops_operator.Client.{Client, request}
use axonops_operator.Client.Backup.{
  BackupPayload, backup_json, scheduled_snapshots_url, snapshot_url, create_scheduled_snapshot,
  delete_scheduled_snapshot,
}
use axonops_operator.Backup.{Backup, synced_backup, is_backup_synced, with_remote, RemoteConfig}
use axonops_operator.Backup.Remote.{
  build_remote_config, build_s3_remote_config, build_sftp_remote_config, build_azure_remote_config,
  required, resolve_s3_credentials, resolve_sftp_credentials, resolve_azure_credentials,
  credentials_secret,
}
use axonops_operator.Backup.Steps.{
  build_backup_payload, build_and_replace, create, replace, finish, sync, backup_id,
}

abbrev pub list_url : Client → Backup → String
list_url c b = scheduled_snapshots_url c b.spec.cluster_type b.spec.cluster_name

abbrev pub create_url : Client → Backup → String
create_url c b = snapshot_url c b.spec.cluster_type b.spec.cluster_name

abbrev pub create_request : Client → Backup → BackupPayload → Request
create_request c b p = request c "POST" (create_url c b) (some (backup_json p))

abbrev pub delete_request : Client → Backup → Request
delete_request c b =
    request c "DELETE" (list_url c b) (some (array (texts (b.status.synced_backup_id ∷ []))))

-- Whether the sync goes on after the deletion: all but an error that is worth a retry.
abbrev pub goes_on : Result Response → Bool
goes_on (ok _) = true
goes_on (err e) = not (retryable e)

module _ {W : Type 0} (std : Std) (env : Env W Backup) where
  -- The configuration of the remote storage is read, and nothing written or sent.
  calls-build_remote_config :
      (namespace : String) (remote : RemoteConfig) (r : Run W Backup)
      → (build_remote_config std env namespace remote r).1.calls ≡ r.calls
  unfolding build_remote_config build_s3_remote_config build_sftp_remote_config
      build_azure_remote_config required resolve_s3_credentials resolve_sftp_credentials
      resolve_azure_credentials credentials_secret
  calls-build_remote_config namespace remote r = ground arith

  calls-backup_id : (b : Backup) (r : Run W Backup) → (backup_id std env b r).1.calls ≡ r.calls
  unfolding backup_id
  calls-backup_id b r = ground arith

  pub calls-build_backup_payload :
      (b : Backup) (r : Run W Backup) → (build_backup_payload std env b r).1.calls ≡ r.calls
  unfolding build_backup_payload backup_id
  calls-build_backup_payload b r =
      ground (arith, calls-build_remote_config b.metadata.namespace, calls-backup_id b r)

  build_backup_payload_id :
      (b : Backup) (r r' : Run W Backup) (p : BackupPayload)
      → build_backup_payload std env b r ≡ (ok p, r')
      → b.status.synced_backup_id ≢ ""
      → p.id ≡ b.status.synced_backup_id
  unfolding build_backup_payload backup_id with_remote
  build_backup_payload_id b r r' p h given = ground (arith, eq_iff b.status.synced_backup_id "")

  posted :
      (b : Backup) (c : Client) (p : BackupPayload) (r : Run W Backup) {u : Url}
      → std.parse_url (create_url c b) ≡ ok u
      → p.id ≢ ""
      → (requests
            (create_scheduled_snapshot std env c b.spec.cluster_type b.spec.cluster_name p
              r).1.calls
          ≡ create_request c b p ∷ requests r.calls)
        × (status_updates
              (create_scheduled_snapshot std env c b.spec.cluster_type b.spec.cluster_name p
                r).1.calls
            ≡ status_updates r.calls)
  unfolding create_scheduled_snapshot
  posted b c p r url given = (ground (arith, eq_iff p.id ""), ground (arith, eq_iff p.id ""))

  deleted :
      (b : Backup) (c : Client) (r : Run W Backup) {u : Url}
      → std.parse_url (list_url c b) ≡ ok u
      → (requests
            (delete_scheduled_snapshot std env c b.spec.cluster_type b.spec.cluster_name
              b.status.synced_backup_id r).1.calls
          ≡ delete_request c b ∷ requests r.calls)
        × (status_updates
              (delete_scheduled_snapshot std env c b.spec.cluster_type b.spec.cluster_name
                b.status.synced_backup_id r).1.calls
            ≡ status_updates r.calls)
  unfolding delete_scheduled_snapshot
  deleted b c r url = (ground arith, ground arith)

module _ {W : Type 0} (k : K8s) (std : Std) (env : Env W Backup) where
  finish-writes :
      (key : Key) (n : ℕ) (id : String) (r : Run W Backup) {t : Backup}
      → (env.get key r.world).0 ≡ ok t
      → (status_updates (finish k std env key n id r).1.calls
          ≡ synced_backup k id n (env.now (env.get key r.world).1).0 t ∷ status_updates r.calls)
        × (requests (finish k std env key n id r).1.calls ≡ requests r.calls)
  unfolding finish
  finish-writes key n id r h = (ground arith, ground arith)

  -- What `replace` does where the old snapshot is gone and the new one is taken.
  replaced :
      (key : Key) (b : Backup) (c : Client) (p : BackupPayload) (r s q : Run W Backup)
      (d : Result Response) (resp : Response)
      → b.status.synced_backup_id ≢ ""
      → delete_scheduled_snapshot std env c b.spec.cluster_type b.spec.cluster_name
          b.status.synced_backup_id r
        ≡ (d, s)
      → goes_on d ≡ true
      → create_scheduled_snapshot std env c b.spec.cluster_type b.spec.cluster_name p s
        ≡ (ok resp, q)
      → replace k std env key b c p r ≡ finish k std env key b.metadata.generation p.id q
  unfolding replace create
  replaced key b c p r s q (ok _) resp given gone on made =
      ground (arith, eq_iff b.status.synced_backup_id "")
  replaced key b c p r s q (err e) resp given gone on made =
      ground (arith, eq_iff b.status.synced_backup_id "")

  -- A changed backup is replaced under the id that it has: the deletion of the old snapshot, then the
  -- creation with the payload that was built, and a status with the same id and the generation of
  -- the resource. A deletion that fails for good does not stop it.
  pub sync_replaces :
      (key : Key) (b : Backup) (c : Client) (p : BackupPayload) (r r' s q : Run W Backup)
      (d : Result Response) (resp : Response) {t : Backup} {u v : Url}
      → is_backup_synced k b ≡ false
      → b.status.synced_backup_id ≢ ""
      → std.parse_url (list_url c b) ≡ ok u
      → std.parse_url (create_url c b) ≡ ok v
      → build_backup_payload std env b r ≡ (ok p, r')
      → delete_scheduled_snapshot std env c b.spec.cluster_type b.spec.cluster_name
          b.status.synced_backup_id r'
        ≡ (d, s)
      → goes_on d ≡ true
      → create_scheduled_snapshot std env c b.spec.cluster_type b.spec.cluster_name p s
        ≡ (ok resp, q)
      → (env.get key q.world).0 ≡ ok t
      → (o : Backup) × (requests (sync k std env key b c r).1.calls
          ≡ create_request c b p ∷ delete_request c b ∷ requests r.calls)
        × (status_updates (sync k std env key b c r).1.calls ≡ o ∷ status_updates r.calls)
        × (p.id ≡ b.status.synced_backup_id)
        × (o.status.synced_backup_id ≡ b.status.synced_backup_id)
        × (o.status.observed_generation ≡ b.metadata.generation)
        × (o.spec ≡ t.spec)
  unfolding sync build_and_replace
  sync_replaces key b c p r r' s q d resp {t} old given list made_at built gone on made found =
      let n = b.metadata.generation in
      let time = (env.now (env.get key q.world).1).0 in
      let same = build_backup_payload_id std env b r r' p built given in
      let quiet = calls-build_backup_payload std env b r in
      let (cut, cut_silent) = deleted std env b c r' list in
      let (put, put_silent) = posted std env b c p s made_at (λ e. given (sym same ∙ e)) in
      let (written, sent) = finish-writes key n p.id q found in
      let steps = replaced key b c p r' s q d resp given gone on made in
      (
        synced_backup k p.id n time t,
        ground (arith, old, built, steps, sent, put, cut, quiet, made, gone),
        ground (arith, old, built, steps, written, put_silent, cut_silent, quiet, made, gone),
        same,
        unfold synced_backup in same,
        unfold synced_backup in refl,
        unfold synced_backup in refl,
      )
