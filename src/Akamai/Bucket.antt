-- ===== src/Akamai/Bucket.antt =====
-- internal/controller/akamaiobjstr/obj_storage.go: ReconcileBucket: the bucket is found or created,
-- its access key made, its ownership claimed; a key for a bucket of somebody else is deleted.
-- Child Keeping: what it leaves alone.
pub mod Keeping
use Prim.Native.String.{◌++◌}
use forge_operator.Prelude.{
  String, none, some, [], ◌∷◌, Exec, pure, fail, try, ◌>>=◌, ◌>>◌, mapping_error, ok, err, Result,
  new_error, wrap, ◌==◌, if◌then◌else◌, concat,
}
use forge_operator.S3.Session.{Session, on_world}
use forge_operator.Akamai.Session.{
  LinodeBucket, AkamaiEnv, AkamaiManager, AkamaiResult, AccessKeyResult, s3_client_for,
}
use forge_operator.Akamai.Ownership.{claim_marker}
use forge_operator.Akamai.Keys.{ensure_access_key, delete_application_access_key}

module _ {W : Type 0} (env : AkamaiEnv W) (m : AkamaiManager W) where
  unfoldable pub validate_storage_spec : Exec (Session W) (Unit {0})
  validate_storage_spec =
      if m.bucket == ""
      then fail (new_error "bucket name is empty")
      else if m.region == ""
      then fail (new_error "region/cluster is empty")
      else pure tt

  unfoldable pub record_akamai_created : Exec (Session W) (Unit {0})
  record_akamai_created = elim m.record_created [
    | none ↦ fail (new_error "recordCreated callback not configured")
    | some run ↦
        mapping_error
          (λ e. wrap (concat ("failed to record bucket creation for " ∷ m.bucket ∷ ": " ∷ [])) e "")
          run
  ]

  abbrev pub found_or_created : Result LinodeBucket → Exec (Session W) LinodeBucket
  found_or_created (ok existing) = pure existing
  found_or_created (err e) =
      if e.is_linode_not_found
      then mapping_error (λ d. wrap "failed to create bucket: " d "")
          (on_world (env.akamai.create_object_storage_bucket m.region m.bucket))
        >>= (λ bucket. record_akamai_created >> pure bucket)
      else fail (wrap "failed to query bucket: " e "")

  unfoldable pub ensure_linode_bucket : Exec (Session W) LinodeBucket
  ensure_linode_bucket =
      try (on_world (env.akamai.get_object_storage_bucket m.region m.bucket)) >>= found_or_created

  abbrev pub resolve_endpoint : LinodeBucket → String
  resolve_endpoint bucket =
      if m.storage.endpoint == ""
      then (if bucket.hostname == "" then m.region ++ ".linodeobjects.com" else bucket.hostname)
      else m.storage.endpoint

  -- the deferred function and the return: the key of a bucket that is not owned is deleted, and
  -- whether that succeeds is only logged
  abbrev pub settle : {A : Type 0} → A → Result (Unit {0}) → Exec (Session W) A
  settle result (ok a) = pure result
  settle result (err e) =
      if e.is_akamai_not_owned then try (delete_application_access_key env m) >> fail e else fail e

  abbrev pub with_access : LinodeBucket → AccessKeyResult → Exec (Session W) AkamaiResult
  with_access bucket key =
      try (claim_marker env m (s3_client_for env m (resolve_endpoint bucket) key))
      >>= settle (record {
        access_key = key.access_key;
        secret_key = key.secret_key;
        endpoint = resolve_endpoint bucket;
      })

  unfoldable pub reconcile_akamai_bucket : Exec (Session W) AkamaiResult
  reconcile_akamai_bucket =
      mapping_error (λ e. wrap "invalid storage spec: " e "") validate_storage_spec
      >> (mapping_error (λ e. wrap "failed to ensure bucket exists: " e "") ensure_linode_bucket
          >>= (λ bucket.
              mapping_error (λ e. wrap "failed to ensure access key: " e "")
                (ensure_access_key env m)
              >>= with_access bucket))
