-- ===== src/Akamai/Cleanup.antt =====
-- internal/controller/akamaiobjstr/cleanup.go: DeleteBucket, which confirms the ownership, empties
-- the bucket and deletes it with its access key, and CleanupCredentialsOnly. Child
-- Guard: what becomes of a bucket whose ownership is in doubt.
pub mod Guard
use forge_operator.Prelude.{
  String, not, ◌&&◌, Bool, Option, none, some, List, [], ◌∷◌, length, map, Exec, pure, fail, try,
  ◌>>=◌, ◌>>◌, mapping_error, ok, err, Result, Error, new_error, wrap, ◌==◌, if◌then◌else◌, concat,
  decimal,
}
use forge_operator.S3.Session.{ObjectIdentifier, Paginator, finished, more, Session, on_world}
use forge_operator.S3.Ownership.{adopt_bucket_requested}
use forge_operator.Akamai.Session.{
  LinodeBucket, ObjectApi, AkamaiEnv, AkamaiManager, AccessKeyResult, s3_client_for,
}
use forge_operator.Akamai.Ownership.{
  owner_marker_key, akamai_not_owned, parse_owner_marker, was_created_by_us,
}
use forge_operator.Akamai.Keys.{ensure_access_key, delete_application_access_key}
use forge_operator.Akamai.Bucket.{resolve_endpoint, settle}

abbrev identifier : String → ObjectIdentifier
identifier key = record { key = key; version_id = "" }

module _ {W : Type 0} (env : AkamaiEnv W) (m : AkamaiManager W) where
  abbrev about : String → Error → Error
  about before e = wrap (concat (before ∷ " " ∷ m.bucket ∷ ": " ∷ [])) e ""

  abbrev not_owned : String → Error
  not_owned why = wrap "" akamai_not_owned why

  -- the per-object errors in the reply of DeleteObjects
  abbrev pub check_emptied : List String → Exec (Session W) (Unit {0})
  check_emptied [] = pure tt
  check_emptied (t ∷ ts) = fail (
      new_error (
        concat (
          "failed to delete "
          ∷ decimal (length (t ∷ ts))
          ∷ " objects in bucket "
          ∷ m.bucket
          ∷ " (first error: "
          ∷ t
          ∷ ")"
          ∷ [])))

  module _ (objects : ObjectApi W) where
    -- a page without objects is passed over
    abbrev pub empty_page : List String → Exec (Session W) (Unit {0})
    empty_page [] = pure tt
    empty_page (k ∷ ks) =
        mapping_error (about "failed batch delete call in bucket")
          (on_world (objects.delete_objects m.bucket (map identifier (k ∷ ks))))
        >>= check_emptied

    abbrev after_listing :
        Result (List String) → Exec (Session W) (Unit {0}) → Exec (Session W) (Unit {0})
    after_listing (err e) next =
        fail (wrap (concat ("failed to list objects in bucket '" ∷ m.bucket ∷ "': " ∷ [])) e "")
    after_listing (ok keys) next = empty_page keys >> next

    unfoldable pub empty_pages : Paginator (List String) W → Exec (Session W) (Unit {0})
    empty_pages finished s = (ok tt, s)
    empty_pages (more reply step rest) s =
        after_listing (reply s.world) (empty_pages (rest s.world))
          (record s { world = step s.world })

    unfoldable pub empty_bucket : Exec (Session W) (Unit {0})
    empty_bucket = empty_pages (objects.list_objects m.bucket)

    abbrev pub confirm_body : Result String → Exec (Session W) (Unit {0})
    confirm_body (err e) s = (err (wrap "failed to read ownership marker: " e ""), s)
    confirm_body (ok body) s =
        if (parse_owner_marker env body).0.uid == s.app.uid
        then (ok tt, s)
        else (err (not_owned ": marker names a different Application"), s)

    -- the checks before emptyBucket
    unfoldable pub confirm_from : Result (Result String) → Exec (Session W) (Unit {0})
    confirm_from (err e) s =
        if e.as_no_such_key
        then (if not (was_created_by_us env m s) && not (adopt_bucket_requested s.app)
            then (
              err (
                  not_owned
                    ": marker missing and this Application has no durable record of creating or adopting it"),
              s,
            )
            else (ok tt, s))
        else (
          err (
              not_owned
                (concat (": could not verify ownership marker before deletion: " ∷ e.text ∷ []))),
          s,
        )
    confirm_from (ok body) s = confirm_body body s

    unfoldable pub confirm_ownership : Exec (Session W) (Unit {0})
    confirm_ownership =
        try (on_world (objects.get_object m.bucket owner_marker_key)) >>= confirm_from

    unfoldable pub confirm_and_empty : Exec (Session W) (Unit {0})
    confirm_and_empty = confirm_ownership >> empty_bucket

  abbrev pub verify_found : Result LinodeBucket → Exec (Session W) (Unit {0})
  verify_found (err e) =
      if e.is_linode_not_found then pure tt else fail (about "failed to look up bucket" e)
  verify_found (ok bucket) =
      mapping_error (about "failed to obtain access key to verify/empty bucket")
        (ensure_access_key env m)
      >>= (λ key.
          try (confirm_and_empty (s3_client_for env m (resolve_endpoint env m bucket) key))
          >>= settle env m tt)

  unfoldable pub verify_ownership_and_empty_bucket : Exec (Session W) (Unit {0})
  verify_ownership_and_empty_bucket =
      try (on_world (env.akamai.get_object_storage_bucket m.region m.bucket)) >>= verify_found

  abbrev pub deleted : Result (Unit {0}) → Exec (Session W) (Unit {0})
  deleted (ok a) = pure tt
  deleted (err e) =
      if e.is_linode_not_found
      then pure tt
      else fail (wrap (concat ("failed to delete bucket '" ∷ m.bucket ∷ "': " ∷ [])) e "")

  unfoldable pub delete_storage_bucket : Exec (Session W) (Unit {0})
  delete_storage_bucket =
      try (on_world (env.akamai.delete_object_storage_bucket m.region m.bucket)) >>= deleted

  abbrev pub error_of : Result (Unit {0}) → Option Error
  error_of (ok a) = none
  error_of (err e) = some e

  -- the part of DeleteBucket after the check
  abbrev pub delete_checked :
      Result (Unit {0}) × Session W → (Option Error × Result (Unit {0})) × Session W
  delete_checked (err e, s) = ((none, err (about "refusing to delete bucket" e)), s)
  delete_checked (ok a, s) =
      let (r, t) = delete_application_access_key env m s in
      let (q, u) = delete_storage_bucket t in ((error_of r, q), u)

  -- accessKeyErr and err
  unfoldable pub delete_akamai_bucket : Session W → (Option Error × Result (Unit {0})) × Session W
  delete_akamai_bucket s =
      if m.bucket == ""
      then ((none, ok tt), s)
      else delete_checked (verify_ownership_and_empty_bucket s)

  unfoldable pub cleanup_akamai_credentials_only : Exec (Session W) (Unit {0})
  cleanup_akamai_credentials_only = delete_application_access_key env m
