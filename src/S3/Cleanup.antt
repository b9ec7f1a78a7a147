-- ===== src/S3/Cleanup.antt =====
-- internal/controller/s3/cleanup.go: CleanupBucket, which deletes the role, then the bucket with
-- all it holds, and CleanupCredentialsOnly. Children: Batches (the chunks of a deletion), Objects
-- (the objects of all pages), Guard (what is deleted when), Uploads (the loop over multipart
-- uploads).
pub mod Batches
pub mod Objects
pub mod Guard
pub mod Uploads
use forge_operator.Prelude.{
  ℕ, zero, suc, ◌++◌, String, Bool, Option, none, some, List, [], ◌∷◌, length, take, drop, Exec,
  pure, fail, try, ◌>>=◌, ◌>>◌, mapping_error, ok, err, Result, Error, new_error, wrap, ltb,
  if◌then◌else◌, concat, decimal,
}
use forge_operator.S3.Session.{
  Env, Session, on_world, Manager, ObjectIdentifier, Page, Paginator, finished, more, Upload,
}
use forge_operator.S3.Ownership.{verify_ownership}
use forge_operator.S3.Role.{cleanup_app_irsa}
use forge_operator.S3.Bucket.{is_not_found_error}

abbrev pub batch_size : ℕ
batch_size = 1000

module _ {A : Type 0} where
  -- objectsToDelete[i:end] for each i: at most as many as there are elements, the fuel
  unfoldable pub batches_from : ℕ → List A → List (List A)
  batches_from zero xs = []
  batches_from (suc fuel) [] = []
  batches_from (suc fuel) (x ∷ xs) =
      take batch_size (x ∷ xs) ∷ batches_from fuel (drop batch_size (x ∷ xs))

  unfoldable pub batches : List A → List (List A)
  unfolding batches_from
  batches xs = batches_from (length xs) xs

-- the variables `failed` and `firstErr` of abortMultipartUploads
pub record Failures : Type 0 where
  pub failed : ℕ
  pub first_error : Option Error

abbrev pub no_failures : Failures
no_failures = record { failed = 0; first_error = none }

-- the test in the loop of abortMultipartUploads
abbrev pub note_failure : Failures → Result (Unit {0}) → Failures
note_failure f (ok a) = f
note_failure f (err e) = if is_not_found_error e then f else record {
  failed = suc f.failed;
  first_error = elim f.first_error [ none ↦ some e | some d ↦ some d ];
}

module _ {W : Type 0} (env : Env W) (m : Manager W) where
  -- fmt.Errorf("<before> <bucket><after>: %w", err)
  abbrev about_bucket : String → Error → Error
  about_bucket before e = wrap (concat (before ∷ " " ∷ m.bucket ∷ ": " ∷ [])) e ""

  -- the per-object errors in the reply of DeleteObjects
  abbrev pub check_deleted : List String → Exec (Session W) (Unit {0})
  check_deleted [] = pure tt
  check_deleted (t ∷ ts) = fail (
      new_error (
        concat (
          "failed to delete "
          ∷ decimal (length (t ∷ ts))
          ∷ " objects in bucket "
          ∷ m.bucket
          ∷ " (first error: "
          ∷ t
          ∷ ")"
          ∷ [])))

  unfoldable pub delete_batches : List (List ObjectIdentifier) → Exec (Session W) (Unit {0})
  delete_batches [] = pure tt
  delete_batches (b ∷ bs) =
      mapping_error (about_bucket "failed batch delete call in bucket")
        (on_world (env.s3.delete_objects m.bucket b))
      >>= (λ errors. check_deleted errors >> delete_batches bs)

  -- objectsToDelete; a page without objects has no batch
  abbrev pub delete_page : Page → Exec (Session W) (Unit {0})
  delete_page p = delete_batches (batches (p.versions ++ p.delete_markers))

  abbrev pub after_page : Result Page → Exec (Session W) (Unit {0}) → Exec (Session W) (Unit {0})
  after_page (err e) next =
      if e.as_no_such_bucket
      then pure tt
      else fail (about_bucket "failed to list object versions in bucket" e)
  after_page (ok p) next = delete_page p >> next

  unfoldable pub delete_pages : Paginator Page W → Exec (Session W) (Unit {0})
  delete_pages finished s = (ok tt, s)
  delete_pages (more reply step rest) s =
      after_page (reply s.world) (delete_pages (rest s.world)) (record s { world = step s.world })

  unfoldable pub delete_all_object_versions : Exec (Session W) (Unit {0})
  delete_all_object_versions = delete_pages (env.s3.list_object_versions m.bucket)

  unfoldable pub abort_each : Failures → List Upload → Exec (Session W) Failures
  abort_each f [] = pure f
  abort_each f (u ∷ us) =
      try (on_world (env.s3.abort_multipart_upload m.bucket u))
      >>= (λ r. abort_each (note_failure f r) us)

  abbrev failed_aborts : ℕ → Error → Error
  failed_aborts n e =
      wrap
        (concat (
          "failed to abort "
          ∷ decimal n
          ∷ " multipart upload(s) in bucket "
          ∷ m.bucket
          ∷ " (first error: "
          ∷ []))
        e ")"

  -- Whenever an abort has failed there is a first error.
  abbrev pub abort_outcome : Failures → Result (Unit {0})
  abort_outcome f =
      if ltb 0 f.failed
      then err (
          failed_aborts f.failed
            (elim f.first_error [ none ↦ new_error "%!w(<nil>)" | some e ↦ e ]))
      else ok tt

  abbrev pub abort_from : Result (List Upload) → Exec (Session W) (Unit {0})
  abort_from (err e) =
      if is_not_found_error e
      then pure tt
      else fail (about_bucket "failed to list multipart uploads in bucket" e)
  abort_from (ok us) = abort_each no_failures us >>= (λ f s. (abort_outcome f, s))

  unfoldable pub abort_multipart_uploads : Exec (Session W) (Unit {0})
  abort_multipart_uploads = do
    r ← try (on_world (env.s3.list_multipart_uploads m.bucket))
    abort_from r

  abbrev pub deleted_from : Result (Unit {0}) → Exec (Session W) (Unit {0})
  deleted_from (ok a) = pure tt
  deleted_from (err e) =
      if is_not_found_error e then pure tt else fail (about_bucket "failed to delete bucket" e)

  unfoldable pub delete_bucket : Exec (Session W) (Unit {0})
  delete_bucket = do r ← try (on_world (env.s3.delete_bucket m.bucket)); deleted_from r

  -- the part of CleanupBucket that concerns the bucket: what it returns is `err`
  unfoldable pub cleanup_contents : Exec (Session W) (Unit {0})
  cleanup_contents =
      mapping_error (about_bucket "refusing to delete bucket") (verify_ownership env m)
      >> (mapping_error (about_bucket "failed to delete objects in bucket")
            delete_all_object_versions
          >> (mapping_error (about_bucket "failed to abort multipart uploads in bucket")
                abort_multipart_uploads
              >> mapping_error (about_bucket "failed to delete bucket") delete_bucket))

  -- irsaErr and err
  abbrev pub irsa_error : Result (Unit {0}) → Option Error
  irsa_error (ok a) = none
  irsa_error (err e) = some (wrap "failed to cleanup IRSA: " e "")

  unfoldable pub cleanup_bucket : Session W → (Option Error × Result (Unit {0})) × Session W
  cleanup_bucket s =
      let (r, t) = cleanup_app_irsa env m s in
      let (q, u) = cleanup_contents t in ((irsa_error r, q), u)

  unfoldable pub cleanup_credentials_only : Exec (Session W) (Unit {0})
  cleanup_credentials_only = cleanup_app_irsa env m
