-- ===== src/S3/Cleanup/Uploads.antt =====
-- abortMultipartUploads of internal/controller/s3/cleanup.go tries every upload and forgets no
-- failure.
use forge_operator.Prelude.{
  true, List, [], ◌∷◌, ◌≡◌, ◌↔◌, refl, ok, err, is_ok, Result, arith, Bool,
}
use forge_operator.S3.Session.{Env, Session, Manager, Upload}
use forge_operator.S3.Bucket.{is_not_found_error}
use forge_operator.S3.Cleanup.{
  Failures, no_failures, abort_each, abort_outcome, abort_multipart_uploads, note_failure,
}

-- An abort that succeeded, or found no upload.
abbrev pub is_aborted : Result (Unit {0}) → Bool
is_aborted (ok a) = true
is_aborted (err e) = is_not_found_error e

note_failure_lem :
    (f : Failures) (r : Result (Unit {0}))
    → ((note_failure f r).failed ≡ 0) ↔ ((f.failed ≡ 0) × (is_aborted r ≡ true))
note_failure_lem f (ok a) = ground arith
note_failure_lem f (err e) = ground arith

module _ {W : Type 0} (env : Env W) (m : Manager W) where
  -- the session after the call for one upload
  abbrev pub after_abort : Upload → Session W → Session W
  after_abort u s = record s { world = (env.s3.abort_multipart_upload m.bucket u s.world).1 }

  -- the session after one call for each upload, whatever the replies
  abbrev pub after_aborts : List Upload → Session W → Session W
  after_aborts [] s = s
  after_aborts (u ∷ us) s = after_aborts us (after_abort u s)

  -- Each upload is aborted, in the session that the calls before it leave.
  abbrev pub AllAborted : List Upload → Session W → Type 0
  AllAborted [] s = Unit
  AllAborted (u ∷ us) s =
      (is_aborted (env.s3.abort_multipart_upload m.bucket u s.world).0 ≡ true)
      × AllAborted us (after_abort u s)

  abort_each_lem :
      (us : List Upload) (f : Failures) (s : Session W)
      → (f' : Failures) × (abort_each env m f us s ≡ (ok f', after_aborts us s))
        × ((f'.failed ≡ 0) ↔ ((f.failed ≡ 0) × AllAborted us s))
  unfolding abort_each
  abort_each_lem [] f s = (f, refl, ((λ h. (h, tt)), λ h. h.0))
  abort_each_lem (u ∷ us) f s =
      let r = (env.s3.abort_multipart_upload m.bucket u s.world).0 in
      let (f', run, count) = abort_each_lem us (note_failure f r) (after_abort u s) in
      (f', run, ground (arith, count, note_failure_lem f r))

  abort_outcome_iff : (f : Failures) → (is_ok (abort_outcome env m f) ≡ true) ↔ (f.failed ≡ 0)
  abort_outcome_iff f = ground arith

  -- the session after the listing of the uploads
  abbrev pub after_list : Session W → Session W
  after_list s = record s { world = (env.s3.list_multipart_uploads m.bucket s.world).1 }

  -- If the uploads can be listed, abortMultipartUploads makes the call for every one of them, also
  -- after a failure, and it succeeds exactly if each was aborted or no longer there.
  pub abort_all :
      (us : List Upload) (s : Session W)
      → (env.s3.list_multipart_uploads m.bucket s.world).0 ≡ ok us
      → ((abort_multipart_uploads env m s).1 ≡ after_aborts us (after_list s))
        × ((is_ok (abort_multipart_uploads env m s).0 ≡ true) ↔ AllAborted us (after_list s))
  unfolding abort_multipart_uploads
  abort_all us s listed =
      let (f, run, count) = abort_each_lem us no_failures (after_list s) in
      simp (listed, run) (refl, ground (arith, count, abort_outcome_iff f))
