-- ===== src/Controller/Storage/Sent.antt =====
-- retryStatusUpdate and the end of a reconcile of storage (internal/controller/storage.go): what stands
-- behind a status write that succeeds.
use forge_operator.Prelude.{
  String, true, some, ◌≡◌, refl, sym, subst, Result, ok, err, is_ok, Result-cases, Bool-cases, inl,
  inr, arith,
}
use forge_operator.Api.{Application, ApplicationStatus, StorageStatus}
use forge_operator.StorageConditions.{set_storage_ready}
use forge_operator.Status.Manager.{Held}
use forge_operator.Status.Manager.Retrying.{Retried}
use forge_operator.S3.Session.{Session}
use forge_operator.Controller.Session.{
  Reconciler, with_status, status_answered, status_once, retry_status_update,
}
use forge_operator.Controller.Keeping.{RetriesStatus}
use forge_operator.Controller.Storage.Aws.{show_ready}

module _ {W : Type 0} (r : Reconciler W) where
  -- The API server took an Application with this status, and its answer is what the caller holds.
  abbrev pub HasSent : ApplicationStatus → Application → W → Type 0
  HasSent st answer v =
      (sent : Application) × (w : W) × (r.platform.k8s.update_status sent w ≡ (ok answer, v))
      × (sent.status ≡ st)

  answered :
      (app : Application) (p : Result Application × W)
      → is_ok (status_answered r app p).0 ≡ true
      → p ≡ (ok (status_answered r app p).1.0, (status_answered r app p).1.1)
  answered app (ok answer, w) h = refl
  answered app (err e, w) h = elim (Bool-cases e.is_conflict) [
    | inr other ↦ absurd (ground (arith, other))
    | inl conflict ↦
        elim (Result-cases (r.platform.k8s.get_application app.namespace app.name w).0) [
          | inl (fresh, got) ↦ absurd (ground (arith, conflict, got))
          | inr (d, missed) ↦ absurd (ground (arith, conflict, missed))
        ]
  ]

  status_once-HasSent :
      (st : ApplicationStatus) (h : Held W)
      → is_ok (status_once r st h).0 ≡ true
      → HasSent st (status_once r st h).1.0 (status_once r st h).1.1
  unfolding status_once
  status_once-HasSent st (app, w) h = (
    with_status st app,
    w,
    answered (with_status st app) (r.platform.k8s.update_status (with_status st app) w) h,
    refl,
  )

  Retried-HasSent :
      (st : ApplicationStatus) (h : Held W) {t : Held W} {q : Result (Unit {0})}
      → Retried (status_once r st) h q t
      → is_ok q ≡ true
      → HasSent st t.0 t.1
  Retried-HasSent st h (Retried.last e) k =
      subst (λ p. HasSent st p.1.0 p.1.1) e
        (status_once-HasSent st h (subst (λ p. is_ok p.0 ≡ true) (sym e) k))
  Retried-HasSent st h (Retried.again {s' = u} e c rest) k = Retried-HasSent st u rest k

  retry_status_update-HasSent :
      RetriesStatus r
      → (s : Session W) → is_ok (retry_status_update r s).0 ≡ true
      → HasSent s.app.status (retry_status_update r s).1.app (retry_status_update r s).1.world
  unfolding retry_status_update
  retry_status_update-HasSent retries s h =
      Retried-HasSent s.app.status (s.app, s.world)
        (retries (status_once r s.app.status) (s.app, s.world)) h

  -- the status that show_ready sends for the session `u`
  abbrev pub shown_status : String → (Session W → StorageStatus) → Session W → ApplicationStatus
  shown_status message st u =
      (set_storage_ready r.set_status_condition u.app (some (st u)) message).status

  pub show_ready-HasSent :
      RetriesStatus r
      → (provider message : String) (st : Session W → StorageStatus) (u : Session W)
      → is_ok (show_ready r provider message st u).0 ≡ true
      → HasSent
          (shown_status message st u)
          (show_ready r provider message st u).1.app
          (show_ready r provider message st u).1.world
  show_ready-HasSent retries provider message st u h =
      let v = record u {
        app = set_storage_ready r.set_status_condition u.app (some (st u)) message;
      } in
      elim (Result-cases (retry_status_update r v).0) [
        | inl (_, sent) ↦ rw sent (retry_status_update-HasSent retries v (rw sent refl))
        | inr (e, refused) ↦ absurd (ground (arith, refused))
      ]
