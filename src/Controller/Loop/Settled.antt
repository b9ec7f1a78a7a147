-- ===== src/Controller/Loop/Settled.antt =====
-- When Reconcile of internal/controller/application_controller.go leaves an Application alone.
use forge_operator.Prelude.{
  ℤ, IsPositive, IsPositive-iff, String, Bool, true, false, ◌≡◌, ◌⊎◌, inl, inr, refl, none, List,
  [], ◌∷◌, ◌++◌, Result, Error, ok, err, Result-cases, Option-cases, arith,
}
use forge_operator.ErrorClass.{reason_failed}
use forge_operator.Status.Manager.{set_reconciling, set_ready, set_failed}
use forge_operator.Status.Compute.{Verdict, evaluate_compute_readiness}
use forge_operator.S3.Session.{Session, Metric, application_ready_set}
use forge_operator.Controller.Session.{Reconciler}
use forge_operator.Controller.Finalizer.{is_zero_time, handle_finalizer}
use forge_operator.Controller.Loop.{
  Requeue, resolve_storage_resync_interval, jittered_storage_resync_interval, ensure_desired_state,
  on_held, show_failure, show_readiness, show_verdict, show_state, after_finalizer, reconcile_found,
}

pub resolve_storage_resync_interval-IsPositive :
    (n : ℤ) → IsPositive (resolve_storage_resync_interval n)
unfolding resolve_storage_resync_interval
resolve_storage_resync_interval-IsPositive n = ground (arith, IsPositive-iff n)

module _ {W : Type 0} (r : Reconciler W) where
  -- wait.Jitter makes a positive duration longer.
  abbrev pub Lengthens : Type 0
  Lengthens = (w : W) (d : ℤ) → IsPositive d → IsPositive (r.jitter w d)

  -- The reconcile succeeds, and its RequeueAfter is not positive: it asks for no other one.
  abbrev pub IsLast : Result Requeue → Type 0
  IsLast (ok after) = ¬ (IsPositive after)
  IsLast (err e) = ⊥

  jittered-IsPositive :
      Lengthens
      → (w : W) (configured : ℤ) → IsPositive (jittered_storage_resync_interval r w configured)
  unfolding jittered_storage_resync_interval
  jittered-IsPositive lengthens w configured =
      lengthens w _ (resolve_storage_resync_interval-IsPositive configured)

  -- The Application has no storage, and the last metric that was written says that it is ready.
  abbrev pub IsSettled : Session W → Type 0
  IsSettled t =
      (t.app.spec.storage ≡ none)
      × ((before : List Metric) × (t.metrics
            ≡ before ++ application_ready_set t.app.namespace t.app.name 1 ∷ []))

  failure_settles :
      (reason : String) (e : Error) (s : Session W)
      → IsLast (show_failure r reason e s).0
      → IsSettled (show_failure r reason e s).1
  failure_settles reason e s h =
      elim (Result-cases (set_failed r.status_manager reason e (s.app, s.world)).0) [
        | inl (_, shown) ↦ absurd (ground (arith, shown))
        | inr (d, lost) ↦ absurd (ground (arith, lost))
      ]

  readiness_settles :
      Lengthens
      → (ready : Bool) (reason : String) (s : Session W)
      → IsLast (show_readiness r ready reason s).0
      → IsSettled (show_readiness r ready reason s).1
  readiness_settles lengthens false reason s h =
      elim (Result-cases (set_reconciling r.status_manager reason (s.app, s.world)).0) [
        | inl (_, shown) ↦ absurd (ground (arith, shown))
        | inr (d, lost) ↦ absurd (ground (arith, lost))
      ]
  readiness_settles lengthens true reason s h =
      let shown = set_ready r.status_manager reason (s.app, s.world) in
      elim (Result-cases shown.0) [
        | inr (d, lost) ↦ absurd (ground (arith, lost))
        | inl (_, done) ↦ elim (Option-cases shown.1.0.spec.storage) [
          | inl without ↦ rw done (without, (s.metrics, refl))
          | inr (storage, has) ↦ absurd (
              ground (
                arith,
                done,
                has,
                jittered-IsPositive lengthens shown.1.1 r.storage_resync_interval,
              ))
        ]
      ]

  verdict_settles :
      Lengthens
      → (v : Verdict) (s : Session W) → IsLast (show_verdict r v s).0
      → IsSettled (show_verdict r v s).1
  verdict_settles lengthens v s h = elim (Option-cases v.error) [
    | inl fine ↦ rw fine (readiness_settles lengthens v.ready v.message s (rw fine at h))
    | inr (e, broken) ↦ rw broken (failure_settles reason_failed e s (rw broken at h))
  ]

  state_settles :
      Lengthens
      → (q : Result (Unit {0})) (s : Session W) → IsLast (show_state r q s).0
      → IsSettled (show_state r q s).1
  state_settles lengthens (err e) s h = failure_settles _ e s h
  state_settles lengthens (ok a) s h =
      let (v, w) = evaluate_compute_readiness r.platform.k8s s.app s.world in
      verdict_settles lengthens v (record s { world = w }) h

  finalizer_settles :
      Lengthens
      → (p : (Bool × Result (Unit {0})) × Session W) → IsLast (after_finalizer r p).0
      → (p.0.0 ≡ true) ⊎ IsSettled (after_finalizer r p).1
  finalizer_settles lengthens ((deleting, err e), s) h = absurd (ground arith)
  finalizer_settles lengthens ((true, ok a), s) h = inl refl
  finalizer_settles lengthens ((false, ok a), s) h =
      let (q, t) = ensure_desired_state r s in inr (state_settles lengthens q t h)

  only_deleting :
      (s : Session W)
      → (handle_finalizer r s).0.0 ≡ true
      → is_zero_time s.app.deletion_timestamp ≡ false
  unfolding handle_finalizer
  only_deleting s h = ground arith

  -- the session after the first status write
  abbrev pub started : Session W → Session W
  started s = (on_held r (set_reconciling r.status_manager "Reconciling Application resources") s).1

  -- If wait.Jitter gives a positive duration for a positive one, and a reconcile succeeds with a
  -- RequeueAfter that is not positive, so that it asks for no other one, then the Application was being
  -- deleted, or it has no storage and the last metric that was written says that it is ready: a success
  -- that leaves it not ready, or with storage, asks for another reconcile after a positive time.
  pub reconcile_found-IsSettled :
      Lengthens
      → (s : Session W) → IsLast (reconcile_found r s).0
      → (is_zero_time (started s).app.deletion_timestamp ≡ false)
        ⊎ IsSettled (reconcile_found r s).1
  unfolding reconcile_found
  reconcile_found-IsSettled lengthens s h =
      let begun =
        set_reconciling r.status_manager "Reconciling Application resources" (s.app, s.world) in
      elim (Result-cases begun.0) [
        | inr (e, lost) ↦ absurd (ground (arith, lost))
        | inl (_, shown) ↦
            let p = handle_finalizer r (started s) in
            elim (finalizer_settles lengthens p (rw shown at h)) [
              | inl deleting ↦ inl (only_deleting (started s) deleting)
              | inr settled ↦ inr (rw shown settled)
            ]
      ]
