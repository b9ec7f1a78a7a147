-- ===== src/Controller/Finalizer/Handled.antt =====
-- handleFinalizer of internal/controller/finalizer.go: its branches, by what the finalization and the API
-- server answer.
use forge_operator.Prelude.{
  Bool, String, List, [], ◌∷◌, ◌++◌, ◌⊎◌, true, false, ◌≡◌, refl, sym, subst, Result, Error, ok,
  err, wrap, Bool-cases, Result-cases, inl, inr, arith,
}
use forge_operator.Api.{Application}
use forge_operator.S3.Session.{Session, Metric, application_ready_deleted}
use forge_operator.Controller.Session.{Reconciler}
use forge_operator.Controller.Finalizer.{
  is_zero_time, has_finalizer, application_finalizer, finalize_application, release,
  finish_deletion, handle_finalizer,
}

module _ {W : Type 0} (r : Reconciler W) where
  -- what handleFinalizer returns and leaves
  abbrev pub Handled : Type 0
  Handled = (Bool × Result (Unit {0})) × Session W

  abbrev pub with_finalizer_list : List String → Application → Application
  with_finalizer_list fs app = record app { metadata = record (app.metadata) { finalizers = fs } }

  -- From `t`, the one thing done is that the Application is sent to the API server with these finalizers:
  -- it accepts them and its answer is held, with these metrics, or the error is returned with `text`.
  abbrev pub IsSent :
      Bool → String → List String → (Application → List Metric) → Session W → Handled → Type 0
  IsSent deleting text fs metrics t h =
      ((answer : Application) × (w : W) × (r.platform.k8s.update (with_finalizer_list fs t.app)
            t.world
          ≡ (ok answer, w))
        × (h ≡ ((deleting, ok tt), record t { app = answer; world = w; metrics = metrics answer })))
      ⊎ ((e : Error) × (w : W) × (r.platform.k8s.update (with_finalizer_list fs t.app) t.world
            ≡ (err e, w))
          × (h ≡ (
            (deleting, err (wrap text e "")),
            record t { app = with_finalizer_list fs t.app; world = w },
          )))

  -- After the finalization with this reply and session: a failure is the end, and after a success the
  -- Application is sent without the finalizer.
  abbrev pub IsFinished : Result (Unit {0}) × Session W → Handled → Type 0
  IsFinished (err e, t) h = h ≡ ((true, err (wrap "failed to finalize application: " e "")), t)
  IsFinished (ok a, t) h =
      IsSent true "failed to remove finalizer: "
        (r.remove_finalizer t.app.finalizers application_finalizer)
        (λ answer. t.metrics ++ application_ready_deleted answer.namespace answer.name ∷ []) t h

  -- The branches of handleFinalizer, by the deletion timestamp, which may be unset or zero, and the
  -- finalizer.
  abbrev pub IsHandled : Session W → Handled → Type 0
  IsHandled s h =
      ((is_zero_time s.app.deletion_timestamp ≡ true)
        × (has_finalizer r s.app ≡ true)
        × (h ≡ ((false, ok tt), s)))
      ⊎ ((is_zero_time s.app.deletion_timestamp ≡ true)
          × (has_finalizer r s.app ≡ false)
          × IsSent false "failed to add finalizer: "
              (r.add_finalizer s.app.finalizers application_finalizer) (λ answer. s.metrics) s h)
      ⊎ ((is_zero_time s.app.deletion_timestamp ≡ false)
          × (has_finalizer r s.app ≡ false)
          × (h ≡ ((true, ok tt), s)))
      ⊎ ((is_zero_time s.app.deletion_timestamp ≡ false)
          × (has_finalizer r s.app ≡ true)
          × IsFinished (finalize_application r s) h)

  release-IsSent :
      (t : Session W) → IsFinished (ok tt, t) ((true, (release r t).0), (release r t).1)
  unfolding release
  release-IsSent t =
      let sent =
        with_finalizer_list (r.remove_finalizer t.app.finalizers application_finalizer) t.app in
      elim (Result-cases (r.platform.k8s.update sent t.world).0) [
        | inl (answer, accepted) ↦ inl (
          answer,
          (r.platform.k8s.update sent t.world).1,
          ground (arith, accepted),
          ground (arith, accepted),
        )
        | inr (e, refused) ↦ inr (
          e,
          (r.platform.k8s.update sent t.world).1,
          ground (arith, refused),
          ground (arith, refused),
        )
      ]

  handle_live-IsSent :
      (s : Session W)
      → is_zero_time s.app.deletion_timestamp ≡ true
      → has_finalizer r s.app ≡ false
      → IsSent false "failed to add finalizer: "
          (r.add_finalizer s.app.finalizers application_finalizer)
          (λ answer. s.metrics)
          s
          (handle_finalizer r s)
  unfolding handle_finalizer
  handle_live-IsSent s live without =
      let sent =
        with_finalizer_list (r.add_finalizer s.app.finalizers application_finalizer) s.app in
      elim (Result-cases (r.platform.k8s.update sent s.world).0) [
        | inl (answer, accepted) ↦ inl (
          answer,
          (r.platform.k8s.update sent s.world).1,
          ground (arith, accepted),
          ground (arith, live, without, accepted),
        )
        | inr (e, refused) ↦ inr (
          e,
          (r.platform.k8s.update sent s.world).1,
          ground (arith, refused),
          ground (arith, live, without, refused),
        )
      ]

  handle_deleted-IsFinished :
      (s : Session W)
      → is_zero_time s.app.deletion_timestamp ≡ false
      → has_finalizer r s.app ≡ true
      → IsFinished (finalize_application r s) (handle_finalizer r s)
  unfolding handle_finalizer finish_deletion
  handle_deleted-IsFinished s deleting held = elim (Result-cases (finalize_application r s).0) [
    | inr (e, failed) ↦
        subst (λ q. IsFinished (q, (finalize_application r s).1) (handle_finalizer r s))
          (sym failed) (ground (arith, deleting, held, failed))
    | inl (_, done) ↦
        subst (λ q. IsFinished (q, (finalize_application r s).1) (handle_finalizer r s)) (sym done)
          (subst (λ h. IsFinished (ok tt, (finalize_application r s).1) h)
            (rw (deleting, held, done) refl) (release-IsSent (finalize_application r s).1))
  ]

  -- handleFinalizer does nothing to an Application that has the finalizer and is not being deleted, or has
  -- no finalizer and is; it sends one that has none and is not being deleted with it. Of one that has
  -- it and is being deleted it finalizes the storage: if that fails, handleFinalizer fails with its
  -- error and does nothing more, so that the finalizer stays, and otherwise, and only then, it sends the
  -- Application without the finalizer. It fails where the API server refuses what is sent, and says
  -- whether the Application is being deleted.
  pub handle_finalizer-IsHandled : (s : Session W) → IsHandled s (handle_finalizer r s)
  unfolding handle_finalizer
  handle_finalizer-IsHandled s = elim (Bool-cases (is_zero_time s.app.deletion_timestamp)) [
    | inl live ↦ elim (Bool-cases (has_finalizer r s.app)) [
      | inl held ↦ inl (live, held, ground (arith, live, held))
      | inr without ↦ inr (inl (live, without, handle_live-IsSent s live without))
    ]
    | inr deleting ↦ elim (Bool-cases (has_finalizer r s.app)) [
      | inl held ↦ inr (inr (inr (deleting, held, handle_deleted-IsFinished s deleting held)))
      | inr without ↦ inr (inr (inl (deleting, without, ground (arith, deleting, without))))
    ]
  ]
