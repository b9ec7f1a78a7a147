-- ===== src/Status/Manager/Conditions.antt =====
-- What the conditions of internal/controller/status/manager.go say after each transition, and when
-- a transition writes them.
use forge_operator.Prelude.{
  String, Bool, true, false, not, Option, none, some, List, [], ◌∷◌, ◌≡◌, ◌≢◌, ◌⊎◌, inl, inr, ◌↔◌,
  refl, ap, sym, ◌∙◌, ◌&&◌, is_ok, ok, Error, ◌==◌, if◌then◌else◌, arith, eq_iff,
}
use forge_operator.Api.{Application, Condition, condition_true}
use forge_operator.Status.Manager.{
  Held, Tools, Setter, type_ready, type_progressing, type_degraded, with_conditions, update_status,
  write_if, set_ready, set_reconciling, set_failed, available, settled, healthy, degraded, failed,
  reconciling, not_yet_ready,
}
use forge_operator.Status.Manager.Retrying.{Retries, WasSent, update_status-WasSent}

-- meta.FindStatusCondition
unfoldable pub find_condition : String → List Condition → Option Condition
find_condition type [] = none
find_condition type (c ∷ cs) = if c.type == type then some c else find_condition type cs

-- What meta.SetStatusCondition documents: the condition is then the one of its type, those of other
-- types stay, and it reports a change exactly if the condition was not there as it is.
pub record IsSetter (set : Setter) : Type 0 where
  pub found : (cs : List Condition) (c : Condition) → find_condition c.type (set cs c).1 ≡ some c
  pub kept :
      (cs : List Condition) (c : Condition) (type : String)
      → type ≢ c.type
      → find_condition type (set cs c).1 ≡ find_condition type cs
  pub reports :
      (cs : List Condition) (c : Condition)
      → ((set cs c).0 ≡ false) ↔ (find_condition c.type cs ≡ some c)
  pub unchanged : (cs : List Condition) (c : Condition) → (set cs c).0 ≡ false → (set cs c).1 ≡ cs

module _ {W : Type 0} (x : Tools W) (setter : IsSetter x.set_status_condition) where
  -- Ready, and neither progressing nor degraded, with this message.
  abbrev pub SaysReady : Application → String → List Condition → Type 0
  SaysReady app message cs =
      (find_condition type_ready cs ≡ some (available x app message))
      × (find_condition type_progressing cs ≡ some (settled x app))
      × (find_condition type_degraded cs ≡ some (healthy x app))

  -- Degraded for this reason, and not ready.
  abbrev pub SaysFailed : Application → String → Error → List Condition → Type 0
  SaysFailed app reason e cs =
      (find_condition type_degraded cs ≡ some (degraded x app reason e))
      × (find_condition type_ready cs ≡ some (failed x app reason e))

  -- The conditions were sent and accepted, or there was nothing to write: then no call was made and
  -- they are the Application's.
  abbrev pub Shows : List Condition → Held W → Held W → Type 0
  Shows cs s t = WasSent x cs s.0.generation t ⊎ ((t ≡ s) × (s.0.status.conditions ≡ cs))

  write_if-Shows :
      Retries x
      → (changed : Bool) (cs : List Condition) (app : Application) (w : W)
      → (changed ≡ false → cs ≡ app.status.conditions)
      → is_ok (write_if x changed (with_conditions cs app, w)).0 ≡ true
      → Shows cs (app, w) (write_if x changed (with_conditions cs app, w)).1
  write_if-Shows retries true cs app w same h =
      inl (update_status-WasSent x retries (with_conditions cs app, w) h)
  write_if-Shows retries false cs app w same h =
      inr (ap (λ ds. (with_conditions ds app, w)) (same refl), sym (same refl))

  -- the conditions after SetReady has set its three
  abbrev after_ready : Application → String → List Condition
  after_ready app message =
      let cs = (x.set_status_condition app.status.conditions (available x app message)).1 in
      let ds = (x.set_status_condition cs (settled x app)).1 in
      (x.set_status_condition ds (healthy x app)).1

  after_ready-SaysReady :
      (app : Application) (message : String) → SaysReady app message (after_ready app message)
  after_ready-SaysReady app message =
      let cs = (x.set_status_condition app.status.conditions (available x app message)).1 in
      let ds = (x.set_status_condition cs (settled x app)).1 in
      ground (
        arith,
        setter.found app.status.conditions (available x app message),
        setter.found cs (settled x app),
        setter.found ds (healthy x app),
        setter.kept cs (settled x app) type_ready,
        setter.kept ds (healthy x app) type_ready,
        setter.kept ds (healthy x app) type_progressing,
        eq_iff type_ready type_progressing,
        eq_iff type_ready type_degraded,
        eq_iff type_progressing type_degraded,
      )

  -- If the parameters are as documented, a SetReady that succeeds ends with Ready true, Progressing
  -- and Degraded false: accepted by the API server, or there already, and then nothing is written.
  pub set_ready-Shows :
      Retries x
      → (message : String) (s : Held W) → is_ok (set_ready x message s).0 ≡ true
      → (cs : List Condition) × SaysReady s.0 message cs × Shows cs s (set_ready x message s).1
  unfolding set_ready
  set_ready-Shows retries message (app, w) h =
      let p = x.set_status_condition app.status.conditions (available x app message) in
      let q = x.set_status_condition p.1 (settled x app) in
      let r = x.set_status_condition q.1 (healthy x app) in
      (
        r.1,
        after_ready-SaysReady app message,
        write_if-Shows retries (not (not p.0 && (not q.0 && not r.0))) r.1 app w
            (λ e. ground (
              arith,
              setter.unchanged app.status.conditions (available x app message),
              setter.unchanged p.1 (settled x app),
              setter.unchanged q.1 (healthy x app),
            ))
            h,
      )

  -- If the parameters are as documented, a SetFailed that succeeds ends with Degraded true and Ready
  -- false, both with the reason that it was given: accepted by the API server, or there already, and
  -- then nothing is written.
  pub set_failed-Shows :
      Retries x
      → (reason : String) (e : Error) (s : Held W) → is_ok (set_failed x reason e s).0 ≡ true
      → (cs : List Condition) × SaysFailed s.0 reason e cs × Shows cs s (set_failed x reason e s).1
  unfolding set_failed
  set_failed-Shows retries reason e (app, w) h =
      let p = x.set_status_condition app.status.conditions (degraded x app reason e) in
      let q = x.set_status_condition p.1 (failed x app reason e) in
      (
        q.1,
        ground (
          arith,
          setter.found app.status.conditions (degraded x app reason e),
          setter.found p.1 (failed x app reason e),
          setter.kept p.1 (failed x app reason e) type_degraded,
          eq_iff type_ready type_degraded,
        ),
        write_if-Shows retries (not (not p.0 && not q.0)) q.1 app w
            (λ k. ground (
              arith,
              setter.unchanged app.status.conditions (degraded x app reason e),
              setter.unchanged p.1 (failed x app reason e),
            ))
            h,
      )

  -- If meta.SetStatusCondition is as documented, SetReady on an Application that says all of it
  -- already, for the present generation and with the same message, succeeds and makes no call.
  pub set_ready_settled :
      (message : String) (app : Application) (w : W)
      → SaysReady app message app.status.conditions
      → set_ready x message (app, w) ≡ (ok tt, (app, w))
  unfolding set_ready
  set_ready_settled message app w (ready, progressing, undegraded) =
      let cs = app.status.conditions in
      let p = x.set_status_condition cs (available x app message) in
      let q = x.set_status_condition p.1 (settled x app) in
      let r = x.set_status_condition q.1 (healthy x app) in
      let p0 : p.0 ≡ false = (setter.reports cs (available x app message)).1 ready in
      let p1 : p.1 ≡ cs = setter.unchanged cs (available x app message) p0 in
      let q0 : q.0 ≡ false = (setter.reports p.1 (settled x app)).1 (ground (arith, p1)) in
      let q1 : q.1 ≡ cs = setter.unchanged p.1 (settled x app) q0 ∙ p1 in
      let r0 : r.0 ≡ false = (setter.reports q.1 (healthy x app)).1 (ground (arith, q1)) in
      let r1 : r.1 ≡ cs = setter.unchanged q.1 (healthy x app) r0 ∙ q1 in
      let still : not (not p.0 && (not q.0 && not r.0)) ≡ false = ground (arith, p0, q0, r0) in
      ap (λ b. write_if x b (with_conditions r.1 app, w)) still
      ∙ ap (λ ds. (ok tt, (with_conditions ds app, w))) r1

  -- If meta.SetStatusCondition is as documented, SetReconciling writes the status of every
  -- Application whose Ready condition is true.
  pub set_reconciling_writes :
      (message : String) (c : Condition) (app : Application) (w : W)
      → find_condition type_ready app.status.conditions ≡ some c
      → c.status ≡ condition_true
      → (cs : List Condition) × (find_condition type_ready cs ≡ some (not_yet_ready x app))
        × (set_reconciling x message (app, w) ≡ update_status x (with_conditions cs app, w))
  unfolding set_reconciling
  set_reconciling_writes message c app w h k =
      let p = x.set_status_condition app.status.conditions (reconciling x app message) in
      let q = x.set_status_condition p.1 (not_yet_ready x app) in
      let changed : q.0 ≡ true = ground (
        arith,
        setter.reports p.1 (not_yet_ready x app),
        setter.kept app.status.conditions (reconciling x app message) type_ready,
        eq_iff type_ready type_progressing,
      ) in
      (q.1, setter.found p.1 (not_yet_ready x app), ground (arith, changed))
