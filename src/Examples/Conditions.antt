-- ===== src/Examples/Conditions.antt =====
-- The transitions of internal/controller/status/manager.go and storagestatus with concrete
-- parameters: a setter that keeps what it documents, and an API server that takes the first
-- update.
use forge_operator.Prelude.{
  String, Bool, true, false, not, ◌&&◌, none, some, List, [], ◌∷◌, ◌≡◌, ◌≢◌, ◌↔◌, refl, ap, sym,
  pure, new_error, is_ok, nat_eq, if◌then◌else◌, arith, eq_iff, ◌==◌, Bool-cases, inl, inr,
}
use forge_operator.Api.{
  Application, Condition, ConditionStatus, condition_true, condition_false, condition_unknown,
}
use forge_operator.Status.Manager.{
  Held, Tools, Setter, update_once, update_status, set_ready, set_failed, with_conditions,
  available, settled, healthy,
}
use forge_operator.Status.Manager.Retrying.{Retried, Retries, WasSent, update_status-WasSent}
use forge_operator.Status.Manager.Conditions.{find_condition, IsSetter}
use forge_operator.Examples.Samples.{Tagged, sample_app, sample_client}

abbrev same_status : ConditionStatus → ConditionStatus → Bool
same_status condition_true condition_true = true
same_status condition_false condition_false = true
same_status condition_unknown condition_unknown = true
same_status _ _ = false

abbrev same_condition : Condition → Condition → Bool
same_condition c d =
    (c.type == d.type)
    && (same_status c.status d.status
        && ((c.reason == d.reason)
            && ((c.message == d.message) && nat_eq c.observed_generation d.observed_generation)))

same_status_iff : (c d : ConditionStatus) → (same_status c d ≡ true) ↔ (c ≡ d)
same_status_iff condition_true condition_true = ground arith
same_status_iff condition_true condition_false = ground arith
same_status_iff condition_true condition_unknown = ground arith
same_status_iff condition_false condition_true = ground arith
same_status_iff condition_false condition_false = ground arith
same_status_iff condition_false condition_unknown = ground arith
same_status_iff condition_unknown condition_true = ground arith
same_status_iff condition_unknown condition_false = ground arith
same_status_iff condition_unknown condition_unknown = ground arith

same_condition_iff : (c d : Condition) → (same_condition c d ≡ true) ↔ (c ≡ d)
same_condition_iff c d = ground (
  arith,
  same_status_iff c.status d.status,
  eq_iff c.type d.type,
  eq_iff c.reason d.reason,
  eq_iff c.message d.message,
)

-- The first condition of the type is replaced, or the condition put at the end.
unfoldable put : List Condition → Condition → List Condition
put [] c = c ∷ []
put (d ∷ cs) c = let rest = put cs c in if d.type == c.type then c ∷ cs else d ∷ rest

unfoldable was_there : List Condition → Condition → Bool
was_there [] c = false
was_there (d ∷ cs) c = if d.type == c.type then same_condition d c else was_there cs c

abbrev setter : Setter
setter cs c = (not (was_there cs c), put cs c)

put-found : (cs : List Condition) (c : Condition) → find_condition c.type (put cs c) ≡ some c
unfolding put find_condition
put-found [] c = ground (arith, eq_iff c.type c.type)
put-found (d ∷ cs) c = ground (arith, put-found cs c, eq_iff c.type c.type, eq_iff d.type c.type)

put-kept :
    (cs : List Condition) (c : Condition) (type : String)
    → type ≢ c.type
    → find_condition type (put cs c) ≡ find_condition type cs
unfolding put find_condition
put-kept [] c type h = ground (arith, eq_iff c.type type)
put-kept (d ∷ cs) c type h =
    ground (arith, put-kept cs c type, eq_iff c.type type, eq_iff d.type c.type, eq_iff d.type type)

was_there_iff :
    (cs : List Condition) (c : Condition)
    → (was_there cs c ≡ true) ↔ (find_condition c.type cs ≡ some c)
unfolding was_there find_condition
was_there_iff [] c = ground arith
was_there_iff (d ∷ cs) c =
    ground (arith, was_there_iff cs c, same_condition_iff d c, eq_iff d.type c.type)

put-there : (cs : List Condition) (c : Condition) → was_there cs c ≡ true → put cs c ≡ cs
unfolding put was_there
put-there [] c h = absurd (ground arith)
put-there (d ∷ cs) c h = elim (Bool-cases (d.type == c.type)) [
  | inl same ↦
      let equal : d ≡ c = ground (arith, same_condition_iff d c) in
      rw same (ap (λ e. e ∷ cs) (sym equal))
  | inr other ↦
      let rest : put cs c ≡ cs = put-there cs c (ground arith) in rw other (ap (λ es. d ∷ es) rest)
]

setter-IsSetter : IsSetter setter
setter-IsSetter = record {
  found = put-found;
  kept = put-kept;
  reports = λ cs c. ground (arith, was_there_iff cs c);
  unchanged = λ cs c h. put-there cs c (ground arith);
}

abbrev tools : Tools Tagged
tools = record {
  client = sample_client;
  api_reader = λ ns name. pure sample_app;
  set_status_condition = setter;
  retry_on_conflict = λ f s. f s;
}

tools_retry : Retries tools
tools_retry f s = Retried.last refl

abbrev held : Held Tagged
held = (sample_app, none)

held_is_updated : is_ok (update_status tools held).0 ≡ true
unfolding update_status update_once
held_is_updated = refl

update_status-WasSent_example : WasSent tools [] 2 (update_status tools held).1
update_status-WasSent_example = update_status-WasSent tools tools_retry held held_is_updated

held_is_ready : is_ok (set_ready tools "done" held).0 ≡ true
unfolding set_ready update_status update_once was_there put
held_is_ready = refl

held_has_failed : is_ok (set_failed tools "ReconcileFailed" (new_error "no") held).0 ≡ true
unfolding set_failed update_status update_once was_there put
held_has_failed = refl

abbrev ready_conditions : List Condition
ready_conditions =
    available tools sample_app "done" ∷ settled tools sample_app ∷ healthy tools sample_app ∷ []

abbrev ready_app : Application
ready_app = with_conditions ready_conditions sample_app
