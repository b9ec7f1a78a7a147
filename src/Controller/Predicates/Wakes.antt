-- ===== src/Controller/Predicates/Wakes.antt =====
-- Which updates of an Application wake internal/controller/application_controller.go again.
use forge_operator.Prelude.{Bool, true, false, ◌≡◌, ◌≢◌, ◌⊎◌, ◌↔◌, is_some, arith, eq_iff, lookup}
use forge_operator.Api.{Application}
use forge_operator.Naming.Names.{adopt_bucket_annotation}
use forge_operator.Controller.Predicates.{Event, updated, application_change_predicate}

-- predicate.GenerationChangedPredicate lets an update pass exactly if the generation differs.
abbrev pub SeesGeneration : (Event Application → Bool) → Type 0
SeesGeneration p =
    (old new : Application) → (p (updated old new) ≡ true) ↔ (old.generation ≢ new.generation)

-- If GenerationChangedPredicate does what it documents, an update leads to a reconcile exactly if the
-- generation differs, or the deletion begins, or the adopt-bucket annotation changes.
pub application_change_predicate_iff :
    (p : Event Application → Bool)
    → SeesGeneration p
    → (old new : Application)
    → (application_change_predicate p (updated old new) ≡ true) ↔ (
        (old.generation ≢ new.generation)
        ⊎ ((is_some old.deletion_timestamp ≡ false) × (is_some new.deletion_timestamp ≡ true))
        ⊎ (lookup old.annotations adopt_bucket_annotation
            ≢ lookup new.annotations adopt_bucket_annotation))
unfolding application_change_predicate
application_change_predicate_iff p sees old new = ground (
  arith,
  sees old new,
  eq_iff (lookup old.annotations adopt_bucket_annotation)
      (lookup new.annotations adopt_bucket_annotation),
)
