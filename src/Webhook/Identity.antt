-- ===== src/Webhook/Identity.antt =====
-- What the immutability check of the validating webhook
-- (internal/webhook/v1alpha1/application_webhook.go) keeps, over one update and over many.
use forge_operator.Prelude.{
  String, ◌≡◌, ◌≢◌, refl, ◌∙◌, ◌↔◌, ◌⊎◌, none, some, Option, arith, eq_iff, ok,
}
use mathlib.Core.Path.{subst₂}
use forge_operator.Cluster.{Client}
use forge_operator.Api.{Application, StorageSpec}
use forge_operator.Webhook.{
  Warnings, validate_update, identity_check, validate_storage_identity_immutable,
}

-- One of the two is not set, or they are equal.
abbrev pub Agree : String → String → Type 0
Agree old new = (old ≡ "") ⊎ (new ≡ "") ⊎ (old ≡ new)

-- Where both versions have storage, no part of its identity changes from a set value to another one.
abbrev pub KeepsSetIdentity : Option StorageSpec → Option StorageSpec → Type 0
KeepsSetIdentity (some old) (some new) =
    Agree old.provider new.provider × Agree old.bucket new.bucket × Agree old.region new.region
KeepsSetIdentity _ _ = Unit

identity_check-ok_iff :
    (old new : Option StorageSpec) → (identity_check old new ≡ ok tt) ↔ KeepsSetIdentity old new
unfolding identity_check
identity_check-ok_iff none new = (λ _. tt, λ _. refl)
identity_check-ok_iff (some old) none = (λ _. tt, λ _. refl)
identity_check-ok_iff (some old) (some new) = ground (
  arith,
  eq_iff old.provider "",
  eq_iff new.provider "",
  eq_iff old.provider new.provider,
  eq_iff old.bucket "",
  eq_iff new.bucket "",
  eq_iff old.bucket new.bucket,
  eq_iff old.region "",
  eq_iff new.region "",
  eq_iff old.region new.region,
)

-- The check accepts an update exactly if storage is not set on one side, or each of provider,
-- bucket and region is unset on one side or equal on both.
pub immutable-ok_iff :
    (old new : Application)
    → (validate_storage_identity_immutable old new ≡ ok tt)
      ↔ KeepsSetIdentity old.spec.storage new.spec.storage
unfolding validate_storage_identity_immutable
immutable-ok_iff old new = identity_check-ok_iff old.spec.storage new.spec.storage

-- The Application's storage, with all three parts of its identity set.
pub record HasIdentity (a : Application) (s : StorageSpec) : Type 0 where
  pub storage : a.spec.storage ≡ some s
  pub provider_set : s.provider ≢ ""
  pub bucket_set : s.bucket ≢ ""
  pub region_set : s.region ≢ ""

-- A series of updates, each of which the validating webhook admits while the Application is not
-- being deleted, and after each of which the storage has all three parts of its identity.
pub data Updates {W : Type 0} (c : Client W) : Application → Application → Type 0 where
  here : {a : Application} → Updates c a a
  next :
      {a b b' : Application} (s : StorageSpec) (w : W) (warnings : Warnings)
      → Updates c a b
      → b'.deletion_timestamp ≡ none
      → (validate_update c b b' w).0 ≡ ok warnings
      → HasIdentity b' s
      → Updates c a b'

update-immutable :
    {W : Type 0} (c : Client W) (old new : Application) (w : W) (warnings : Warnings)
    → new.deletion_timestamp ≡ none
    → (validate_update c old new w).0 ≡ ok warnings
    → validate_storage_identity_immutable old new ≡ ok tt
unfolding validate_update
update-immutable c old new w warnings live h = ground arith

abbrev pub SameTarget : StorageSpec → StorageSpec → Type 0
SameTarget s t = (t.provider ≡ s.provider) × (t.bucket ≡ s.bucket) × (t.region ≡ s.region)

Agree-set : (s t : String) → Agree s t → s ≢ "" → t ≢ "" → t ≡ s
Agree-set s t h p q = ground arith

step_same :
    (a b : Application) (s t : StorageSpec)
    → HasIdentity a s
    → HasIdentity b t
    → KeepsSetIdentity a.spec.storage b.spec.storage
    → SameTarget s t
step_same a b s t ha hb h =
    let h' : KeepsSetIdentity (some s) (some t) = subst₂ KeepsSetIdentity ha.storage hb.storage h in
    (
      Agree-set s.provider t.provider h'.0 ha.provider_set hb.provider_set,
      Agree-set s.bucket t.bucket h'.1 ha.bucket_set hb.bucket_set,
      Agree-set s.region t.region h'.2 ha.region_set hb.region_set,
    )

same_storage : {a : Application} {s t : StorageSpec} → HasIdentity a s → HasIdentity a t → s ≡ t
same_storage {a} ha hb = ground (arith, ha.storage, hb.storage)

Updates-target :
    {W : Type 0} (c : Client W) {a b : Application} (s : StorageSpec)
    → HasIdentity a s
    → Updates c a b
    → (t : StorageSpec) × HasIdentity b t × SameTarget s t
Updates-target c s ha here = (s, ha, (refl, refl, refl))
Updates-target c s ha (next {b = b} {b' = b'} t w ws u live admitted hb') =
    let (t₀, hb, same) = Updates-target c s ha u in
    let (p, q, r) =
      step_same b b' t₀ t hb hb'
        ((immutable-ok_iff b b').0 (update-immutable c b b' w ws live admitted)) in
    (t, hb', (p ∙ same.0, q ∙ same.1, r ∙ same.2))

-- However many updates are admitted to an Application that is not being deleted, as long as every
-- version sets provider, bucket and region the storage keeps the provider, the bucket and the region
-- that it had.
pub Updates-SameTarget :
    {W : Type 0} (c : Client W) {a b : Application} (s t : StorageSpec)
    → HasIdentity a s
    → HasIdentity b t
    → Updates c a b
    → SameTarget s t
Updates-SameTarget c s t ha hb u =
    let (t', hb', same) = Updates-target c s ha u in rw (same_storage hb hb') same
