-- ===== src/Webhook/Defaulting.antt =====
-- What the defaulting webhook (internal/webhook/v1alpha1/application_webhook.go) changes, and that
-- the names resolved by internal/controller/naming/naming.go do not depend on whether it ran.
use Prim.Native.String.{◌++◌}
use forge_operator.Prelude.{
  String, ◌≡◌, ◌≢◌, refl, none, some, Option, arith, eq_iff, ◌==◌, Option-cases, Bool-cases, inl,
  inr,
}
use forge_operator.Api.{Application, StorageSpec, AkamaiStorageSpec, provider_akamai_object_storage}
use forge_operator.Naming.Names.{storage_secret, akamai_token_secret, or_default}
use forge_operator.Webhook.{
  with_secret_name, with_storage, with_token, akamai_or_empty, default, default_from,
  default_storage,
}

or_default_idem : (s t : String) → or_default (or_default s t) t ≡ or_default s t
or_default_idem s t = ground (arith, eq_iff s "", eq_iff t "")

default_from_names :
    (a : Application) (o : Option StorageSpec)
    → a.spec.storage ≡ o
    → (storage_secret (default_from a o) ≡ storage_secret a)
      × (akamai_token_secret (default_from a o) ≡ akamai_token_secret a)
unfolding storage_secret akamai_token_secret default_from default_storage
default_from_names a none e = (refl, refl)
default_from_names a (some s) e = ground (
  arith,
  eq_iff s.secret_name "",
  eq_iff (a.name ++ "-storage") "",
  eq_iff (a.name ++ "-akamai-token") "",
)

-- The names of the operator's output Secret and of the Akamai token Secret are those of the
-- Application as it was sent.
pub default_names :
    (a : Application)
    → (storage_secret (default a) ≡ storage_secret a)
      × (akamai_token_secret (default a) ≡ akamai_token_secret a)
unfolding default
default_names a = default_from_names a a.spec.storage refl

-- What the spec of the storage names after the defaulting, beside what the Application was sent with.
abbrev pub Resolved : Application → StorageSpec → StorageSpec → Type 0
Resolved a s t =
    (t.secret_name ≡ storage_secret a)
    × (s.provider ≡ provider_akamai_object_storage
        → (k : AkamaiStorageSpec) × (t.akamai ≡ some k)
          × (k.access_key_secret_ref ≡ akamai_token_secret a))
    × (s.provider ≢ provider_akamai_object_storage → t.akamai ≡ s.akamai)
    × (t.provider ≡ s.provider)
    × (t.bucket ≡ s.bucket)
    × (t.region ≡ s.region)
    × (t.deletion_policy ≡ s.deletion_policy)
    × (t.endpoint ≡ s.endpoint)
    × (t.aws ≡ s.aws)

token_kept :
    (a : Application) (s : StorageSpec)
    → a.spec.storage ≡ some s
    → (with_token (akamai_or_empty s.akamai) (
        akamai_token_secret
          (with_storage a (with_secret_name s (storage_secret a))))).access_key_secret_ref
      ≡ akamai_token_secret a
unfolding akamai_token_secret
token_kept a s e = ground (arith, eq_iff (a.name ++ "-akamai-token") "")

default_from-Resolved :
    (a : Application) (s : StorageSpec)
    → a.spec.storage ≡ some s
    → (t : StorageSpec) × ((default_from a (some s)).spec.storage ≡ some t) × Resolved a s t
unfolding storage_secret akamai_token_secret default_from default_storage
default_from-Resolved a s e =
    let named = with_secret_name s (storage_secret a) in
    let token = akamai_token_secret (with_storage a named) in
    elim (Bool-cases (s.provider == provider_akamai_object_storage)) [
      | inl akamai ↦ (
        record named { akamai = some (with_token (akamai_or_empty s.akamai) token) },
        ground arith,
        (
          ground (arith, eq_iff s.secret_name ""),
          λ p. (with_token (akamai_or_empty s.akamai) token, refl, token_kept a s e),
          λ p. absurd (p ((eq_iff _ _).0 akamai)),
          refl,
          refl,
          refl,
          refl,
          refl,
          refl,
        ),
      )
      | inr other ↦ (
        named,
        ground arith,
        (
          ground (arith, eq_iff s.secret_name ""),
          λ p. ground (arith, eq_iff s.provider provider_akamai_object_storage),
          λ p. refl,
          refl,
          refl,
          refl,
          refl,
          refl,
          refl,
        ),
      )
    ]

-- Defaulting a storage fills in the name of the output Secret and, with the Akamai provider, the
-- token Secret, both as the operator resolves them for the Application as sent; every other field
-- of the storage stays, also the Akamai part under another provider.
pub default-Resolved :
    (a : Application) (s : StorageSpec)
    → a.spec.storage ≡ some s
    → (t : StorageSpec) × ((default a).spec.storage ≡ some t) × Resolved a s t
unfolding default
default-Resolved a s e = simp e (default_from-Resolved a s e)

-- Defaulting a second time changes nothing.
pub default_idempotent : (a : Application) → default (default a) ≡ default a
unfolding default default_from default_storage storage_secret akamai_token_secret
default_idempotent a = elim (Option-cases a.spec.storage) [
  | inl e ↦ ground arith
  | inr (s, e) ↦ ground (
    arith,
    eq_iff s.provider provider_akamai_object_storage,
    or_default_idem s.secret_name (a.name ++ "-storage"),
  )
]
