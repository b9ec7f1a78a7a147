-- ===== src/Naming/Adoption/Entitlement.antt =====
-- Exactly when naming.EvaluateBucketAdoption (internal/controller/naming/naming.go) lets an
-- Application take over a bucket.
use mathlib.Core.List.{Memᴰ}
use forge_operator.Prelude.{
  String, true, false, ◌≡◌, ◌≢◌, refl, ◌↔◌, ◌⊎◌, inl, inr, List, [], ◌∷◌, ok, Result-cases, arith,
  eq_iff, eq_refl, any, All, ◌==◌, if◌then◌else◌, lookup, Bool-cases,
}
use forge_operator.Api.{Application}
use forge_operator.Cluster.{Client, Namespace}
use forge_operator.Naming.Text.{split_comma, trim_space}
use forge_operator.Naming.Adoption.{
  allow_bucket_adoption_from_annotation, grants, application_exists_with_uid,
  cross_namespace_adoption_allowed, evaluate_bucket_adoption,
}

-- The grant is "*", or one of its comma-separated entries is the namespace up to spaces.
abbrev pub NamesNamespace : String → String → Type 0
NamesNamespace grant ns =
    (grant ≡ "*")
    ⊎ ((grant ≢ "") × (entry : String) × Memᴰ entry (split_comma grant) × (trim_space entry ≡ ns))

any-false_iff :
    (uid : String) (items : List Application)
    → (any (λ (a : Application). a.uid == uid) items ≡ false)
      ↔ All (λ (a : Application). a.uid ≢ uid) items
any-false_iff uid [] = (λ _. tt, λ _. refl)
any-false_iff uid (a ∷ items) = ground (arith, any-false_iff uid items, eq_iff a.uid uid)

entry_of_any :
    (ns : String) (entries : List String)
    → any (λ allowed. trim_space allowed == ns) entries ≡ true
    → (entry : String) × Memᴰ entry entries × (trim_space entry ≡ ns)
entry_of_any ns [] h = absurd (cc)
entry_of_any ns (e ∷ entries) h = elim (Bool-cases (trim_space e == ns)) [
  | inl same ↦ (e, Memᴰ.head refl, (eq_iff _ _).0 same)
  | inr other ↦ let (x, m, p) = entry_of_any ns entries (ground arith) in (x, Memᴰ.tail m, p)
]

any_of_entry :
    (ns entry : String) (entries : List String)
    → Memᴰ entry entries
    → trim_space entry ≡ ns
    → any (λ allowed. trim_space allowed == ns) entries ≡ true
any_of_entry ns entry [] m h = elim m [ ]
any_of_entry ns entry (x ∷ xs) (Memᴰ.head p) h = ground (arith, eq_iff (trim_space x) ns)
any_of_entry ns entry (x ∷ xs) (Memᴰ.tail m) h = ground (arith, any_of_entry ns entry xs m h)

grants_iff : (grant ns : String) → (grants grant ns ≡ true) ↔ NamesNamespace grant ns
unfolding grants
grants_iff grant ns = (
  λ h. elim (Bool-cases (grant == "*")) [
    | inl star ↦ inl ((eq_iff _ _).0 star)
    | inr other ↦
        let (entry, m, p) = entry_of_any ns (split_comma grant) (ground arith) in
        inr (ground (arith, eq_iff grant "", eq_refl ""), entry, m, p)
  ],
  λ h. elim h [
    | inl star ↦ rw star
    | inr (nonempty, entry, m, p) ↦
        ground (arith, eq_iff grant "", any_of_entry ns entry (split_comma grant) m p)
  ],
)

module _ {W : Type 0} (c : Client W) where
  abbrev OwnerGone : String → W → Type 0
  OwnerGone uid w =
      (uid ≡ "")
      ⊎ ((items : List Application) × ((c.list_applications w).0 ≡ ok items)
          × All (λ (a : Application). a.uid ≢ uid) items)

  -- The world that the check of the owner leaves: it lists the Applications unless there is no UID.
  abbrev pub after_check : String → W → W
  after_check uid w = if uid == "" then w else (c.list_applications w).1

  abbrev Granted : String → String → W → Type 0
  Granted owner_namespace adopting_namespace w =
      (ns : Namespace) × ((c.get_namespace owner_namespace w).0 ≡ ok ns)
      × NamesNamespace (lookup ns.annotations allow_bucket_adoption_from_annotation)
          adopting_namespace

  abbrev pub MayAdopt : String → String → String → W → Type 0
  MayAdopt owner_uid owner_namespace adopting_namespace w =
      OwnerGone owner_uid w
      × (owner_namespace ≢ "")
      × ((owner_namespace ≡ adopting_namespace)
          ⊎ Granted owner_namespace adopting_namespace (after_check owner_uid w))

  exists_world :
      (uid : String) (w : W) → (application_exists_with_uid c uid w).1 ≡ after_check uid w
  unfolding application_exists_with_uid
  exists_world uid w = ground arith

  exists-false_iff :
      (uid : String) (w : W)
      → ((application_exists_with_uid c uid w).0 ≡ ok false) ↔ OwnerGone uid w
  unfolding application_exists_with_uid
  exists-false_iff uid w = elim (Bool-cases (uid == "")) [
    | inl absent ↦ (λ _. inl ((eq_iff _ _).0 absent), λ _. ground arith)
    | inr present ↦ elim (Result-cases (c.list_applications w).0) [
      | inl (items, e) ↦ (
        λ h. inr (items, e, (any-false_iff uid items).0 (ground arith)),
        λ h. elim h [
          | inl absent ↦ ground (arith, eq_iff uid "")
          | inr (items', e', all) ↦ ground (arith, any-false_iff uid items')
        ],
      )
      | inr (x, e) ↦ (
        λ h. ground arith,
        λ h. elim h [
          | inl absent ↦ ground (arith, eq_iff uid "")
          | inr (items', e', all) ↦ ground arith
        ],
      )
    ]
  ]

  allowed-true_iff :
      (owner adopting : String) (w : W)
      → ((cross_namespace_adoption_allowed c owner adopting w).0 ≡ ok true)
        ↔ Granted owner adopting w
  unfolding cross_namespace_adoption_allowed
  allowed-true_iff owner adopting w = elim (Result-cases (c.get_namespace owner w).0) [
    | inl (ns, e) ↦
        let iff =
          grants_iff (lookup ns.annotations allow_bucket_adoption_from_annotation) adopting in
        (
          λ h. (ns, e, iff.0 (ground arith)),
          λ (ns', e', n). ground (
            arith,
            grants_iff (lookup ns'.annotations allow_bucket_adoption_from_annotation) adopting,
          ),
        )
    | inr (x, e) ↦ (λ h. ground arith, λ (ns', e', n). ground arith)
  ]

  -- The adoption is allowed exactly if no Application has the owner's UID (an empty UID counts as
  -- gone, an error of the listing does not), the owner's namespace is recorded, and it is the
  -- adopting namespace or carries a grant that names the adopting one.
  pub evaluate-ok_iff :
      (owner_uid owner_namespace adopting_namespace : String) (w : W)
      → ((evaluate_bucket_adoption c owner_uid owner_namespace adopting_namespace w).0 ≡ ok tt)
        ↔ MayAdopt owner_uid owner_namespace adopting_namespace w
  unfolding evaluate_bucket_adoption
  evaluate-ok_iff uid owner adopting w = ground (
    arith,
    exists_world uid w,
    exists-false_iff uid w,
    allowed-true_iff owner adopting (after_check uid w),
    eq_iff owner "",
    eq_iff owner adopting,
  )
