-- ===== src/Policy/Holder.antt =====
-- An S3 bucket whose tags name an owner: what claimOrVerifyOwnership and verifyOwnership of
-- internal/controller/s3 make of the owner and of another Application.
use forge_operator.Prelude.{
  String, true, List, some, ◌≡◌, ◌≢◌, refl, subst, inl, inr, Result, ok, err, is_ok, arith, eq_iff,
  eq_refl, Bool-cases, Option-cases,
}
use forge_operator.Policy.{marked}
use forge_operator.S3.Session.{Tag, Env, Session, Manager}
use forge_operator.S3.Ownership.{
  owner_tag_key, owner_namespace_tag_key, ownership_id_tag_key, has_code, ownership_id,
  no_such_tag_set_error_code, no_owner, claim_tagged, claim_from, claim_or_verify_ownership,
  verify_from, verify_ownership,
}
use forge_operator.S3.Ownership.Tags.{last_value, value_or, note_tags_lem}
use forge_operator.S3.Ownership.Claim.{reply, after_reply}
use forge_operator.S3.Ownership.Stable.{TagStore, first_owner-last}
use forge_operator.S3.Ownership.Refines.{tag_evidence, owner_evidence}

-- The tags name this owner, namespace and ownership ID.
abbrev pub Naming : String → String → String → List Tag → Type 0
Naming uid ns id tags =
    (last_value owner_tag_key tags ≡ some uid)
    × (value_or (last_value owner_namespace_tag_key tags) "" ≡ ns)
    × (value_or (last_value ownership_id_tag_key tags) "" ≡ id)

pub evidence-Naming :
    (r : Result (List Tag)) (uid ns id : String)
    → tag_evidence r ≡ marked uid ns id
    → (tags : List Tag) × (r ≡ ok tags) × Naming uid ns id tags
evidence-Naming (err e) uid ns id h = elim (Bool-cases (has_code e no_such_tag_set_error_code)) [
  | inl untagged ↦ absurd (ground (arith, untagged))
  | inr other ↦ absurd (ground (arith, other))
]
evidence-Naming (ok tags) uid ns id h = elim (Option-cases (last_value owner_tag_key tags)) [
  | inl e ↦ absurd (cc)
  | inr (u, e) ↦
      let named : owner_evidence (some u) tags ≡ marked uid ns id =
        subst (λ o. owner_evidence o tags ≡ marked uid ns id) e h in
      (tags, refl, (cc, cc, cc))
]

module _ {W : Type 0} (env : Env W) (m : Manager W) where
  -- The owner finds its own tags complete, and writes nothing.
  pub owner_claims :
      (s : Session W)
      → tag_evidence (reply env m s) ≡ marked s.app.uid s.app.namespace (ownership_id s.app)
      → claim_or_verify_ownership env m s ≡ (ok tt, after_reply env m s)
  unfolding claim_or_verify_ownership claim_from claim_tagged
  owner_claims s h =
      let (tags, found, naming) =
        evidence-Naming (reply env m s) s.app.uid s.app.namespace (ownership_id s.app) h in
      ground (
        arith,
        found,
        naming,
        note_tags_lem no_owner tags,
        eq_refl s.app.uid,
        eq_refl s.app.namespace,
        eq_refl (ownership_id s.app),
      )

  -- The check before a deletion turns away an Application that the tags do not name.
  pub verify_turns_away :
      (store : TagStore env) (s : Session W) (uid ns id : String)
      → tag_evidence (reply env m s) ≡ marked uid ns id
      → uid ≢ s.app.uid
      → ¬ (is_ok (verify_ownership env m s).0 ≡ true)
  unfolding verify_ownership verify_from
  verify_turns_away store s uid ns id h other k =
      let (tags, found, naming) = evidence-Naming (reply env m s) uid ns id h in
      let first = first_owner-last tags (store.unique m.bucket s.world tags found) in
      ground (arith, found, first, naming, eq_iff uid s.app.uid)
