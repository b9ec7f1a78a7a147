-- ===== src/S3/Ownership/Refines.antt =====
-- claimOrVerifyOwnership of internal/controller/s3/desireds3.go against the ownership policy, on the
-- evidence of the bucket's tags.
use forge_operator.Prelude.{
  String, true, Option, none, some, List, ◌≡◌, ◌↔◌, Result, ok, err, is_ok, if◌then◌else◌, arith,
  Option-cases, Bool-cases, inl, inr,
}
use forge_operator.Policy.{Evidence, unmarked, marked, unknown, MayOwn}
use forge_operator.S3.Session.{Tag, Env, Session, Manager}
use forge_operator.S3.Ownership.{
  owner_tag_key, owner_namespace_tag_key, ownership_id_tag_key, no_such_tag_set_error_code,
  has_code, claim_or_verify_ownership,
}
use forge_operator.S3.Ownership.Tags.{last_value, value_or}
use forge_operator.S3.Ownership.Claim.{
  code_iff, Entitled, reply, after_reply, claim_sound, claim_complete, PutsSucceed,
}

abbrev pub owner_evidence : Option String → List Tag → Evidence
owner_evidence none tags = unmarked
owner_evidence (some uid) tags =
    marked uid (value_or (last_value owner_namespace_tag_key tags) "")
      (value_or (last_value ownership_id_tag_key tags) "")

-- Of several tags of one key the last one counts.
abbrev pub tag_evidence : Result (List Tag) → Evidence
tag_evidence (err e) = if has_code e no_such_tag_set_error_code then unmarked else unknown
tag_evidence (ok tags) = owner_evidence (last_value owner_tag_key tags) tags

module _ {W : Type 0} (env : Env W) (m : Manager W) where
  pub Entitled-iff :
      (r : Result (List Tag)) (t : Session W)
      → Entitled env m r t ↔ MayOwn env.k8s m.bucket (env.now t.world) (tag_evidence r) t
  Entitled-iff (err e) t = elim (Bool-cases (has_code e no_such_tag_set_error_code)) [
    | inl untagged ↦ rw untagged (ground (arith, untagged, code_iff e no_such_tag_set_error_code))
    | inr other ↦ rw other (ground (arith, other, code_iff e no_such_tag_set_error_code))
  ]
  Entitled-iff (ok tags) t = elim (Option-cases (last_value owner_tag_key tags)) [
    | inl e ↦ rw e ((λ h. h), λ h. h)
    | inr (uid, e) ↦ rw e ((λ h. h), λ h. h)
  ]

  -- If the SDK accepts every tag set, a claim succeeds exactly if the policy lets the Application own
  -- the bucket, by the evidence of the tags and at the time that reading them leaves.
  pub claim_refines :
      (s : Session W)
      → PutsSucceed env m
      → (is_ok (claim_or_verify_ownership env m s).0 ≡ true)
        ↔ MayOwn env.k8s m.bucket
            (env.now (after_reply env m s).world)
            (tag_evidence (reply env m s))
            (after_reply env m s)
  claim_refines s puts =
      let (to, from) = Entitled-iff (reply env m s) (after_reply env m s) in
      ((λ h. to (claim_sound env m s h)), λ h. claim_complete env m s (from h) puts)
