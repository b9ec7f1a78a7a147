-- ===== src/Akamai/Ownership.antt =====
-- internal/controller/akamaiobjstr/obj_storage.go: claimOrVerifyOwnership, which asks a marker object
-- inside the bucket whether the Application owns it. Children: Policy (when it claims), Refusal (what
-- becomes of others).
pub mod Policy
pub mod Refusal
use forge_operator.Prelude.{
  String, Bool, true, false, not, ◌&&◌, ◌||◌, Option, none, some, [], ◌∷◌, Exec, pure, fail, try,
  ◌>>=◌, ◌>>◌, mapping_error, ok, err, Result, Error, new_error, wrap, ◌==◌, if◌then◌else◌, concat,
}
use forge_operator.Api.{provider_akamai_object_storage}
use forge_operator.Naming.Adoption.{evaluate_bucket_adoption}
use forge_operator.S3.Session.{bucket_adopted, ownership_reclaimed, Session, on_world, increment}
use forge_operator.S3.Ownership.{adopt_bucket_requested, ownership_id, recently_created}
use forge_operator.Akamai.Session.{ObjectApi, OwnerMarker, AkamaiEnv, AkamaiManager}

abbrev pub owner_marker_key : String
owner_marker_key = ".forge-operator-owner"

-- ErrBucketNotOwned of this package
abbrev pub akamai_not_owned : Error
akamai_not_owned = record (new_error "bucket already exists and is not owned by forge-operator") {
  is_akamai_not_owned = true;
}

abbrev bare : String → OwnerMarker × Bool
bare body = (record { uid = body; namespace = ""; id = "" }, true)

abbrev parsed : String → Option OwnerMarker → OwnerMarker × Bool
parsed body none = bare body
parsed body (some o) = if o.uid == "" then bare body else (o, false)

module _ {W : Type 0} (env : AkamaiEnv W) where
  -- the marker, and whether it is a bare UID
  unfoldable pub parse_owner_marker : String → OwnerMarker × Bool
  parse_owner_marker body = parsed body (env.unmarshal body)

module _ {W : Type 0} (env : AkamaiEnv W) (m : AkamaiManager W) where
  abbrev pub was_created_by_us : Session W → Bool
  was_created_by_us s = recently_created m.bucket (env.now s.world) s.app.status.storage

module _ {W : Type 0} (env : AkamaiEnv W) (m : AkamaiManager W) (objects : ObjectApi W) where
  abbrev write_marker : Result String → Exec (Session W) (Unit {0})
  write_marker (err e) = fail (wrap "failed to encode ownership marker: " e "")
  write_marker (ok body) =
      mapping_error (λ e. wrap "failed to write ownership marker: " e "")
        (on_world (objects.put_object m.bucket owner_marker_key body))

  unfoldable pub claim_ownership : Exec (Session W) (Unit {0})
  claim_ownership s =
      write_marker
        (env.marshal
          (record { uid = s.app.uid; namespace = s.app.namespace; id = ownership_id s.app }))
        s

  -- the branch for a bucket without a marker
  unfoldable pub claim_unmarked : Exec (Session W) (Unit {0})
  claim_unmarked s =
      if was_created_by_us env m s
      then claim_ownership s
      else if adopt_bucket_requested s.app
      then (increment (bucket_adopted provider_akamai_object_storage) >> claim_ownership) s
      else (err akamai_not_owned, s)

  -- the part after parseOwnerMarker
  unfoldable pub claim_marked : OwnerMarker × Bool → Exec (Session W) (Unit {0})
  claim_marked (owner, legacy) s =
      if owner.uid == s.app.uid
      then (if legacy
            || (not (owner.namespace == s.app.namespace) || not (owner.id == ownership_id s.app))
          then claim_ownership s
          else (ok tt, s))
      else if not legacy && (not (ownership_id s.app == "") && (owner.id == ownership_id s.app))
      then (increment (ownership_reclaimed provider_akamai_object_storage) >> claim_ownership) s
      else if not (adopt_bucket_requested s.app)
      then (err akamai_not_owned, s)
      else (mapping_error (λ e. wrap "" akamai_not_owned (concat (": " ∷ e.text ∷ [])))
              (on_world (
                evaluate_bucket_adoption env.k8s owner.uid (if legacy then "" else owner.namespace)
                  s.app.namespace))
            >> (increment (bucket_adopted provider_akamai_object_storage) >> claim_ownership))
          s

  abbrev pub claim_read : Result String → Exec (Session W) (Unit {0})
  claim_read (err e) = fail (wrap "failed to read ownership marker: " e "")
  claim_read (ok body) = claim_marked (parse_owner_marker env body)

  unfoldable pub claim_found : Result (Result String) → Exec (Session W) (Unit {0})
  claim_found (err e) =
      if e.as_no_such_key
      then claim_unmarked
      else fail (
          wrap "" akamai_not_owned (concat (": could not verify ownership marker: " ∷ e.text ∷ [])))
  claim_found (ok body) = claim_read body

  unfoldable pub claim_marker : Exec (Session W) (Unit {0})
  claim_marker = do r ← try (on_world (objects.get_object m.bucket owner_marker_key)); claim_found r
