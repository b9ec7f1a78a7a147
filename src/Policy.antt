-- ===== src/Policy.antt =====
-- Who may own a bucket: what docs/authentication-and-storage.md promises, as one policy on the
-- evidence that a bucket carries. The backends in internal/controller/s3 and
-- internal/controller/akamaiobjstr read the evidence from tags and from a marker object; S3.Ownership.Refines
-- and Akamai.Ownership.Policy compare them with this policy. Children: Living (two Applications and one
-- bucket), Holder (the owner by the tags), Sharing (what their managers leave alone), Runs (what one run leaves), Visits (runs one after the other), and for Akamai Markers,
-- MarkerClaims, MarkerRuns, MarkerVisits.
pub mod Living
pub mod Holder
pub mod Sharing
pub mod Runs
pub mod Visits
pub mod Markers
pub mod MarkerClaims
pub mod MarkerRuns
pub mod MarkerVisits
use forge_operator.Prelude.{String, true, ◌≡◌, ◌≢◌, ◌⊎◌}
use forge_operator.Api.{Time}
use forge_operator.Cluster.{Client}
use forge_operator.Naming.Adoption.Entitlement.{MayAdopt}
use forge_operator.S3.Session.{Session}
use forge_operator.S3.Ownership.{adopt_bucket_requested, ownership_id}
use forge_operator.S3.Ownership.Claim.{CreatedWithin}

-- What a bucket says of its owner: nothing, the owner's UID, namespace and ownership ID, or it
-- cannot be read.
pub data Evidence : Type 0 where
  unmarked : Evidence
  marked : String → String → String → Evidence
  unknown : Evidence

module _ {W : Type 0} (k8s : Client W) (bucket : String) (now : Time) where
  -- Without a mark: the operator created the bucket just now, or the user asks to adopt it. With a
  -- mark: it is the Application's own, by UID or by ownership ID, or the user asks to adopt it and
  -- the owner is gone and its namespace does not stand against it.
  abbrev pub MayOwn : Evidence → Session W → Type 0
  MayOwn unmarked t =
      CreatedWithin bucket now t.app.status.storage ⊎ (adopt_bucket_requested t.app ≡ true)
  MayOwn (marked uid ns id) t =
      (uid ≡ t.app.uid)
      ⊎ ((ownership_id t.app ≢ "") × (id ≡ ownership_id t.app))
      ⊎ ((adopt_bucket_requested t.app ≡ true) × MayAdopt k8s uid ns t.app.namespace t.world)
  MayOwn unknown t = ⊥
