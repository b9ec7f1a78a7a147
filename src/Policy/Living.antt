-- ===== src/Policy/Living.antt =====
-- An Application that a bucket names lives: what the policy, and with it the two backends, make of the
-- claim of another one.
use forge_operator.Prelude.{
  String, true, false, List, [], ◌∷◌, ◌≡◌, ◌≢◌, ◌⊎◌, inl, inr, ok, is_ok, All, sym, ap, subst, ◌∙◌,
}
use mathlib.Core.List.{Memᴰ}
use forge_operator.Api.{Application, Time}
use forge_operator.Cluster.{Client}
use forge_operator.Policy.{marked, MayOwn}
use forge_operator.S3.Session.{Env, Session, Manager}
use forge_operator.S3.Ownership.{claim_or_verify_ownership, ownership_id}
use forge_operator.S3.Ownership.Claim.{reply, after_reply}
use forge_operator.S3.Ownership.Refusal.{is_refusal, OnlyReads, claim_refused}
use forge_operator.S3.Ownership.Refines.{tag_evidence, Entitled-iff}
use forge_operator.Akamai.Session.{ObjectApi, AkamaiEnv, AkamaiManager}
use forge_operator.Akamai.Ownership.{claim_marker}
use forge_operator.Akamai.Ownership.Policy.{marker_evidence, marker_reply, after_marker}
use forge_operator.Akamai.Ownership.Refusal.{ReadsOnly, claim_marker_refused}

-- An Application with this UID is listed.
abbrev pub Lives : {W : Type 0} → Client W → String → W → Type 0
Lives k8s uid w =
    (owner : Application) × (items : List Application) × ((k8s.list_applications w).0 ≡ ok items)
    × Memᴰ owner items
    × (owner.uid ≡ uid)
    × (uid ≢ "")

-- The Application is another one: neither its UID nor its ownership ID is this.
abbrev pub IsAnother : String → String → Application → Type 0
IsAnother uid id app = (uid ≢ app.uid) × ((ownership_id app ≡ "") ⊎ (id ≢ ownership_id app))

All-Memᴰ :
    (uid : String) (owner : Application) (items : List Application)
    → Memᴰ owner items
    → All (λ (a : Application). a.uid ≢ uid) items
    → owner.uid ≢ uid
All-Memᴰ uid owner [] member h k = elim member [ ]
All-Memᴰ uid owner (a ∷ items) (Memᴰ.head e) (h, hs) k =
    h (ap (λ (b : Application). b.uid) (sym e) ∙ k)
All-Memᴰ uid owner (a ∷ items) (Memᴰ.tail r) (h, hs) k = All-Memᴰ uid owner items r hs k

module _ {W : Type 0} (k8s : Client W) (bucket : String) (now : Time) where
  living_keeps :
      (uid ns id : String) (t : Session W)
      → Lives k8s uid t.world
      → IsAnother uid id t.app
      → ¬ (MayOwn k8s bucket now (marked uid ns id) t)
  living_keeps uid ns id t (owner, items, listed, member, same, named) (foreign, unmatched) h =
      elim h [
        | inl own ↦ foreign own
        | inr (inl (some_id, equal)) ↦ elim unmatched [
          | inl no_id ↦ some_id no_id
          | inr other ↦ other equal
        ]
        | inr (inr (_, (inl empty, _, _))) ↦ named empty
        | inr (inr (_, (inr (items', listed', gone), _, _))) ↦
            let agree : items' ≡ items = cc in
            All-Memᴰ uid owner items member
              (subst (λ l. All (λ (a : Application). a.uid ≢ uid) l) agree gone) same
      ]

-- While an Application with the UID on the owner tag is listed, the claim of every other one, with
-- another UID and without the ownership ID on the tags, fails with ErrBucketNotOwned, also where it
-- asks for the adoption, and nothing is written.
pub living_keeps_s3 :
    {W : Type 0} (env : Env W) (m : Manager W) (s : Session W) (uid ns id : String)
    → tag_evidence (reply env m s) ≡ marked uid ns id
    → Lives env.k8s uid (after_reply env m s).world
    → IsAnother uid id s.app
    → (is_refusal env m (claim_or_verify_ownership env m s).0 ≡ true)
      × OnlyReads env m (after_reply env m s) (claim_or_verify_ownership env m s).1
living_keeps_s3 env m s uid ns id found lives another =
    let t = after_reply env m s in
    claim_refused env m s (λ h.
      living_keeps env.k8s m.bucket (env.now t.world) uid ns id t lives another (
        subst (λ e. MayOwn env.k8s m.bucket (env.now t.world) e t) found
          ((Entitled-iff env m (reply env m s) t).0 h)))

-- While an Application with the UID on the marker object is listed, the claim of every other one,
-- with another UID and without the ownership ID of the marker, fails, also where it asks for the
-- adoption, and nothing is written.
pub living_keeps_akamai :
    {W : Type 0} (env : AkamaiEnv W) (m : AkamaiManager W) (objects : ObjectApi W) (s : Session W)
    (uid ns id : String)
    → marker_evidence env (marker_reply env m objects s) ≡ marked uid ns id
    → Lives env.k8s uid (after_marker env m objects s).world
    → IsAnother uid id s.app
    → (is_ok (claim_marker env m objects s).0 ≡ false)
      × ReadsOnly env m objects (after_marker env m objects s) (claim_marker env m objects s).1
living_keeps_akamai env m objects s uid ns id found lives another =
    let t = after_marker env m objects s in
    claim_marker_refused env m objects s (λ h.
      living_keeps env.k8s m.bucket (env.now t.world) uid ns id t lives another
        (subst (λ e. MayOwn env.k8s m.bucket (env.now t.world) e t) found h))
