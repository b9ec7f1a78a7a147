-- ===== src/Policy/MarkerClaims.antt =====
-- An Akamai bucket whose marker names an owner: what claimOrVerifyOwnership of
-- internal/controller/akamaiobjstr/obj_storage.go and the check of cleanup.go make of the owner and of
-- another Application, whatever their connections let them read.
use forge_operator.Prelude.{
  String, false, ◌≡◌, ◌≢◌, refl, ap, subst, ◌⊎◌, inl, inr, Result, ok, err, is_ok, arith, eq_iff,
  eq_refl, some, none, Option,
}
use forge_operator.Policy.{marked, unknown, MayOwn}
use forge_operator.Policy.Living.{Lives, IsAnother, living_keeps_akamai}
use forge_operator.Policy.Markers.{Names, IsReading, of_bucket}
use forge_operator.S3.Session.{Session}
use forge_operator.S3.Ownership.{ownership_id}
use forge_operator.Akamai.Session.{ObjectApi, AkamaiEnv, AkamaiManager}
use forge_operator.Akamai.Ownership.{parse_owner_marker, claim_marker, claim_found, claim_marked}
use forge_operator.Akamai.Ownership.Policy.{owner_of, marker_evidence, marker_reply, after_marker}
use forge_operator.Akamai.Ownership.Refusal.{ReadsOnly, claim_marker_refused}
use forge_operator.Akamai.Cleanup.{confirm_from, confirm_ownership}

module _ {W : Type 0} (env : AkamaiEnv W) (region bucket : String) (stored : W → Option String)
    (uid ns id : String) where
  -- a body that is read is parsed as the owner's marker
  parses :
      (marker : Option String) (text : String)
      → Names env region bucket stored uid ns id marker
      → marker ≡ some text
      → parse_owner_marker env text ≡ (record { uid = uid; namespace = ns; id = id }, false)
  parses marker text names reads = subst (Names env region bucket stored uid ns id) reads names

  reading-evidence :
      (marker : Option String) (r : Result (Result String))
      → Names env region bucket stored uid ns id marker
      → IsReading env region bucket stored marker r
      → (marker_evidence env r ≡ unknown) ⊎ (marker_evidence env r ≡ marked uid ns id)
  reading-evidence none r names reads = elim names [ ]
  reading-evidence (some body) (err e) names reads = inl (rw reads refl)
  reading-evidence (some body) (ok (err e)) names reads = inl refl
  reading-evidence (some body) (ok (ok text)) names reads =
      inr (ap owner_of (parses (some body) text names reads))

  -- The Application is the owner, with the namespace and the ownership ID of the marker.
  abbrev pub IsOwner : Session W → Type 0
  IsOwner s = (s.app.uid ≡ uid) × (s.app.namespace ≡ ns) × (ownership_id s.app ≡ id)

  module _ (m : AkamaiManager W) (objects : ObjectApi W) where
    abbrev at : AkamaiManager W
    at = of_bucket env region bucket stored m

    -- the reply of GetObject to `s` is a reading of the marker
    abbrev pub Reads : Option String → Session W → Type 0
    Reads marker s = IsReading env region bucket stored marker (marker_reply env at objects s)

    found_by_owner :
        (marker : Option String) (r : Result (Result String)) (t : Session W)
        → Names env region bucket stored uid ns id marker
        → IsReading env region bucket stored marker r
        → IsOwner t
        → (claim_found env at objects r t).1 ≡ t
    unfolding claim_found claim_marked
    found_by_owner marker (err e) t names reads own = rw reads refl
    found_by_owner marker (ok (err e)) t names reads own = refl
    found_by_owner marker (ok (ok text)) t names reads (same, place, ticket) = ground (
      arith,
      parses marker text names reads,
      same,
      place,
      ticket,
      eq_refl uid,
      eq_refl ns,
      eq_refl id,
    )

    confirmed_by_another :
        (marker : Option String) (r : Result (Result String)) (t : Session W)
        → Names env region bucket stored uid ns id marker
        → IsReading env region bucket stored marker r
        → uid ≢ t.app.uid
        → (is_ok (confirm_from env at objects r t).0 ≡ false)
          × ((confirm_from env at objects r t).1 ≡ t)
    unfolding confirm_from
    confirmed_by_another marker (err e) t names reads other = rw reads (refl, refl)
    confirmed_by_another marker (ok (err e)) t names reads other = (refl, refl)
    confirmed_by_another marker (ok (ok text)) t names reads other =
        ground (arith, parses marker text names reads, eq_iff uid t.app.uid)

    pub another_claims :
        (marker : Option String) (s : Session W)
        → Names env region bucket stored uid ns id marker
        → Reads marker s
        → Lives env.k8s uid (after_marker env at objects s).world
        → IsAnother uid id s.app
        → ReadsOnly env at objects (after_marker env at objects s) (claim_marker env at objects s).1
    another_claims marker s names reads lives another =
        elim (reading-evidence marker (marker_reply env at objects s) names reads) [
          | inl dark ↦
              (claim_marker_refused env at objects s (λ h.
                subst
                  (λ e.
                    MayOwn env.k8s bucket (env.now (after_marker env at objects s).world) e
                      (after_marker env at objects s))
                  dark h)).1
          | inr found ↦ (living_keeps_akamai env at objects s uid ns id found lives another).1
        ]

    -- The owner's claim writes nothing.
    pub owner_claims :
        (marker : Option String) (s : Session W)
        → Names env region bucket stored uid ns id marker
        → Reads marker s
        → IsOwner s
        → (claim_marker env at objects s).1 ≡ after_marker env at objects s
    unfolding claim_marker
    owner_claims marker s names reads own =
        found_by_owner marker (marker_reply env at objects s) (after_marker env at objects s) names
          reads own

    pub another_confirms :
        (marker : Option String) (s : Session W)
        → Names env region bucket stored uid ns id marker
        → Reads marker s
        → IsAnother uid id s.app
        → (is_ok (confirm_ownership env at objects s).0 ≡ false)
          × ((confirm_ownership env at objects s).1 ≡ after_marker env at objects s)
    unfolding confirm_ownership
    another_confirms marker s names reads another =
        confirmed_by_another marker (marker_reply env at objects s) (after_marker env at objects s)
          names reads another.0
