-- ===== src/Policy/Markers.antt =====
-- What the managers of several Applications, which share one Akamai bucket, leave alone of it: that it is
-- there, its marker and the list of Applications; and what reading the marker tells them.
use Prim.Native.String.{◌++◌}
use forge_operator.Prelude.{
  trim_prefix, ◌==◌, if◌then◌else◌, String, true, false, Option, none, some, List, ◌≡◌, subst, inl,
  inr, Result, Error, ok, err, Keeps, arith, Bool-cases,
}
use forge_operator.Api.{Application}
use forge_operator.Naming.Adoption.Keeping.{ClusterReads, evaluate_bucket_adoption-Keeps}
use forge_operator.S3.Session.{Session}
use forge_operator.Akamai.Session.{Connection, LinodeBucket, ObjectApi, AkamaiEnv, AkamaiManager}
use forge_operator.Akamai.Ownership.{owner_marker_key, parse_owner_marker}
use forge_operator.Akamai.Ownership.Refusal.{ReadsOnly}
use forge_operator.Akamai.Keys.Keeping.{KeyDeletion, KeyCreation}

module _ {W : Type 0} (env : AkamaiEnv W) (region bucket : String)
    (stored : W → Option String) where
  abbrev pub Sight : Type 0
  Sight = Result LinodeBucket × Option String × Result (List Application)

  -- `stored` is the body of the marker object, if there is one
  abbrev pub seen : W → Sight
  seen w = (
    (env.akamai.get_object_storage_bucket region bucket w).0,
    stored w,
    (env.k8s.list_applications w).0,
  )

  abbrev pub in_session : Session W → Sight
  in_session s = seen s.world

  -- the host at which Linode serves a bucket that it describes so
  abbrev host : LinodeBucket → String
  host found = if found.hostname == "" then region ++ ".linodeobjects.com" else found.hostname

  -- A connection to the cluster at which Linode says that the bucket is.
  abbrev pub IsGenuine : Connection → Type 0
  IsGenuine c =
      (c.region ≡ region)
      × ((found : LinodeBucket) × (w : W) × ((env.akamai.get_object_storage_bucket region bucket
              w).0
            ≡ ok found)
          × (c.cluster_endpoint ≡ trim_prefix (host found) (bucket ++ ".")))

  -- Reading and the access keys change none of the three; and whoever can read the marker object at the
  -- cluster of the bucket reads what is stored, and is told that there is none only if there is none.
  pub record MarkerStore : Type 0 where
    pub get_bucket : (w : W) → Keeps seen (env.akamai.get_object_storage_bucket region bucket) w
    pub get_marker :
        (c : Connection) (w : W) → Keeps seen ((env.objects c).get_object bucket owner_marker_key) w
    pub reading : ClusterReads seen env.k8s
    pub deleting : KeyDeletion seen env
    pub making : KeyCreation seen env
    pub read_body :
        (c : Connection) (w : W) (body : String)
        → IsGenuine c
        → ((env.objects c).get_object bucket owner_marker_key w).0 ≡ ok (ok body)
        → stored w ≡ some body
    pub read_none :
        (c : Connection) (w : W) (e : Error)
        → IsGenuine c
        → ((env.objects c).get_object bucket owner_marker_key w).0 ≡ err e
        → e.as_no_such_key ≡ true
        → stored w ≡ none

  -- the manager, with this bucket for its own, and a storage spec that sets no endpoint
  abbrev pub of_bucket : AkamaiManager W → AkamaiManager W
  of_bucket m = record m {
    region = region;
    bucket = bucket;
    storage = record (m.storage) { endpoint = "" };
  }

  -- The marker names this owner, namespace and ownership ID.
  abbrev pub Names : String → String → String → Option String → Type 0
  Names uid ns id none = ⊥
  Names uid ns id (some body) =
      parse_owner_marker env body ≡ (record { uid = uid; namespace = ns; id = id }, false)

  -- What a reading of the marker gives: its body, or an error other than that there is none.
  abbrev pub IsReading : Option String → Result (Result String) → Type 0
  IsReading marker (err e) = e.as_no_such_key ≡ false
  IsReading marker (ok (err e)) = Unit
  IsReading marker (ok (ok body)) = marker ≡ some body

  module _ (store : MarkerStore) where
    pub read-IsReading :
        (c : Connection) (w : W) (uid ns id : String)
        → IsGenuine c
        → Names uid ns id (stored w)
        → (r : Result (Result String))
        → ((env.objects c).get_object bucket owner_marker_key w).0 ≡ r
        → IsReading (stored w) r
    read-IsReading c w uid ns id genuine names (ok (ok body)) e = store.read_body c w body genuine e
    read-IsReading c w uid ns id genuine names (ok (err d)) e = tt
    read-IsReading c w uid ns id genuine names (err d) e = elim (Bool-cases d.as_no_such_key) [
      | inl missing ↦
          absurd (subst (Names uid ns id) (store.read_none c w d genuine e missing) names)
      | inr other ↦ other
    ]

    pub ReadsOnly-seen :
        (m : AkamaiManager W) (objects : ObjectApi W) (t u : Session W)
        → ReadsOnly env m objects t u
        → in_session u ≡ in_session t
    ReadsOnly-seen m objects t u (inl e) = ground arith
    ReadsOnly-seen m objects t u (inr (uid, ns, e)) = ground (
      arith,
      evaluate_bucket_adoption-Keeps seen env.k8s store.reading uid ns t.app.namespace t.world,
    )
