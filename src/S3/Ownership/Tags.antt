-- ===== src/S3/Ownership/Tags.antt =====
-- The tag sets of internal/controller/s3/desireds3.go: which value of a key the code acts on, and
-- what a rewrite of the ownership tags keeps.
use forge_operator.Prelude.{
  String, true, Option, none, some, List, [], ◌∷◌, ◌++◌, ◌≡◌, ◌≢◌, refl, arith, eq_iff, eq_refl,
  ◌==◌, if◌then◌else◌, is_some,
}
use forge_operator.Api.{Application}
use forge_operator.S3.Session.{Tag}
use forge_operator.S3.Ownership.{
  owner_tag_key, owner_namespace_tag_key, ownership_id_tag_key, OwnerTags, note_tag, note_tags,
  tags_excluding_owner, own_tags, owned_tags, first_owner, ownership_id,
}

-- The value of the last tag with the key.
abbrev pub or_else : Option String → Option String → Option String
or_else none b = b
or_else (some v) b = some v

abbrev pub value_or : Option String → String → String
value_or none d = d
value_or (some v) d = v

unfoldable pub last_value : String → List Tag → Option String
last_value k [] = none
last_value k (t ∷ ts) = or_else (last_value k ts) (if t.key == k then some t.value else none)

pub last_value-append :
    (k : String) (xs ys : List Tag)
    → last_value k (xs ++ ys) ≡ or_else (last_value k ys) (last_value k xs)
unfolding last_value
last_value-append k [] ys = ground arith
last_value-append k (x ∷ xs) ys = ground (arith, last_value-append k xs ys)

-- The loop over the tags keeps the last value of each of the three keys.
pub note_tags_lem :
    (o : OwnerTags) (ts : List Tag)
    → ((note_tags o ts).uid ≡ value_or (last_value owner_tag_key ts) o.uid)
      × ((note_tags o ts).namespace ≡ value_or (last_value owner_namespace_tag_key ts) o.namespace)
      × ((note_tags o ts).id ≡ value_or (last_value ownership_id_tag_key ts) o.id)
      × ((note_tags o ts).has_owner_tag
          ≡ (if is_some (last_value owner_tag_key ts) then true else o.has_owner_tag))
unfolding note_tags last_value note_tag
note_tags_lem o [] = (refl, refl, refl, refl)
note_tags_lem o (t ∷ ts) = ground (
  arith,
  note_tags_lem (note_tag o t) ts,
  eq_iff t.key owner_tag_key,
  eq_iff t.key owner_namespace_tag_key,
  eq_iff t.key ownership_id_tag_key,
  eq_iff owner_tag_key owner_namespace_tag_key,
  eq_iff owner_tag_key ownership_id_tag_key,
  eq_iff owner_namespace_tag_key ownership_id_tag_key,
)

abbrev pub IsForeignKey : String → Type 0
IsForeignKey k = (k ≢ owner_tag_key) × (k ≢ owner_namespace_tag_key) × (k ≢ ownership_id_tag_key)

pub last_value-excluding_ne :
    (k : String) (ts : List Tag)
    → IsForeignKey k
    → last_value k (tags_excluding_owner ts) ≡ last_value k ts
unfolding last_value tags_excluding_owner
last_value-excluding_ne k [] h = refl
last_value-excluding_ne k (t ∷ ts) h = ground (
  arith,
  last_value-excluding_ne k ts h,
  eq_iff t.key k,
  eq_iff t.key owner_tag_key,
  eq_iff t.key owner_namespace_tag_key,
  eq_iff t.key ownership_id_tag_key,
)

pub last_value-excluding_id :
    (ts : List Tag) → last_value ownership_id_tag_key (tags_excluding_owner ts) ≡ none
unfolding last_value tags_excluding_owner
last_value-excluding_id [] = refl
last_value-excluding_id (t ∷ ts) = ground (arith, last_value-excluding_id ts)

pub first_owner-excluding : (ts : List Tag) → first_owner (tags_excluding_owner ts) ≡ none
unfolding first_owner tags_excluding_owner
first_owner-excluding [] = refl
first_owner-excluding (t ∷ ts) = ground (arith, first_owner-excluding ts)

-- No tag has the owner's key exactly if the last value of that key is missing.
pub first_owner-none : (ts : List Tag) → last_value owner_tag_key ts ≡ none → first_owner ts ≡ none
unfolding first_owner last_value
first_owner-none [] h = refl
first_owner-none (t ∷ ts) h = ground (arith, first_owner-none ts)

pub first_owner-owned :
    (app : Application) (ts : List Tag)
    → first_owner ts ≡ none
    → first_owner (owned_tags app ts) ≡ some app.uid
unfolding first_owner owned_tags
first_owner-owned app [] h = ground (arith, eq_refl owner_tag_key)
first_owner-owned app (t ∷ ts) h = ground (arith, first_owner-owned app ts)

module _ (app : Application) (ts : List Tag) where
  pub last_value-owned_uid : last_value owner_tag_key (owned_tags app ts) ≡ some app.uid
  unfolding owned_tags last_value
  last_value-owned_uid = ground (arith, last_value-append owner_tag_key ts (own_tags app))

  pub last_value-owned_namespace :
      last_value owner_namespace_tag_key (owned_tags app ts) ≡ some app.namespace
  unfolding owned_tags last_value
  last_value-owned_namespace =
      ground (arith, last_value-append owner_namespace_tag_key ts (own_tags app))

  pub last_value-owned_id : last_value ownership_id_tag_key (owned_tags app ts) ≡ (
      if ownership_id app == ""
      then last_value ownership_id_tag_key ts
      else some (ownership_id app))
  unfolding owned_tags last_value
  last_value-owned_id = ground (arith, last_value-append ownership_id_tag_key ts (own_tags app))

  pub last_value-owned_foreign :
      (k : String) → IsForeignKey k → last_value k (owned_tags app ts) ≡ last_value k ts
  unfolding owned_tags last_value
  last_value-owned_foreign k h = ground (
    arith,
    last_value-append k ts (own_tags app),
    eq_iff owner_tag_key k,
    eq_iff owner_namespace_tag_key k,
    eq_iff ownership_id_tag_key k,
  )
