-- ===== src/Akamai/Keys.antt =====
-- internal/controller/akamaiobjstr/obj_storage.go and cleanup.go: the Application's access key, which
-- is found by its label. Child Keeping: what the keys leave alone.
pub mod Keeping
use forge_operator.Prelude.{
  ℕ, String, Option, none, some, List, [], ◌∷◌, Exec, pure, try, ◌>>=◌, ◌>>◌, mapping_error, ok,
  err, Result, Error, wrap, nat_eq, not, ◌==◌, if◌then◌else◌, concat, decimal, lookup,
}
use forge_operator.Api.{Application}
use forge_operator.Cluster.{Secret}
use forge_operator.Naming.Names.{cloud_resource_name, storage_secret}
use forge_operator.S3.Session.{Session, on_world}
use forge_operator.Akamai.Session.{LinodeKey, AkamaiEnv, AkamaiManager, AccessKeyResult}

abbrev pub akamai_key_label_max_len : ℕ
akamai_key_label_max_len = 50

unfoldable pub access_key_label : (String → String) → Application → String
access_key_label sha256_hex app =
    cloud_resource_name sha256_hex (app.namespace ∷ app.name ∷ "key" ∷ []) akamai_key_label_max_len

-- the first key with the label
unfoldable pub find_key : String → List LinodeKey → Option LinodeKey
find_key label [] = none
find_key label (k ∷ ks) = if k.label == label then some k else find_key label ks

module _ {W : Type 0} (env : AkamaiEnv W) (m : AkamaiManager W) where
  abbrev secret_of : Result Secret → String
  secret_of (err e) = ""
  secret_of (ok secret) = lookup secret.entries "secret_key"

  -- never fails
  unfoldable pub recover_secret_key : Exec (Session W) String
  recover_secret_key s =
      (try (on_world (env.k8s.get_secret s.app.namespace (storage_secret s.app)))
          >>= (λ r. pure (secret_of r)))
        s

  abbrev label_of : Application → String
  label_of app = access_key_label env.sha256_hex app

  abbrev unusable : ℕ → Error → Error
  unusable id e =
      wrap (concat ("failed to delete unusable access key '" ∷ decimal id ∷ "': " ∷ [])) e ""

  -- the part of ensureAccessKey after the loop
  unfoldable pub create_key : String → Exec (Session W) AccessKeyResult
  create_key label =
      mapping_error (λ e. wrap "failed to create storage key: " e "")
        (on_world (env.akamai.create_object_storage_key label m.region m.bucket))
      >>= (λ key. pure (record { access_key = key.access_key; secret_key = key.secret_key }))

  -- a key that was found, with the secret that was recovered for it
  abbrev pub reuse_or_replace : String → LinodeKey → String → Exec (Session W) AccessKeyResult
  reuse_or_replace label key secret =
      if not (secret == "")
      then pure (record { access_key = key.access_key; secret_key = secret })
      else mapping_error (unusable key.id) (on_world (env.akamai.delete_object_storage_key key.id))
        >> create_key label

  abbrev pub use_key : String → Option LinodeKey → Exec (Session W) AccessKeyResult
  use_key label none = create_key label
  use_key label (some key) = recover_secret_key >>= reuse_or_replace label key

  unfoldable pub ensure_access_key : Exec (Session W) AccessKeyResult
  ensure_access_key s =
      (mapping_error (λ e. wrap "failed to list storage keys: " e "")
            (on_world env.akamai.list_object_storage_keys)
          >>= (λ keys. use_key (label_of s.app) (find_key (label_of s.app) keys)))
        s

  -- findAccessKeyIDByLabel: 0 where there is none
  abbrev pub id_or_zero : Option LinodeKey → ℕ
  id_or_zero none = 0
  id_or_zero (some k) = k.id

  unfoldable pub find_access_key_id_by_label : String → Exec (Session W) ℕ
  find_access_key_id_by_label label =
      on_world env.akamai.list_object_storage_keys
      >>= (λ keys. pure (id_or_zero (find_key label keys)))

  abbrev pub delete_key : ℕ → Exec (Session W) (Unit {0})
  delete_key id =
      if nat_eq id 0
      then pure tt
      else mapping_error
          (λ e. wrap (concat ("failed to delete access key '" ∷ decimal id ∷ "': " ∷ [])) e "")
          (on_world (env.akamai.delete_object_storage_key id))

  unfoldable pub delete_application_access_key : Exec (Session W) (Unit {0})
  delete_application_access_key s =
      (mapping_error
            (λ e.
              wrap (concat ("failed to locate access key '" ∷ label_of s.app ∷ "': " ∷ [])) e "")
            (find_access_key_id_by_label (label_of s.app))
          >>= delete_key)
        s
