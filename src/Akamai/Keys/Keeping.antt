-- ===== src/Akamai/Keys/Keeping.antt =====
-- The access keys of internal/controller/akamaiobjstr touch nothing of the world that is apart from keys
-- and from the Secrets that hold them.
use forge_operator.Prelude.{
  ℕ, String, Option, none, some, ◌≡◌, Keeps, arith, Result-cases, inl, inr,
}
use forge_operator.Naming.Names.{storage_secret}
use forge_operator.S3.Session.{Session}
use forge_operator.Akamai.Session.{LinodeKey, AkamaiEnv, AkamaiManager}
use forge_operator.Akamai.Keys.{
  access_key_label, find_key, id_or_zero, recover_secret_key, create_key, reuse_or_replace, use_key,
  ensure_access_key, delete_application_access_key, find_access_key_id_by_label,
}

module _ {W : Type 0} (env : AkamaiEnv W) (m : AkamaiManager W) where
  app-use_key :
      (label : String) (found : Option LinodeKey) (s : Session W)
      → (use_key env m label found s).1.app ≡ s.app
  unfolding create_key recover_secret_key
  app-use_key label none s = ground arith
  app-use_key label (some key) s = ground arith

  pub app-ensure_access_key : (s : Session W) → (ensure_access_key env m s).1.app ≡ s.app
  unfolding ensure_access_key
  app-ensure_access_key s =
      let label = access_key_label env.sha256_hex s.app in
      let t = record s { world = (env.akamai.list_object_storage_keys s.world).1 } in
      elim (Result-cases (env.akamai.list_object_storage_keys s.world).0) [
        | inl (keys, listed) ↦ ground (arith, listed, app-use_key label (find_key label keys) t)
        | inr (e, failed) ↦ ground (arith, failed)
      ]

module _ {W : Type 0} {O : Type 0} (see : W → O) where
  -- Finding and deleting a key leaves what is seen as it is.
  pub record KeyDeletion (env : AkamaiEnv W) : Type 0 where
    pub list : (w : W) → Keeps see env.akamai.list_object_storage_keys w
    pub delete : (id : ℕ) (w : W) → Keeps see (env.akamai.delete_object_storage_key id) w

  -- Making a key, or finding its secret, leaves what is seen as it is.
  pub record KeyCreation (env : AkamaiEnv W) : Type 0 where
    pub create :
        (label region bucket : String) (w : W)
        → Keeps see (env.akamai.create_object_storage_key label region bucket) w
    pub get_secret : (ns name : String) (w : W) → Keeps see (env.k8s.get_secret ns name) w

  abbrev seen : Session W → O
  seen s = see s.world

  module _ (env : AkamaiEnv W) (m : AkamaiManager W) where
    pub delete_application_access_key-Keeps :
        (s : Session W) → KeyDeletion env → Keeps seen (delete_application_access_key env m) s
    unfolding delete_application_access_key find_access_key_id_by_label
    delete_application_access_key-Keeps s calls =
        let label = access_key_label env.sha256_hex s.app in
        elim (Result-cases (env.akamai.list_object_storage_keys s.world).0) [
          | inl (keys, listed) ↦ ground (
            arith,
            listed,
            calls.list s.world,
            calls.delete (id_or_zero env m (find_key label keys))
                (env.akamai.list_object_storage_keys s.world).1,
          )
          | inr (e, refused) ↦ ground (arith, refused, calls.list s.world)
        ]

    create_key-Keeps :
        (label : String) (s : Session W) → KeyCreation env → Keeps seen (create_key env m label) s
    unfolding create_key
    create_key-Keeps label s calls = ground (arith, calls.create label m.region m.bucket s.world)

    recover-Keeps : (s : Session W) → KeyCreation env → Keeps seen (recover_secret_key env m) s
    unfolding recover_secret_key
    recover-Keeps s calls =
        ground (arith, calls.get_secret s.app.namespace (storage_secret s.app) s.world)

    reuse-Keeps :
        (label : String) (key : LinodeKey) (secret : String) (s : Session W)
        → KeyDeletion env
        → KeyCreation env
        → Keeps seen (reuse_or_replace env m label key secret) s
    reuse-Keeps label key secret s deletes creates =
        let t = record s { world = (env.akamai.delete_object_storage_key key.id s.world).1 } in
        ground (arith, deletes.delete key.id s.world, create_key-Keeps label t creates)

    use_key-Keeps :
        (label : String) (found : Option LinodeKey) (s : Session W)
        → KeyDeletion env
        → KeyCreation env
        → Keeps seen (use_key env m label found) s
    use_key-Keeps label none s deletes creates = create_key-Keeps label s creates
    use_key-Keeps label (some key) s deletes creates =
        elim (Result-cases (recover_secret_key env m s).0) [
          | inl (secret, recovered) ↦ ground (
            arith,
            recovered,
            recover-Keeps s creates,
            reuse-Keeps label key secret (recover_secret_key env m s).1 deletes creates,
          )
          | inr (e, failed) ↦ ground (arith, failed, recover-Keeps s creates)
        ]

    pub ensure_access_key-Keeps :
        (s : Session W) → KeyDeletion env → KeyCreation env → Keeps seen (ensure_access_key env m) s
    unfolding ensure_access_key
    ensure_access_key-Keeps s deletes creates =
        let label = access_key_label env.sha256_hex s.app in
        let t = record s { world = (env.akamai.list_object_storage_keys s.world).1 } in
        elim (Result-cases (env.akamai.list_object_storage_keys s.world).0) [
          | inl (keys, listed) ↦ ground (
            arith,
            listed,
            deletes.list s.world,
            use_key-Keeps label (find_key label keys) t deletes creates,
          )
          | inr (e, failed) ↦ ground (arith, failed, deletes.list s.world)
        ]
