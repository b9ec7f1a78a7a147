-- ===== src/Controller/Storage/Identity.antt =====
-- ensureStorageOwnershipID of internal/controller/storage.go: the ownership ID of an Application.
use forge_operator.Prelude.{
  String, true, ◌≡◌, ◌≢◌, ◌⊎◌, inl, inr, refl, is_ok, Result-cases, Bool-cases, arith, eq_iff,
  eq_refl, lookup-insert, ◌==◌,
}
use forge_operator.Naming.Names.{storage_ownership_id_annotation}
use forge_operator.S3.Session.{Session}
use forge_operator.S3.Ownership.{ownership_id}
use forge_operator.Controller.Session.{Reconciler}
use forge_operator.Controller.Storage.Previous.{ensure_storage_ownership_id}

module _ {W : Type 0} (r : Reconciler W) where
  -- the ID that would be made, and the world after that
  abbrev fresh : Session W → String × W
  fresh s = r.new_uuid s.world

  -- The API server accepted this ID as the annotation of the Application.
  abbrev pub WasPersisted : Session W → String → W → Type 0
  WasPersisted s id w =
      is_ok
        (r.platform.k8s.apply_annotation s.app.namespace s.app.name storage_ownership_id_annotation
          id w).0
      ≡ true

  -- If uuid.NewString never gives the empty text, an Application that ensureStorageOwnershipID has let
  -- pass has an ownership ID: it had one, and nothing was done, or it had none and the API server
  -- has accepted the ID that it has now.
  pub ensure-WasPersisted :
      (s : Session W)
      → ((w : W) → (r.new_uuid w).0 ≢ "")
      → is_ok (ensure_storage_ownership_id r s).0 ≡ true
      → (ownership_id (ensure_storage_ownership_id r s).1.app ≢ "")
        × ((ensure_storage_ownership_id r s).1 ≡ s
            ⊎ ((ownership_id s.app ≡ "")
                × WasPersisted s
                    (ownership_id (ensure_storage_ownership_id r s).1.app)
                    (r.new_uuid s.world).1))
  unfolding ensure_storage_ownership_id
  ensure-WasPersisted s named h =
      let (id, w) = r.new_uuid s.world in
      elim (Bool-cases (ownership_id s.app == "")) [
        | inr has ↦ rw has (ground (arith, has, eq_iff (ownership_id s.app) ""), inl refl)
        | inl none_yet ↦
            elim (Result-cases
              (r.platform.k8s.apply_annotation s.app.namespace s.app.name
                storage_ownership_id_annotation id w).0) [
                  | inr (e, refused) ↦ absurd (ground (arith, none_yet, refused))
                  | inl (a, accepted) ↦
                      let found =
                        lookup-insert s.app.annotations storage_ownership_id_annotation
                          storage_ownership_id_annotation id in
                      rw (none_yet, accepted, found, eq_refl storage_ownership_id_annotation)
                        (
                          named s.world,
                          inr (
                            ground (arith, none_yet, eq_iff (ownership_id s.app) ""),
                            ground (arith, accepted),
                          ),
                        )
                ]
      ]
