-- ===== src/Controller/Storage/Previous.antt =====
-- internal/controller/storage.go: ensureStorageOwnershipID, and cleanupPreviousStorage for the storage
-- that an Application had before.
use forge_operator.Prelude.{
  String, none, not, insert, lookup, Exec, ◌>>=◌, ◌>>◌, mapping_error, ok, wrap, ◌==◌,
  if◌then◌else◌,
}
use forge_operator.Api.{Application, StorageStatus}
use forge_operator.Naming.Names.{storage_ownership_id_annotation}
use forge_operator.Storage.{storage_spec_from_status}
use forge_operator.StorageConditions.{type_storage_ready}
use forge_operator.S3.Session.{Session, on_world}
use forge_operator.Controller.Session.{Reconciler, modify, on_snapshot, retry_status_update}
use forge_operator.Controller.Finalizer.{finalize_application, with_storage}

abbrev pub annotated : String → Application → Application
annotated id app = record app {
  metadata = record (app.metadata) {
    annotations = insert app.annotations storage_ownership_id_annotation id;
  };
}

module _ {W : Type 0} (r : Reconciler W) where
  abbrev generate : Exec (Session W) String
  generate s = let (id, w) = r.new_uuid s.world in (ok id, record s { world = w })

  abbrev pub persist_ownership_id : String → Exec (Session W) (Unit {0})
  persist_ownership_id id s =
      (mapping_error (λ e. wrap "failed to persist storage ownership ID: " e "")
            (on_world (
              r.platform.k8s.apply_annotation s.app.namespace s.app.name
                storage_ownership_id_annotation id))
          >> modify (annotated id))
        s

  unfoldable pub ensure_storage_ownership_id : Exec (Session W) (Unit {0})
  ensure_storage_ownership_id s =
      if not (lookup s.app.annotations storage_ownership_id_annotation == "")
      then (ok tt, s)
      else (generate >>= persist_ownership_id) s

  -- Status.Storage = nil, without the condition StorageReady
  abbrev pub without_storage : Application → Application
  without_storage app = record app {
    status = record (app.status) {
      conditions = r.remove_status_condition app.status.conditions type_storage_ready;
      storage = none;
    };
  }

  unfoldable pub cleanup_previous_storage : StorageStatus → Exec (Session W) (Unit {0})
  cleanup_previous_storage old s =
      (mapping_error (λ e. wrap "failed to clean up previously provisioned storage: " e "")
            (on_snapshot (with_storage (storage_spec_from_status old) s.app)
              (finalize_application r))
          >> (modify without_storage
              >> mapping_error (λ e. wrap "failed to clear storage status after cleanup: " e "")
                  (retry_status_update r)))
        s
