-- ===== src/StorageConditions.antt =====
-- internal/controller/storagestatus/storagestatus.go: the condition StorageReady. The callers'
-- Application is never nil. Child Messages: what the setters leave alone, and how long a message is.
pub mod Messages
use Prim.Native.String.{◌++◌, len, slice}
use forge_operator.Prelude.{
  ℕ, ◌-◌, String, Option, none, some, [], ◌∷◌, Error, ltb, if◌then◌else◌, concat, quote,
}
use forge_operator.Api.{
  Application, Condition, ConditionStatus, StorageStatus, condition_true, condition_false,
}
use forge_operator.Status.Manager.{Setter, condition, with_conditions}

abbrev pub type_storage_ready : String
type_storage_ready = "StorageReady"

abbrev pub max_error_message_length : ℕ
max_error_message_length = 250

-- `message[:maxLength-3]` cuts bytes; here a character that is cut in two is left out whole.
unfoldable pub truncate_message : String → ℕ → String
truncate_message message max_length =
    if ltb max_length (len message) then slice message 0 (max_length - 3) ++ "..." else message

-- the message of a condition: `before`, and the error's text if there is an error
abbrev pub about : String → String → Option Error → String
about without before none = without
about without before (some e) = before ++ truncate_message e.text max_error_message_length

module _ (set : Setter) where
  abbrev pub put_condition : Condition → Application → Application
  put_condition c app = with_conditions (set app.status.conditions c).1 app

  -- A condition StorageReady of the Application.
  abbrev pub storage_condition : Application → ConditionStatus → String → String → Condition
  storage_condition app status reason message =
      condition app type_storage_ready status reason message

  unfoldable pub set_not_owned : Application → Option Error → Application
  set_not_owned app e =
      put_condition
        (storage_condition app condition_false "BucketNotOwned"
          (about "Bucket already exists and is not owned by forge-operator" "" e))
        app

  unfoldable pub set_retained : Application → String → Application
  set_retained app bucket =
      put_condition
        (storage_condition app condition_false "BucketRetained" (
          concat
            ("Bucket " ∷ quote bucket ∷ " retained per deletionPolicy: Retain (not deleted)" ∷ [])))
        app

  unfoldable pub set_storage_ready : Application → Option StorageStatus → String → Application
  set_storage_ready app storage_status message =
      put_condition (storage_condition app condition_true "BucketConfigured" message)
        (record app { status = record (app.status) { storage = storage_status } })

  unfoldable pub set_not_ready : Application → Option Error → Application
  set_not_ready app e =
      put_condition
        (storage_condition app condition_false "BucketConfigurationFailed"
          (about "Storage configuration failed" "Storage configuration failed: " e))
        app

  unfoldable pub set_cleanup_in_progress : Application → Application
  set_cleanup_in_progress app =
      put_condition
        (storage_condition app condition_false "BucketCleanup" "Storage cleanup in progress") app

  unfoldable pub set_cleanup_failed : Application → Option Error → Application
  set_cleanup_failed app e =
      put_condition
        (storage_condition app condition_false "BucketCleanupFailed"
          (about "Storage cleanup failed" "Storage cleanup failed: " e))
        app
