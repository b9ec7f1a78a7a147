-- ===== src/StorageConditions/Messages.antt =====
-- What the setters of internal/controller/storagestatus/storagestatus.go leave alone, and how long
-- their messages are, however long an error's text is.
use Prim.Native.String.{len, slice}
use text.Mathlib.TextPositions.{len-append}
use forge_operator.Prelude.{ℕ, ◌-◌, ◌≤◌, String, Option, none, some, ◌≡◌, ◌≢◌, refl, Error, arith}
use forge_operator.Api.{Application, Condition, StorageStatus, condition_false}
use forge_operator.Naming.Names.RoleNames.{len-slice}
use forge_operator.Status.Manager.{Setter}
use forge_operator.Status.Manager.Conditions.{find_condition, IsSetter}
use forge_operator.StorageConditions.{
  type_storage_ready, truncate_message, about, set_not_owned, set_retained, set_storage_ready,
  set_not_ready, set_cleanup_in_progress, set_cleanup_failed,
}

len-truncate_message : (t : String) (n : ℕ) → 3 ≤ n → len (truncate_message t n) ≤ n
unfolding truncate_message
len-truncate_message t n h =
    ground (arith, len-append (slice t 0 (n - 3)) "...", len-slice t (n - 3))

len-about :
    (without before : String) (e : Option Error)
    → len without ≤ 58
    → len before ≤ 30
    → len (about without before e) ≤ 280
len-about without before none h k = omega (arith, h)
len-about without before (some e) h k =
    ground (arith, len-append before (truncate_message e.text 250), len-truncate_message e.text 250)

module _ (set : Setter) (setter : IsSetter set) where
  -- StorageReady is false with this reason, and its message has at most 280 bytes.
  abbrev pub SaysBriefly : String → Application → Type 0
  SaysBriefly reason app =
      (c : Condition) × (find_condition type_storage_ready app.status.conditions ≡ some c)
      × (c.status ≡ condition_false)
      × (c.reason ≡ reason)
      × (len c.message ≤ 280)

  -- If meta.SetStatusCondition is as documented, each of the three failures leaves StorageReady
  -- false with the reason of its own and a message of at most 280 bytes, however long the text of
  -- the error is.
  pub failures_brief :
      (app : Application) (e : Option Error)
      → SaysBriefly "BucketNotOwned" (set_not_owned set app e)
        × SaysBriefly "BucketConfigurationFailed" (set_not_ready set app e)
        × SaysBriefly "BucketCleanupFailed" (set_cleanup_failed set app e)
  unfolding set_not_owned set_not_ready set_cleanup_failed
  failures_brief app e = (
    (
      _,
      setter.found app.status.conditions _,
      refl,
      refl,
      len-about _ _ e (omega arith) (omega arith),
    ),
    (
      _,
      setter.found app.status.conditions _,
      refl,
      refl,
      len-about _ _ e (omega arith) (omega arith),
    ),
    (
      _,
      setter.found app.status.conditions _,
      refl,
      refl,
      len-about _ _ e (omega arith) (omega arith),
    ),
  )

  -- The two have the same condition of this type.
  abbrev pub Same : String → Application → Application → Type 0
  Same type a b = find_condition type a.status.conditions ≡ find_condition type b.status.conditions

  -- If meta.SetStatusCondition is as documented, no transition of the storage touches a condition
  -- of another type, such as Ready, Progressing and Degraded.
  pub others_kept :
      (app : Application) (type : String) (e : Option Error) (bucket message : String)
      (st : Option StorageStatus)
      → type ≢ type_storage_ready
      → Same type (set_not_owned set app e) app
        × Same type (set_retained set app bucket) app
        × Same type (set_storage_ready set app st message) app
        × Same type (set_not_ready set app e) app
        × Same type (set_cleanup_in_progress set app) app
        × Same type (set_cleanup_failed set app e) app
  unfolding set_not_owned set_retained set_storage_ready set_not_ready set_cleanup_in_progress
      set_cleanup_failed
  others_kept app type e bucket message st h =
      let kept = λ (c : Condition). setter.kept app.status.conditions c type in
      (kept _ h, kept _ h, kept _ h, kept _ h, kept _ h, kept _ h)
