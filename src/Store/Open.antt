-- ===== src/Store/Open.antt =====
-- internal/store/file.go: `Open`, which loads the store, trims its history and settles the
-- operations that a previous process left unfinished.
pub mod Recovery
use k8s_panel.Base.{
  ℕ, ◌≡◌, Bool, true, false, ◌&&◌, not, ◌||◌, Option, none, some, List, [], ◌∷◌, if◌then◌else◌,
  Text, runes, is_empty, trim_space, ◌==◌, length, map,
}
use k8s_panel.Domain.{Operation, unknown, Failure, Result, ok, err, other, Error}
use k8s_panel.Store.State.{State, empty_state, current_schema_version}
use k8s_panel.Store.History.{in_flight, trim_operation_history, trim_audit_history}
use k8s_panel.Store.Disk.{Codec, Stored, absent, partial, whole, Disk, Call, persist}
use k8s_panel.Store.File.{File}

-- An operation of a process that is gone.
unfoldable pub interrupt : ℕ → Operation → Operation
unfolding runes
interrupt now o =
    if in_flight o
    then record o {
      state = unknown;
      error_code = runes "process_restarted";
      error_message = runes "操作排队或执行期间服务发生重启，结果需要人工确认";
      updated_at = now;
      finished_at = now;
    }
    else o

unfoldable pub any_in_flight : List Operation → Bool
any_in_flight [] = false
any_in_flight (o ∷ os) = in_flight o || any_in_flight os

-- Every call of the operating system succeeds.
abbrev pub never : Call → Bool
never s = false

module _ (codec : Codec) where
  open codec use {Contents, unmarshal}

  -- `read` is a failure of `os.ReadFile` other than the absence of the file.
  unfoldable pub load : Failure → Stored Contents → Result State
  unfolding runes
  load (some e) panel = err e
  load none absent = ok empty_state
  load none partial = err (other (runes "decode store"))
  load none (whole c) = elim (unmarshal c) [
    | none ↦ err (other (runes "decode store"))
    | some s ↦
        if s.schema_version == current_schema_version
        then ok s
        else err (other (runes "unsupported store schema version"))
  ]

  -- Save the next state, and keep it only if that succeeds.
  unfoldable pub save : (Call → Bool) → State → Disk Contents → Disk Contents × Result State
  save fails next d =
      let (d', failure) = persist codec fails next d in
      elim failure [ none ↦ (d', ok next) | some e ↦ (d', err e) ]

  unfoldable pub reconcile_history_retention :
      (Call → Bool) → State → Disk Contents → Disk Contents × Result State
  unfolding save
  reconcile_history_retention fails s d =
      let operations = trim_operation_history s.operations in
      let audit_events = trim_audit_history s.audit_events in
      if length operations == length s.operations && length audit_events == length s.audit_events
      then (d, ok s)
      else save fails (record s { operations = operations; audit_events = audit_events }) d

  unfoldable pub reconcile_interrupted_operations :
      (Call → Bool) → ℕ → State → Disk Contents → Disk Contents × Result State
  unfolding save any_in_flight interrupt
  reconcile_interrupted_operations fails now s d =
      if any_in_flight s.operations
      then save fails (record s { operations = map (interrupt now) s.operations }) d
      else (d, ok s)

  -- The steps of `Open` that follow one another, each on the disk that the one before left.
  unfoldable pub open_interrupted :
      (Call → Bool) → ℕ → Disk Contents × Result State → Disk Contents × Result (File Contents)
  unfolding reconcile_interrupted_operations
  open_interrupted fails now (d, err e) = (d, err e)
  open_interrupted fails now (d, ok s) =
      let (d', r) = reconcile_interrupted_operations fails now s d in
      elim r [ ok s' ↦ (d', ok (record { state = s'; disk = d' })) | err e ↦ (d', err e) ]

  unfoldable pub open_loaded :
      (Call → Bool)
      → (Call → Bool)
      → ℕ
      → Disk Contents
      → Result State
      → Disk Contents × Result (File Contents)
  unfolding reconcile_history_retention open_interrupted
  open_loaded fails fails' now d (err e) = (d, err e)
  open_loaded fails fails' now d (ok s) =
      open_interrupted fails' now (reconcile_history_retention fails s d)

  -- `fails` and `fails'` are the answers to the calls of the two reconciliations.
  unfoldable pub open_store :
      Text
      → Failure
      → (Call → Bool)
      → (Call → Bool)
      → ℕ
      → Disk Contents
      → Disk Contents × Result (File Contents)
  unfolding open_loaded load trim_space runes
  open_store path read fails fails' now d =
      if is_empty (trim_space path)
      then (d, err (other (runes "store path must not be empty")))
      else open_loaded fails fails' now d (load read d.panel)
