-- ===== src/Store/Disk/Atomic.antt =====
-- What the calls of `persist` leave in the store's file, whichever of them fail. The disk that
-- `perform` returns at a call is also the one that is left if the process stops in front of it.
use k8s_panel.Base.{false, ◌≡◌, refl, Bool, true, ◌||◌, none, some, if◌then◌else◌, arith}
use k8s_panel.Domain.{Failure}
use k8s_panel.Store.State.{State}
use k8s_panel.Store.Disk.{
  Codec, absent, whole, Disk, Call, make_directory, create_temporary, protect_temporary,
  write_temporary, sync_temporary, close_temporary, rename, protect_store, open_directory,
  sync_directory, calls, done, perform, persist, call_failure,
}

-- Does a call up to the renaming fail, and does one after it?
abbrev pub early : (Call → Bool) → Bool
early fails =
    fails make_directory
    || fails create_temporary
    || fails protect_temporary
    || fails write_temporary
    || fails sync_temporary
    || fails close_temporary
    || fails rename

abbrev pub late : (Call → Bool) → Bool
late fails = fails protect_store || fails open_directory || fails sync_directory

abbrev pub reported : Failure → Bool
reported none = false
reported (some e) = true

module _ {C : Type 0} (fails : Call → Bool) (c : C) (d : Disk C) where
  -- At every point the store's file is the old one or the new one, whole; and it is the new one
  -- exactly where no call up to the renaming fails.
  pub panel-perform : (perform fails c calls d).0.panel ≡ (if early fails then d.panel else whole c)
  unfolding perform done
  panel-perform = ground arith

  failure-perform :
      reported (call_failure (perform fails c calls d).1) ≡ (early fails || late fails)
  unfolding perform done call_failure
  failure-perform = ground arith

-- A saved state that can be encoded replaces the file exactly where no call up to the renaming
-- fails, leaves no temporary file, and a failure is reported exactly where some call fails.
pub persist_lem :
    (codec : Codec) (fails : Call → Bool) (next : State) (d : Disk (codec.Contents))
    {c : codec.Contents}
    → codec.marshal next ≡ some c
    → ((persist codec fails next d).0.panel ≡ (if early fails then d.panel else whole c))
      × ((persist codec fails next d).0.temporary ≡ absent)
      × (reported (persist codec fails next d).1 ≡ (early fails || late fails))
unfolding persist
persist_lem codec fails next d {c} m =
    rw (m, persist) (panel-perform fails c d, refl, failure-perform fails c d)
