-- ===== src/Store/Disk.antt =====
-- internal/store/file.go: `persist`, which writes a temporary file and renames it over the store.
-- `encoding/json` is a parameter; what each call of the operating system answers is one too.
pub mod Atomic
use k8s_panel.Base.{
  ◌≡◌, Bool, true, false, Option, none, some, List, [], ◌∷◌, if◌then◌else◌, Text, runes,
}
use k8s_panel.Domain.{Failure, other}
use k8s_panel.Store.State.{State}

-- `json.MarshalIndent` and `json.Unmarshal` at the type `state`: what was written is read back.
pub record Codec : Type 1 where
  pub Contents : Type 0
  pub marshal : State → Option Contents
  pub unmarshal : Contents → Option State
  pub round_trip : (s : State) (c : Contents) → marshal s ≡ some c → unmarshal c ≡ some s

-- A file may hold nothing yet, part of a write, or the whole of it.
pub data Stored (C : Type 0) : Type 0 where
  absent partial : Stored C
  whole : C → Stored C

pub record Disk (C : Type 0) : Type 0 where
  pub panel : Stored C
  pub temporary : Stored C

-- The calls that `persist` makes, in their order.
pub data Call : Type 0 where
  make_directory create_temporary protect_temporary write_temporary sync_temporary : Call
  close_temporary rename protect_store open_directory sync_directory : Call

abbrev pub calls : List Call
calls =
    make_directory ∷ create_temporary ∷ protect_temporary ∷ write_temporary ∷ sync_temporary
    ∷ close_temporary ∷ rename ∷ protect_store ∷ open_directory ∷ sync_directory ∷ []

-- What a call leaves on the disk when it succeeds, and when it fails.
unfoldable pub done : {C : Type 0} → C → Call → Disk C → Disk C
done c create_temporary d = record d { temporary = partial }
done c write_temporary d = record d { temporary = whole c }
done c rename d = record { panel = d.temporary; temporary = absent }
done c make_directory d = d
done c protect_temporary d = d
done c sync_temporary d = d
done c close_temporary d = d
done c protect_store d = d
done c open_directory d = d
done c sync_directory d = d

-- The calls up to the first that fails, `fails` saying which do; a failed call leaves no change
-- but a write cut short, which leaves the temporary file as it was created.
unfoldable pub perform :
    {C : Type 0} → (Call → Bool) → C → List Call → Disk C → Disk C × Option Call
perform fails c [] d = (d, none)
perform fails c (s ∷ rest) d =
    let later = perform fails c rest (done c s d) in if fails s then (d, some s) else later

-- The deferred `os.Remove` of the temporary file.
unfoldable pub cleanup : {C : Type 0} → Disk C → Disk C
cleanup d = record d { temporary = absent }

unfoldable pub call_failure : Option Call → Failure
unfolding runes
call_failure none = none
call_failure (some s) = some (other (runes "persist"))

unfoldable pub persist :
    (codec : Codec)
    → (Call → Bool)
    → State
    → Disk (codec.Contents)
    → Disk (codec.Contents) × Failure
unfolding perform cleanup call_failure runes
persist codec fails next d = elim (codec.marshal next) [
  | none ↦ (d, some (other (runes "encode store")))
  | some c ↦ let (d', failed) = perform fails c calls d in (cleanup d', call_failure failed)
]
