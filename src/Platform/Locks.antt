-- ===== src/Platform/Locks.antt =====
-- internal/platform/operations.go: the locks of targets, 64 stripes that targets are hashed to.
use k8s_panel.Base.{
  ℕ, ◌*◌, ◌%◌, ◌^◌, Bool, true, none, some, List, [], ◌∷◌, ◌++◌, ◌==◌, if◌then◌else◌, Text, utf8,
}
use k8s_panel.Domain.{Failure, busy}
use Prim.Native.Nat.{bit_xor}

abbrev pub target_lock_stripes : ℕ
target_lock_stripes = 64

-- Which stripes are held.
abbrev pub Locks : Type 0
Locks = ℕ → Bool

-- The loop of `targetLock`, FNV-1a on 64 bits.
unfoldable pub fnv : List ℕ → ℕ → ℕ
fnv [] hash = hash
fnv (b ∷ bs) hash = fnv bs ((bit_xor hash b * 1_099_511_628_211) % 2 ^ 64)

unfoldable pub target_lock : Text → Text → Text → ℕ
target_lock cluster_id namespace name =
    fnv (utf8 (cluster_id ++ 0 ∷ namespace ++ 0 ∷ name)) 14_695_981_039_346_656_037
    % target_lock_stripes

unfoldable pub set_lock : ℕ → Bool → Locks → Locks
set_lock n held locks = λ k. if k == n then held else locks k

unfoldable pub try_acquire_target_lock : Failure → ℕ → Locks → Locks × Failure
try_acquire_target_lock (some e) n locks = (locks, some e)
try_acquire_target_lock none n locks =
    if locks n then (locks, some busy) else (set_lock n true locks, none)
