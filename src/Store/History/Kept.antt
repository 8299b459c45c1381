-- ===== src/Store/History/Kept.antt =====
-- internal/store/file.go: `trimOperationHistory`, as a filter that keeps the order.
use mathlib.Core.List.{Sublist}
use mathlib.Core.List.Sublist
use Prim.Native.Nat.{min, max}
use k8s_panel.Base.{
  sym, ap, true, ◌&&◌, length-drop, ◌+◌, ◌≤◌, ltb, leb, Bool-cases, inl, inr, length,
  length-keep_split, ℕ, zero, suc, ◌-◌, ◌≡◌, refl, Bool, not, List, [], ◌∷◌, drop, keep, arith,
}
use k8s_panel.Domain.{Operation}
use k8s_panel.Store.History.{in_flight, trim_loop, trim_operations}

abbrev pub settled : Operation → Bool
settled o = not (in_flight o)

keep-trim_loop : (n : ℕ) (os : List Operation) → keep in_flight (trim_loop n os) ≡ keep in_flight os
unfolding trim_loop
keep-trim_loop n [] = refl
keep-trim_loop n (o ∷ os) = ground (arith, keep-trim_loop n os, keep-trim_loop (n - 1) os)

drop-nil : (n : ℕ) → drop {A = Operation} n [] ≡ []
drop-nil zero = refl
drop-nil (suc n) = refl

le→sub-eq-zero : (a b : ℕ) → leb a b ≡ true → a - b ≡ 0
le→sub-eq-zero a b h = ground arith

settled-trim_loop :
    (n : ℕ) (os : List Operation) → keep settled (trim_loop n os) ≡ drop n (keep settled os)
unfolding trim_loop
settled-trim_loop n [] = sym (drop-nil n)
settled-trim_loop zero (o ∷ os) = ground (arith, settled-trim_loop zero os)
settled-trim_loop (suc n) (o ∷ os) =
    ground (arith, settled-trim_loop n os, settled-trim_loop (suc n) os)

trim_loop-sublist : (n : ℕ) (os : List Operation) → Sublist (trim_loop n os) os
unfolding trim_loop
trim_loop-sublist n [] = Sublist.refl []
trim_loop-sublist n (o ∷ os) = elim (Bool-cases (ltb 0 n && settled o)) [
  | inl drops ↦ rw drops (Sublist.cons o (trim_loop-sublist (n - 1) os))
  | inr stays ↦ rw stays (Sublist.cons-cons o (trim_loop-sublist n os))
]

length-trim_loop :
    (n : ℕ) (os : List Operation)
    → length (trim_loop n os) ≡ length (keep in_flight os) + (length (keep settled os) - n)
length-trim_loop n os = omega (
  arith,
  length-keep_split in_flight (trim_loop n os),
  ap length (keep-trim_loop n os),
  ap length (settled-trim_loop n os),
  length-drop n (keep settled os),
)

-- Trimming to a limit keeps every queued and running operation; of the others it drops exactly
-- the first ones, as many as the history is over the limit; the order stays; the result is within
-- the limit unless the operations in flight alone are more; and it is no shorter than the limit,
-- or than the history where that is shorter.
pub trim_operations_kept :
    (limit : ℕ) (os : List Operation)
    → (keep in_flight (trim_operations limit os) ≡ keep in_flight os)
      × (keep settled (trim_operations limit os) ≡ drop (length os - limit) (keep settled os))
      × Sublist (trim_operations limit os) os
      × (length (trim_operations limit os) ≤ max limit (length (keep in_flight os)))
      × (min limit (length os) ≤ length (trim_operations limit os))
unfolding trim_operations
trim_operations_kept limit os = elim (Bool-cases (leb (length os) limit)) [
  | inl fits ↦
      rw (fits, le→sub-eq-zero (length os) limit fits)
        (refl, refl, Sublist.refl os, ground arith, omega arith)
  | inr over ↦ rw over (
    keep-trim_loop n os,
    settled-trim_loop n os,
    trim_loop-sublist n os,
    ground (arith, length-trim_loop n os, length-keep_split in_flight os),
    ground (arith, length-trim_loop n os, length-keep_split in_flight os),
  )
]
  where
    n : ℕ
    n = length os - limit
