-- ===== src/Governor/Waiting.antt =====
-- internal/resourceguard/governor.go: `Acquire`, which tries until it has a slot or its context ends.
use k8s_panel.Base.{
  ℕ, ◌≤◌, ◌<◌, ◌≡◌, refl, ap, ◌⊎◌, ◌+◌, ◌++◌, inl, inr, Bool, true, false, Option, none, some, List,
  [], ◌∷◌, arith, if◌then◌else◌, Bool-cases, Option-cases,
}
use k8s_panel.Domain.{Error, Failure, Result, ok, err}
use k8s_panel.Governor.{Floats, Governor, Sample, Snapshot, try_acquire}

-- One round of the loop: the sample and the clock of its try, what others then do while it waits for
-- the timer, and the error of the context where that ends first.
pub record Round (F : Type 0) : Type 0 where
  pub sample : Sample F
  pub now : ℕ
  pub others : Governor F → Governor F
  pub ended : Failure

-- Does the context end in one of the rounds?
abbrev pub ends : {F : Type 0} → List (Round F) → Bool
ends [] = false
ends (r ∷ rs) = elim (r.ended) [ some e ↦ true | none ↦ ends rs ]

module _ (floats : Floats) where
  open floats use {Float}

  -- The rounds of a wait, and its answer; `none` where it still waits after them.
  unfoldable pub acquire :
      List (Round Float) → Governor Float → Governor Float × Option (Result (Snapshot Float))
  acquire [] g = (g, none)
  acquire (r ∷ rs) g =
      let (g', s, granted) = try_acquire floats g r.sample r.now in
      let later = acquire rs (r.others g') in
      if granted
      then (g', some (ok s))
      else elim (r.ended) [ some e ↦ (g', some (err e)) | none ↦ later ]

  try_acquire-le :
      (g : Governor Float) (sample : Sample Float) (now : ℕ)
      → let r = try_acquire floats g sample now in
        r.2 ≡ true
        → (r.1.active_operations ≤ r.1.operation_limit)
          × (r.0.active ≡ r.1.active_operations)
          × (0 < r.0.active)
  unfolding try_acquire
  try_acquire-le g sample now h = ground arith

  -- A wait that gets a slot gets it within the limit of that moment, whatever others did before, and
  -- the governor counts it.
  pub acquire-ok :
      (rs : List (Round Float)) (g : Governor Float) {s : Snapshot Float}
      → (acquire rs g).1 ≡ some (ok s)
      → (s.active_operations ≤ s.operation_limit)
        × ((acquire rs g).0.active ≡ s.active_operations)
        × (0 < s.active_operations)
  unfolding acquire
  acquire-ok [] g h = cc
  acquire-ok (r ∷ rs) g {s} h = ground (
    arith,
    try_acquire-le g r.sample r.now,
    acquire-ok rs (r.others (try_acquire floats g r.sample r.now).0) {s = s},
  )

  -- The governor once the tries of some rounds are refused and the others have acted.
  unfoldable pub after : List (Round Float) → Governor Float → Governor Float
  after [] g = g
  after (r ∷ rs) g = after rs (r.others (try_acquire floats g r.sample r.now).0)

  -- Each round's try is refused, and its context does not end.
  unfoldable pub Waits : List (Round Float) → Governor Float → Type 0
  Waits [] g = Unit
  Waits (r ∷ rs) g =
      ((try_acquire floats g r.sample r.now).2 ≡ false)
      × (r.ended ≡ none)
      × Waits rs (r.others (try_acquire floats g r.sample r.now).0)

  -- A round decides a wait: its try is granted, which is the answer and takes one slot more; or it is refused, the
  -- context ends, its error is the answer, and no slot is taken.
  abbrev pub Decides :
      Round Float → Governor Float → Result (Snapshot Float) → Governor Float → Type 0
  Decides r g answer g' =
      (((try_acquire floats g r.sample r.now).2 ≡ true)
        × (answer ≡ ok (try_acquire floats g r.sample r.now).1)
        × (g'.active ≡ g.active + 1))
      ⊎ ((e : Error) × ((try_acquire floats g r.sample r.now).2 ≡ false)
          × (r.ended ≡ some e)
          × (answer ≡ err e)
          × (g'.active ≡ g.active))

  try_acquire-active :
      (g : Governor Float) (sample : Sample Float) (now : ℕ)
      → (try_acquire floats g sample now).0.active
        ≡ (if (try_acquire floats g sample now).2 then g.active + 1 else g.active)
  unfolding try_acquire
  try_acquire-active g sample now = ground arith

  -- A wait in one of whose rounds the context ends is answered, in the first round whose try is granted or whose
  -- context ends, all rounds before it having been refused: with the slot of the granted try, which is counted, also where the context
  -- ends in that round; and otherwise with the error of the context, and then it takes no slot.
  pub acquire-ends :
      (rs : List (Round Float)) (g : Governor Float)
      → ends rs ≡ true
      → (waited : List (Round Float)) × (r : Round Float) × (rest : List (Round Float))
        × (answer : Result (Snapshot Float)) × (rs ≡ waited ++ r ∷ rest)
        × Waits waited g
        × ((acquire rs g).1 ≡ some answer)
        × Decides r (after waited g) answer (acquire rs g).0
  unfolding acquire after Waits
  acquire-ends [] g h = cc
  acquire-ends (r ∷ rs) g h =
      let t = try_acquire floats g r.sample r.now in
      let a = try_acquire-active g r.sample r.now in
      elim (Bool-cases t.2) [
        | inl p ↦
            ([], r, rs, ok t.1, refl, tt, ground (arith, p), inl (p, refl, ground (arith, p, a)))
        | inr p ↦ elim (Option-cases (r.ended)) [
          | inr (e, q) ↦ (
            [],
            r,
            rs,
            err e,
            refl,
            tt,
            ground (arith, p, q),
            inr (e, p, q, refl, ground (arith, p, q, a)),
          )
          | inl q ↦
              let (waited, r', rest, answer, split, waits, answered, decides) =
                acquire-ends rs (r.others t.0) (ground arith) in
              (
                r ∷ waited,
                r',
                rest,
                answer,
                ap (λ (l : List (Round Float)). r ∷ l) split,
                (p, q, waits),
                rw (p, q, acquire) answered,
                rw (p, q, acquire) decides,
              )
        ]
      ]
