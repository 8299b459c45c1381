-- ===== src/Cache/Oldest.antt =====
-- internal/platform/gateway_cache.go: which entry `evictLocked` takes.
use k8s_panel.Base.{
  ◌≤◌, ◌≡◌, refl, sym, Bool, true, false, [], ◌∷◌, arith, if◌then◌else◌, All, Text,
}
use mathlib.Core.Path.{subst}
use k8s_panel.Cache.{Entry, Entries, precedes, oldest_from}

precedes-le :
    (j : Text) (f : Entry) (k : Text) (e : Entry)
    → precedes j f k e ≡ true
    → f.last_used ≤ e.last_used
unfolding precedes
precedes-le j f k e h = ground arith

not-precedes-le :
    (j : Text) (f : Entry) (k : Text) (e : Entry)
    → precedes j f k e ≡ false
    → e.last_used ≤ f.last_used
unfolding precedes
not-precedes-le j f k e h = ground arith

-- An entry was used no later than any of a list.
abbrev pub Precedes : Entry → Entries → Type 0
Precedes x es = All (λ p. x.last_used ≤ p.1.last_used) es

oldest_from-nil : (k : Text) (e : Entry) → oldest_from k e [] ≡ (k, e)
unfolding oldest_from
oldest_from-nil k e = refl

oldest_from-cons :
    (k : Text) (e : Entry) (j : Text) (f : Entry) (es : Entries)
    → oldest_from k e ((j, f) ∷ es)
      ≡ oldest_from (if precedes j f k e then j else k) (if precedes j f k e then f else e) es
unfolding oldest_from
oldest_from-cons k e j f es = refl

-- The entry that the loop of `evictLocked` ends at was used no later than the entry that it began
-- with, and no later than any that it met.
oldest_from-le :
    (k : Text) (e : Entry) (es : Entries)
    → ((oldest_from k e es).1.last_used ≤ e.last_used) × Precedes (oldest_from k e es).1 es
oldest_from-le k e [] = rw (oldest_from-nil k e) (omega arith, tt)
oldest_from-le k e ((j, f) ∷ es) =
    subst (λ (x : Text × Entry). (x.1.last_used ≤ e.last_used) × Precedes x.1 ((j, f) ∷ es))
      (sym (oldest_from-cons k e j f es))
      (pick (precedes j f k e) refl (oldest_from-le j f es) (oldest_from-le k e es))
  where
    pick :
        (b : Bool)
        → precedes j f k e ≡ b
        → ((oldest_from j f es).1.last_used ≤ f.last_used) × Precedes (oldest_from j f es).1 es
        → ((oldest_from k e es).1.last_used ≤ e.last_used) × Precedes (oldest_from k e es).1 es
        → let x = (oldest_from (if b then j else k) (if b then f else e) es).1 in
          (x.last_used ≤ e.last_used) × Precedes x ((j, f) ∷ es)
    pick true p r _ = (omega (arith, precedes-le j f k e p, r.0), (r.0, r.1))
    pick false p _ r = (r.0, (omega (arith, not-precedes-le j f k e p, r.0), r.1))
