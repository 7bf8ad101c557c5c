-- ===== src/Contracts/ReentrancyGuard/Sections.antt =====
-- What a section protected by contracts/reentrancy-guard/src/lib.rs may do.
use Prim.Native.String.{String}
use sanctifier.Base.{◌≡◌, refl, false, ◌⊎◌, inl, inr, some, arith}
use sanctifier.Host.{Outcome, ok, panic, ◌>>=◌, is_ok, outcome_cases}
use sanctifier.Contracts.ReentrancyGuard.{
  GuardStatus, unlocked, locked, State, enter_pure, exit_pure, current, enter, exit, guarded,
}

status_cases : (g : GuardStatus) → (g ≡ unlocked) ⊎ (g ≡ locked)
status_cases unlocked = inl refl
status_cases locked = inr refl

-- The state within a protected section.
abbrev pub within : {S : Type 0} → State S → State S
within s = record s { guard = some 1 }

enter-unlocked : {S : Type 0} (s : State S) → current s ≡ unlocked → enter s ≡ ok (tt, within s)
unfolding enter enter_pure
enter-unlocked s h = rw h refl

enter-locked :
    {S : Type 0} (s : State S) → current s ≡ locked → enter s ≡ panic "reentrancy detected"
unfolding enter enter_pure
enter-locked s h = rw h refl

-- A protected section that ends was entered with the guard unlocked, and leaves it unlocked, whatever its body does.
pub guarded-unlocked :
    {S A : Type 0} (body : State S → Outcome String (A × State S)) (s t : State S) (a : A)
    → guarded body s ≡ ok (a, t)
    → (current s ≡ unlocked) × (current t ≡ unlocked)
unfolding exit exit_pure
guarded-unlocked body s t a h = elim (status_cases (current s)) [
  | inr l ↦ absurd (ground (arith, enter-locked s l))
  | inl u ↦ elim (outcome_cases (body (within s))) [
    | inl (r, e) ↦ (u, ground (arith, enter-unlocked s u))
    | inr stopped ↦ absurd (ground (arith, enter-unlocked s u))
  ]
]

-- A protected section whose body keeps the guard as it finds it and then runs a protected section panics, so that the
-- whole call is rolled back: there is no re-entry.
pub guarded-guarded :
    {S A B C : Type 0} (before : State S → Outcome String (A × State S))
    (inner : State S → Outcome String (B × State S))
    (after : B × State S → Outcome String (C × State S))
    → ((s t : State S) (a : A) → before s ≡ ok (a, t) → t.guard ≡ s.guard)
    → (s : State S) → is_ok (guarded (λ u. before u >>= λ r. guarded inner r.1 >>= after) s) ≡ false
guarded-guarded before inner after keeps s = elim (status_cases (current s)) [
  | inr l ↦ rw (enter-locked s l) refl
  | inl u ↦ elim (outcome_cases (before (within s))) [
    | inl (r, e) ↦
        let same : r.1.guard ≡ some 1 = keeps (within s) r.1 r.0 e in
        let lock : current r.1 ≡ locked = rw same refl in
        rw (enter-unlocked s u, e, enter-locked r.1 lock) refl
    | inr stopped ↦ ground (arith, enter-unlocked s u)
  ]
]
