-- ===== src/Contracts/ReentrancyGuard/Tests.antt =====
-- A run of contracts/reentrancy-guard/src/lib.rs at a concrete input, and the theorem at it.
use Prim.Native.String.{String}
use sanctifier.Base.{arith, ℕ, ◌≡◌, refl, false, some, none}
use sanctifier.Host.{Outcome, ok, is_ok, ◌>>=◌}
use sanctifier.Contracts.ReentrancyGuard.{State, enter_pure, exit_pure, enter, exit, guarded}
use sanctifier.Contracts.ReentrancyGuard.Sections.{guarded-guarded}

program : Unit {0}
unfolding enter_pure exit_pure enter exit
program = tt

abbrev fresh : State ℕ
fresh = record { guard = none; rest = 0 }

test_guarded :
    guarded (λ s. ok (tt, record s { rest = 7 })) fresh
    ≡ ok (tt, record { guard = some 0; rest = 7 })
unfolding program
test_guarded = refl

-- A body that writes, then runs a protected section.
abbrev before : State ℕ → Outcome String (Unit {0} × State ℕ)
before s = ok (tt, record s { rest = 1 })

abbrev inner : State ℕ → Outcome String (ℕ × State ℕ)
inner s = ok (3, s)

abbrev after : ℕ × State ℕ → Outcome String (ℕ × State ℕ)
after r = ok r

before-guard : (s t : State ℕ) (a : Unit {0}) → before s ≡ ok (a, t) → t.guard ≡ s.guard
before-guard s t a h = ground arith

guarded-guarded_example :
    is_ok (guarded (λ u. before u >>= λ r. guarded inner r.1 >>= after) fresh) ≡ false
guarded-guarded_example = guarded-guarded before inner after before-guard fresh
