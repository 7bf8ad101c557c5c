-- ===== src/Contracts/ReentrancyGuard.antt =====
-- contracts/reentrancy-guard/src/lib.rs: the mutex, and the sections it protects.
pub mod Sections
mod Tests
use Prim.Native.String.{String}
use sanctifier.Base.{ℕ, Bool, true, false, Option, none, some, List, [], ◌∷◌, ◌==◌, if◌then◌else◌}
use sanctifier.Base.Results.{Result}
use sanctifier.Base.Results
use sanctifier.Host.{Outcome, ok, panic, ◌>>=◌, unwrap_or}

pub data GuardStatus : Type 0 where
  unlocked locked : GuardStatus

abbrev pub from_u32 : ℕ → GuardStatus
from_u32 val = if val == 0 then unlocked else locked

-- `status as u32`
abbrev pub to_u32 : GuardStatus → ℕ
to_u32 unlocked = 0
to_u32 locked = 1

pub enter_pure : GuardStatus → Result String GuardStatus
enter_pure locked = Results.err "reentrancy detected"
enter_pure unlocked = Results.ok locked

pub exit_pure : GuardStatus
exit_pure = unlocked

-- What the instance storage has under `GUARD_KEY`, and the rest of the contract's state.
pub record State (S : Type 0) : Type 0 where
  pub guard : Option ℕ
  pub rest : S

module _ {S : Type 0} where
  abbrev pub current : State S → GuardStatus
  current s = from_u32 (unwrap_or s.guard 0)

  abbrev pub entered : State S → Result String GuardStatus → Outcome String (Unit {0} × State S)
  entered s (Results.ok new_status) = ok (tt, record s { guard = some (to_u32 new_status) })
  entered s (Results.err msg) = panic msg

  pub enter : State S → Outcome String (Unit {0} × State S)
  enter s = entered s (enter_pure (current s))

  pub exit : State S → Outcome String (Unit {0} × State S)
  exit s = ok (tt, record s { guard = some (to_u32 exit_pure) })

  -- A section between `enter` and `exit`, as a contract uses the guard.
  abbrev pub guarded :
      {A : Type 0}
      → (State S → Outcome String (A × State S))
      → State S
      → Outcome String (A × State S)
  guarded body s = do e ← enter s; r ← body e.1; x ← exit r.1; ok (r.0, x.1)
