-- ===== src/Contracts/Proxy.antt =====
-- contracts/proxy/src/lib.rs: the upgradeable proxy's storage and every entry point.
pub mod Authority
mod Tests
use sanctifier.Base.{
  ℕ, ◌+◌, Bool, true, false, not, Option, none, some, List, [], ◌∷◌, ◌++◌, ltb, if◌then◌else◌,
}
use sanctifier.Host.{
  Address, Env, Outcome, ok, ◌>>=◌, ◌>>◌, panic_if, or_panic, trap_if, unwrap_or, is_some,
  require_auth, callee_failed, u32_bound,
}

-- The 32-byte hash of a WASM module.
abbrev pub Hash : Type 0
Hash = ℕ

-- The messages of the `panic!` and `expect` calls.
pub data Failure : Type 0 where
  already_initialised not_initialised version_overflow no_pending_transfer : Failure

pub data Event : Type 0 where
  initialised : Address → ℕ → Event
  upgraded : ℕ → Hash → Event
  nominated : Address → Event
  transferred : Address → Event

-- The instance storage, by its keys.
pub record Proxy : Type 0 where
  pub initialised : Option Bool
  pub admin : Option Address
  pub pending_admin : Option Address
  pub version : Option ℕ
  pub impl_hash : Option Hash
  pub events : List Event

abbrev pub emit : Event → Proxy → Proxy
emit e p = record p { events = p.events ++ e ∷ [] }

pub initialize : Address → Hash → Proxy → Outcome Failure (Unit {0} × Proxy)
initialize admin impl_hash p = do
  panic_if (is_some p.initialised) already_initialised
  ok (
    tt,
    emit (Event.initialised admin 1) (record p {
      initialised = some true;
      admin = some admin;
      version = some 1;
      impl_hash = some impl_hash;
    }),
  )

abbrev pub require_admin : Env → Proxy → Outcome Failure (Unit {0})
require_admin env p = do admin ← or_panic p.admin not_initialised; require_auth env admin

-- `installed` says which modules the host can install.
pub upgrade : (Hash → Bool) → Env → Hash → Proxy → Outcome Failure (Unit {0} × Proxy)
upgrade installed env new_wasm p = do
  require_admin env p
  let current_version = unwrap_or p.version 1
  panic_if (not (ltb (current_version + 1) u32_bound)) version_overflow
  trap_if (not (installed new_wasm)) callee_failed
  ok (
    tt,
    emit (upgraded (current_version + 1) new_wasm)
        (record p { version = some (current_version + 1); impl_hash = some new_wasm }),
  )

pub transfer_admin : Env → Address → Proxy → Outcome Failure (Unit {0} × Proxy)
transfer_admin env new_admin p = do
  require_admin env p
  ok (tt, emit (nominated new_admin) (record p { pending_admin = some new_admin }))

pub accept_admin : Env → Proxy → Outcome Failure (Unit {0} × Proxy)
accept_admin env p = do
  pending ← or_panic p.pending_admin no_pending_transfer
  require_auth env pending
  ok (tt, emit (transferred pending) (record p { admin = some pending; pending_admin = none }))

abbrev pub admin : Proxy → Outcome Failure Address
admin p = or_panic p.admin not_initialised

abbrev pub version : Proxy → ℕ
version p = unwrap_or p.version 0

abbrev pub impl_hash : Proxy → Outcome Failure Hash
impl_hash p = or_panic p.impl_hash not_initialised
