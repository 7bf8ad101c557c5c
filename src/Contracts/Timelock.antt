-- ===== src/Contracts/Timelock.antt =====
-- contracts/timelock/src/lib.rs: the controller's storage and every entry point.
pub mod Calls
pub mod Delay
pub mod Roles
mod Tests
use Prim.Native.String.{String}
use sanctifier.Base.{
  ℕ, ◌+◌, ◌^◌, Bool, true, false, ◌||◌, not, Option, none, some, List, [], ◌∷◌, ◌++◌, ltb, ◌==◌,
  ◌!=◌, if◌then◌else◌,
}
use sanctifier.Host.{
  update, Address, Val, Env, Outcome, ok, ◌>>=◌, ◌>>◌, panic_if, or_panic, or_trap, unwrap_or,
  is_some, require_auth, callee_failed, add_or_trap, u64_bound,
}

pub data TimelockError : Type 0 where
  already_initialized not_initialized unauthorized insufficient_delay : TimelockError
  proposal_not_found proposal_not_ready invalid_delay : TimelockError

-- A 32-byte digest names an operation.
abbrev pub Digest : Type 0
Digest = ℕ

pub data Event : Type 0 where
  scheduled : Digest → Address → String → ℕ → Event
  executed : Digest → Address → String → Event
  canceled : Digest → Event

-- The instance storage, by `DataKey`.
pub record Controller : Type 0 where
  pub min_delay : Option ℕ
  pub admin : Option Address
  pub proposer : Address → Option Bool
  pub executor : Address → Option Bool
  pub canceller : Address → Option Bool
  pub operation : Digest → Option ℕ
  pub events : List Event

-- What the controller uses of the SDK. The host forbids a callee to re-enter the controller, so a
-- call leaves its storage alone; `none` is a callee that failed.
pub record Sdk : Type 0 where
  pub address_val : Address → Val
  pub symbol_val : String → Val
  pub salt_val : ℕ → Val
  pub vec_xdr : List Val → List ℕ
  pub sha256 : List ℕ → Digest
  pub invoke_contract : Address → String → List Val → Option Val

-- `for a in addresses.iter() { storage.set(key(a), true) }`
pub grant_all : List Address → (Address → Option Bool) → Address → Option Bool
grant_all [] role = role
grant_all (a ∷ as') role = grant_all as' (update role a (some true))

pub init :
    Address
    → ℕ
    → List Address
    → List Address
    → Controller
    → Outcome TimelockError (Unit {0} × Controller)
init admin min_delay proposers executors c =
    panic_if (is_some c.admin) already_initialized
    >> ok (
      tt,
      record c {
        admin = some admin;
        min_delay = some min_delay;
        proposer = grant_all proposers c.proposer;
        executor = grant_all executors c.executor;
      },
    )

abbrev pub get_min_delay : Controller → ℕ
get_min_delay c = unwrap_or c.min_delay 0

abbrev pub is_proposer : Address → Controller → Bool
is_proposer a c = unwrap_or (c.proposer a) false

abbrev pub is_executor : Address → Controller → Bool
is_executor a c = unwrap_or (c.executor a) false

abbrev pub is_canceller : Address → Controller → Bool
is_canceller a c = unwrap_or (c.canceller a) false

abbrev pub check_admin : Address → Controller → Outcome TimelockError (Unit {0})
check_admin address c = do
  admin ← or_panic c.admin not_initialized
  panic_if (admin != address) unauthorized

pub set_proposer :
    Env → Address → Address → Bool → Controller → Outcome TimelockError (Unit {0} × Controller)
set_proposer env admin address active c = do
  require_auth env admin
  check_admin admin c
  ok (tt, record c { proposer = update c.proposer address (some active) })

pub set_executor :
    Env → Address → Address → Bool → Controller → Outcome TimelockError (Unit {0} × Controller)
set_executor env admin address active c = do
  require_auth env admin
  check_admin admin c
  ok (tt, record c { executor = update c.executor address (some active) })

pub set_canceller :
    Env → Address → Address → Bool → Controller → Outcome TimelockError (Unit {0} × Controller)
set_canceller env admin address active c = do
  require_auth env admin
  check_admin admin c
  ok (tt, record c { canceller = update c.canceller address (some active) })

pub update_delay : Env → Address → ℕ → Controller → Outcome TimelockError (Unit {0} × Controller)
update_delay env admin new_delay c = do
  require_auth env admin
  check_admin admin c
  ok (tt, record c { min_delay = some new_delay })

-- The digest of the target, the function, the arguments and the salt, as one vector.
unfoldable pub compute_hash : Sdk → Address → String → List Val → ℕ → Digest
compute_hash sdk target fn_name args salt = sdk.sha256 (
    sdk.vec_xdr
      (sdk.address_val target ∷ (sdk.symbol_val fn_name ∷ (args ++ sdk.salt_val salt ∷ []))))

abbrev pub emit : Event → Controller → Controller
emit e c = record c { events = c.events ++ e ∷ [] }

abbrev pub set_operation : Digest → Option ℕ → Controller → Controller
set_operation h o c = record c { operation = update c.operation h o }

unfoldable pub schedule :
    Sdk
    → Env
    → Address
    → Address
    → String
    → List Val
    → ℕ
    → ℕ
    → Controller
    → Outcome TimelockError (Digest × Controller)
schedule sdk env proposer target fn_name args salt delay c = do
  require_auth env proposer
  panic_if (not (is_proposer proposer c)) unauthorized
  panic_if (ltb delay (get_min_delay c)) insufficient_delay
  let hash = compute_hash sdk target fn_name args salt
  panic_if (is_some (c.operation hash)) already_initialized
  ready_timestamp ← add_or_trap u64_bound env.timestamp delay
  ok (
    hash,
    emit (scheduled hash target fn_name ready_timestamp)
        (set_operation hash (some ready_timestamp) c),
  )

unfoldable pub execute :
    Sdk
    → Env
    → Address
    → Address
    → String
    → List Val
    → ℕ
    → Controller
    → Outcome TimelockError (Val × Controller)
execute sdk env executor target fn_name args salt c = do
  require_auth env executor
  panic_if (not (is_executor executor c)) unauthorized
  let hash = compute_hash sdk target fn_name args salt
  ready_timestamp ← or_panic (c.operation hash) proposal_not_found
  panic_if (ltb env.timestamp ready_timestamp) proposal_not_ready
  result ← or_trap (sdk.invoke_contract target fn_name args) callee_failed
  ok (result, emit (executed hash target fn_name) (set_operation hash none c))

pub cancel : Env → Address → Digest → Controller → Outcome TimelockError (Unit {0} × Controller)
cancel env canceller hash c = do
  require_auth env canceller
  panic_if (not (is_canceller canceller c || is_proposer canceller c)) unauthorized
  panic_if (not (is_some (c.operation hash))) proposal_not_found
  ok (tt, emit (canceled hash) (set_operation hash none c))
