-- ===== src/Contracts/Multisig.antt =====
-- contracts/multisig/src/lib.rs: the wallet's storage and every entry point.
pub mod Invariant
pub mod Execution
pub mod History
mod Tests
use Prim.Native.String.{String}
use text.Mathlib.Text.{◌==◌ as str_eq}
use sanctifier.Base.{
  ℕ, zero, suc, ◌+◌, Bool, true, false, ◌&&◌, ◌||◌, not, Option, none, some, List, [], ◌∷◌, ◌++◌,
  length, contains, first_index_of, remove, ltb, leb, ◌==◌, if◌then◌else◌,
}
use sanctifier.Host.{
  Address, Val, Env, Outcome, ok, ◌>>=◌, ◌>>◌, panic_if, trap_if, unwrap, or_panic, or_trap,
  is_some, require_auth, conversion, callee_failed, panic, add_or_trap, u32_bound,
}

pub data Error : Type 0 where
  not_initialized already_initialized invalid_threshold insufficient_signers unauthorized : Error
  proposal_not_found already_approved threshold_not_met already_executed already_cancelled : Error
  invalid_arguments : Error

-- A digest of SHA-256: the proposals are named by their digests.
abbrev pub Digest : Type 0
Digest = ℕ

pub record ProposalInfo : Type 0 where
  pub approval_count : ℕ
  pub executed : Bool
  pub cancelled : Bool

pub data Event : Type 0 where
  proposed : Digest → Address → String → Event
  approved : Digest → Address → Event
  executed : Digest → Address → Event
  cancelled : Digest → Event

-- The storage, by `DataKey`: an `Approval(hash, signer)` is only ever set to `true`.
pub record Wallet : Type 0 where
  pub signers : Option (List Address)
  pub threshold : Option ℕ
  pub proposal : Digest → Option ProposalInfo
  pub approvals : List (Digest × Address)
  pub events : List Event

-- What the wallet uses of the SDK: the XDR encodings, SHA-256, conversions of host values, which may
-- fail, and calls of other contracts. The host forbids a callee to re-enter the wallet, so a call
-- leaves the wallet's storage alone; `none` is a callee that failed.
pub record Sdk : Type 0 where
  pub address_xdr : Address → List ℕ
  pub symbol_xdr : String → List ℕ
  pub args_xdr : List Val → List ℕ
  pub bytes_xdr : List ℕ → List ℕ
  pub sha256 : List ℕ → Digest
  pub to_address : Val → Option Address
  pub to_u32 : Val → Option ℕ
  pub to_bytes : Val → Option Digest
  pub void : Val
  pub invoke_contract : Address → String → List Val → Option Val

abbrev pub emit : Event → Wallet → Wallet
emit e w = record w { events = w.events ++ e ∷ [] }

abbrev pub set_proposal : Digest → ProposalInfo → Wallet → Wallet
set_proposal h info w = record w { proposal = λ k. if k == h then some info else w.proposal k }

-- `storage.has(Approval(h, a))`
abbrev pub has_approval : Digest → Address → List (Digest × Address) → Bool
has_approval h a [] = false
has_approval h a ((k, b) ∷ xs) = (k == h && b == a) || has_approval h a xs

pub bad_threshold : ℕ → List Address → Bool
bad_threshold threshold signers = threshold == 0 || ltb (length signers) threshold

pub init : List Address → ℕ → Wallet → Outcome Error (Unit {0} × Wallet)
unfolding bad_threshold
init signers threshold w = do
  panic_if (is_some w.threshold) already_initialized
  panic_if (bad_threshold threshold signers) invalid_threshold
  ok (tt, record w { signers = some signers; threshold = some threshold })

-- `calculate_hash`: the digest of the four encodings, one after the other.
pub calculate_hash : Sdk → Address → String → List Val → List ℕ → Digest
calculate_hash sdk target function args salt = sdk.sha256 (
    sdk.address_xdr target
    ++ (sdk.symbol_xdr function ++ (sdk.args_xdr args ++ sdk.bytes_xdr salt)))

abbrev fresh : ProposalInfo
fresh = record { approval_count = 0; executed = false; cancelled = false }

pub propose : Sdk → Address → String → List Val → List ℕ → Wallet → Outcome Error (Digest × Wallet)
propose sdk target function args salt w =
    let hash = calculate_hash sdk target function args salt in
    if is_some (w.proposal hash)
    then ok (hash, w)
    else ok (hash, emit (proposed hash target function) (set_proposal hash fresh w))

pub approve : Env → Address → Digest → Wallet → Outcome Error (Unit {0} × Wallet)
approve env signer hash w = do
  require_auth env signer
  signers ← unwrap w.signers
  panic_if (not (contains signer signers)) unauthorized
  info ← or_panic (w.proposal hash) proposal_not_found
  panic_if info.executed already_executed
  panic_if info.cancelled already_cancelled
  panic_if (has_approval hash signer w.approvals) already_approved
  approval_count ← add_or_trap u32_bound info.approval_count 1
  let w' = set_proposal hash (record info { approval_count = approval_count }) w
  ok (tt, emit (approved hash signer) (record w' { approvals = (hash, signer) ∷ w.approvals }))

pub internal_cancel : Digest → Wallet → Outcome Error (Unit {0} × Wallet)
internal_cancel hash w = do
  info ← or_panic (w.proposal hash) proposal_not_found
  panic_if info.executed already_executed
  ok (tt, emit (cancelled hash) (set_proposal hash (record info { cancelled = true }) w))

pub internal_add_signer : Address → Wallet → Outcome Error (Unit {0} × Wallet)
internal_add_signer signer w = do
  signers ← unwrap w.signers
  ok (
    tt,
    if contains signer signers then w else record w { signers = some (signers ++ signer ∷ []) },
  )

-- `if let Some(idx) = signers.first_index_of(&signer) { … }`
pub remove_found : List Address → ℕ → Option ℕ → Wallet → Outcome Error (Unit {0} × Wallet)
remove_found signers threshold none w = ok (tt, w)
remove_found signers threshold (some idx) w = do
  panic_if (leb (length signers) threshold) invalid_threshold
  ok (tt, record w { signers = some (remove signers idx) })

pub internal_remove_signer : Address → Wallet → Outcome Error (Unit {0} × Wallet)
unfolding remove_found
internal_remove_signer signer w = do
  signers ← unwrap w.signers
  threshold ← unwrap w.threshold
  remove_found signers threshold (first_index_of signer signers) w

pub internal_set_threshold : ℕ → Wallet → Outcome Error (Unit {0} × Wallet)
unfolding bad_threshold
internal_set_threshold threshold w = do
  signers ← unwrap w.signers
  panic_if (bad_threshold threshold signers) invalid_threshold
  ok (tt, record w { threshold = some threshold })

-- `args.get(0).unwrap()`
abbrev pub first_arg : List Val → Option Val
first_arg [] = none
first_arg (v ∷ vs) = some v

-- `().into_val(&env)` after an internal operation.
abbrev pub returning : Val → Outcome Error (Unit {0} × Wallet) → Outcome Error (Val × Wallet)
returning v m = m >>= λ r. ok (v, r.1)

-- The operations that the wallet calls on itself, by name.
pub self_call : Sdk → String → List Val → Wallet → Outcome Error (Val × Wallet)
self_call sdk function args w =
    if str_eq function "add_signer"
    then (do
      v ← unwrap (first_arg args)
      signer ← or_trap (sdk.to_address v) conversion
      returning sdk.void (internal_add_signer signer w))
    else if str_eq function "remove_signer"
    then (do
      v ← unwrap (first_arg args)
      signer ← or_trap (sdk.to_address v) conversion
      returning sdk.void (internal_remove_signer signer w))
    else if str_eq function "set_threshold"
    then (do
      v ← unwrap (first_arg args)
      threshold ← or_trap (sdk.to_u32 v) conversion
      returning sdk.void (internal_set_threshold threshold w))
    else if str_eq function "cancel"
    then (do
      v ← unwrap (first_arg args)
      hash ← or_trap (sdk.to_bytes v) conversion
      returning sdk.void (internal_cancel hash w))
    else panic invalid_arguments

-- The call that an execution makes: of the wallet itself, or of another contract.
pub dispatch : Sdk → Env → Address → String → List Val → Wallet → Outcome Error (Val × Wallet)
dispatch sdk env target function args w =
    if target == env.current_contract_address then self_call sdk function args w else (do
      result ← or_trap (sdk.invoke_contract target function args) callee_failed
      ok (result, w))

-- `env.events().publish(…); result` after the call.
abbrev pub recorded : Event → Outcome Error (Val × Wallet) → Outcome Error (Val × Wallet)
recorded event m = m >>= λ r. ok (r.0, emit event r.1)

pub execute :
    Sdk → Env → Address → String → List Val → List ℕ → Wallet → Outcome Error (Val × Wallet)
execute sdk env target function args salt w = do
  let hash = calculate_hash sdk target function args salt
  info ← or_panic (w.proposal hash) proposal_not_found
  threshold ← unwrap w.threshold
  panic_if (ltb info.approval_count threshold) threshold_not_met
  panic_if info.executed already_executed
  panic_if info.cancelled already_cancelled
  recorded (executed hash target) (
      dispatch sdk env target function args (set_proposal hash (record info { executed = true }) w))

pub cancel : Env → Digest → Wallet → Outcome Error (Unit {0} × Wallet)
cancel env hash w = require_auth env env.current_contract_address >> internal_cancel hash w

pub add_signer : Env → Address → Wallet → Outcome Error (Unit {0} × Wallet)
add_signer env signer w =
    require_auth env env.current_contract_address >> internal_add_signer signer w

pub remove_signer : Env → Address → Wallet → Outcome Error (Unit {0} × Wallet)
remove_signer env signer w =
    require_auth env env.current_contract_address >> internal_remove_signer signer w

pub set_threshold : Env → ℕ → Wallet → Outcome Error (Unit {0} × Wallet)
set_threshold env threshold w =
    require_auth env env.current_contract_address >> internal_set_threshold threshold w
