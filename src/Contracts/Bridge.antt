-- ===== src/Contracts/Bridge.antt =====
-- contracts/bridge/src/lib.rs: the bridge's storage and both entry points.
pub mod Transfers
mod Tests
use Prim.Native.String.{String}
use sanctifier.Base.{
  ℕ, ◌+◌, Bool, true, false, ◌&&◌, ◌||◌, not, Option, none, some, List, [], ◌∷◌, ◌++◌, length,
  contains, ltb, ◌==◌, if◌then◌else◌,
}
use sanctifier.Host.{
  Address, Env, Outcome, ok, ◌>>=◌, ◌>>◌, panic_if, unwrap, is_some, require_auth, add_or_trap,
  u32_bound,
}

pub data Error : Type 0 where
  not_initialized already_initialized invalid_threshold : Error
  insufficient_signers unauthorized invalid_transfer : Error

-- A digest of SHA-256, by which the transfers are named.
abbrev pub Digest : Type 0
Digest = ℕ

-- What a transfer request says.
pub record Transfer : Type 0 where
  pub source_chain : String
  pub source_txn : List ℕ
  pub target_addr : Address
  pub amount : ℕ

-- The storage, by `DataKey`: a `Transfer(hash)` is only ever set to `true`. And the events published.
pub record Bridge : Type 0 where
  pub signers : Option (List Address)
  pub threshold : Option ℕ
  pub processed : Digest → Bool
  pub events : List Transfer

-- What the bridge uses of the SDK: the XDR encodings and SHA-256.
pub record Sdk : Type 0 where
  pub symbol_xdr : String → List ℕ
  pub bytes_xdr : List ℕ → List ℕ
  pub address_xdr : Address → List ℕ
  pub u128_xdr : ℕ → List ℕ
  pub sha256 : List ℕ → Digest

pub init : List Address → ℕ → Bridge → Outcome Error (Unit {0} × Bridge)
init signers threshold b = do
  panic_if (is_some b.threshold) already_initialized
  panic_if (threshold == 0 || ltb (length signers) threshold) invalid_threshold
  ok (tt, record b { signers = some signers; threshold = some threshold })

pub calculate_transfer_hash : Sdk → Transfer → Digest
calculate_transfer_hash sdk t = sdk.sha256 (
    sdk.symbol_xdr t.source_chain
    ++ (sdk.bytes_xdr t.source_txn ++ (sdk.address_xdr t.target_addr ++ sdk.u128_xdr t.amount)))

-- The loop over the signers that provide authorisation, with its count and the signers it has seen.
abbrev pub count_signers :
    Env → List Address → List Address → ℕ → List Address → Outcome Error (ℕ × List Address)
count_signers env authorized [] count processed = ok (count, processed)
count_signers env authorized (signer ∷ rest) count processed =
    elim (not (contains signer authorized) || contains signer processed) [
      | true ↦ count_signers env authorized rest count processed
      | false ↦
          require_auth env signer
          >> (add_or_trap u32_bound count 1 >>= λ n.
              count_signers env authorized rest n (processed ++ signer ∷ []))
    ]

-- The transfer after the check that it is new.
pub process : Sdk → Env → Transfer → List Address → Bridge → Outcome Error (Unit {0} × Bridge)
process sdk env t signers_providing_auth b = do
  authorized_signers ← unwrap b.signers
  threshold ← unwrap b.threshold
  counted ← count_signers env authorized_signers signers_providing_auth 0 []
  panic_if (ltb counted.0 threshold) insufficient_signers
  let hash = calculate_transfer_hash sdk t
  ok (
    tt,
    record b {
      processed = λ k. if k == hash then true else b.processed k;
      events = b.events ++ t ∷ [];
    },
  )

pub execute_transfer :
    Sdk → Env → Transfer → List Address → Bridge → Outcome Error (Unit {0} × Bridge)
execute_transfer sdk env t signers_providing_auth b =
    if b.processed (calculate_transfer_hash sdk t)
    then ok (tt, b)
    else process sdk env t signers_providing_auth b
