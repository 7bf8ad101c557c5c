-- ===== src/Contracts/Messages.antt =====
-- contracts/my-contract/src/cross_contract.rs: the parser of cross-contract messages.
pub mod Bytes
pub mod RoundTrip
mod Tests
use sanctifier.Base.{
  ℕ, zero, suc, ◌+◌, ◌-◌, ◌*◌, ◌^◌, Bool, true, false, Option, none, some, List, [], ◌∷◌, length,
  take, drop, ltb, ◌==◌, if◌then◌else◌,
}
use sanctifier.Base.Int.{ℤ, pos, negsuc, ltb_ℤ}
use sanctifier.Base.Results.{Result, ok, err, ◌>>=◌, ok_or}
use sanctifier.Host.{u32_bound}

pub data CrossContractError : Type 0 where
  empty truncated invalid_op_code negative_amount : CrossContractError

-- `[u8; 32]`, as a list of bytes.
abbrev pub RawAddress : Type 0
RawAddress = List ℕ

pub data CrossContractMessage : Type 0 where
  mint : RawAddress → ℤ → CrossContractMessage
  burn : RawAddress → ℤ → CrossContractMessage
  transfer : RawAddress → RawAddress → ℤ → CrossContractMessage
  approve : RawAddress → RawAddress → ℤ → ℕ → CrossContractMessage
  transfer_from : RawAddress → RawAddress → RawAddress → ℤ → CrossContractMessage

abbrev pub op_mint : ℕ
op_mint = 1

abbrev pub op_burn : ℕ
op_burn = 2

abbrev pub op_transfer : ℕ
op_transfer = 3

abbrev pub op_approve : ℕ
op_approve = 4

abbrev pub op_transfer_from : ℕ
op_transfer_from = 5

abbrev pub addr_len : ℕ
addr_len = 32

abbrev pub i128_len : ℕ
i128_len = 16

abbrev pub u32_len : ℕ
u32_len = 4

-- `buf[offset..offset + n]`, where the sum fits a 32-bit `usize` and the buffer reaches so far.
pub read_bytes : ℕ → List ℕ → ℕ → Option (List ℕ)
read_bytes n buf offset =
    if ltb (offset + n) u32_bound
    then if ltb (length buf) (offset + n) then none else some (take n (drop offset buf))
    else none

-- The number that little-endian bytes write.
pub le_value : List ℕ → ℕ
le_value [] = 0
le_value (b ∷ bs) = b + 256 * le_value bs

-- Two's complement on 128 bits.
pub to_i128 : ℕ → ℤ
to_i128 n = if ltb n (2 ^ 127) then pos n else negsuc (2 ^ 128 - n - 1)

pub read_addr : List ℕ → ℕ → Option RawAddress
read_addr buf offset = read_bytes addr_len buf offset

pub read_i128 : List ℕ → ℕ → Option ℤ
read_i128 buf offset = elim (read_bytes i128_len buf offset) [
  | none ↦ none
  | some bytes ↦ some (to_i128 (le_value bytes))
]

pub read_u32 : List ℕ → ℕ → Option ℕ
read_u32 buf offset = elim (read_bytes u32_len buf offset) [
  | none ↦ none
  | some bytes ↦ some (le_value bytes)
]

-- `if amount < 0 { return Err(NegativeAmount) } Ok(m)`
abbrev pub non_negative : ℤ → CrossContractMessage → Result CrossContractError CrossContractMessage
non_negative amount m = if ltb_ℤ amount (pos 0) then err negative_amount else ok m

pub parse_mint : List ℕ → Result CrossContractError CrossContractMessage
parse_mint body = do
  to ← ok_or (read_addr body 0) truncated
  amount ← ok_or (read_i128 body addr_len) truncated
  non_negative amount (mint to amount)

pub parse_burn : List ℕ → Result CrossContractError CrossContractMessage
parse_burn body = do
  from ← ok_or (read_addr body 0) truncated
  amount ← ok_or (read_i128 body addr_len) truncated
  non_negative amount (burn from amount)

pub parse_transfer : List ℕ → Result CrossContractError CrossContractMessage
parse_transfer body = do
  from ← ok_or (read_addr body 0) truncated
  to ← ok_or (read_addr body addr_len) truncated
  amount ← ok_or (read_i128 body (addr_len * 2)) truncated
  non_negative amount (transfer from to amount)

pub parse_approve : List ℕ → Result CrossContractError CrossContractMessage
parse_approve body = do
  from ← ok_or (read_addr body 0) truncated
  spender ← ok_or (read_addr body addr_len) truncated
  amount ← ok_or (read_i128 body (addr_len * 2)) truncated
  expiration_ledger ← ok_or (read_u32 body (addr_len * 2 + i128_len)) truncated
  non_negative amount (approve from spender amount expiration_ledger)

pub parse_transfer_from : List ℕ → Result CrossContractError CrossContractMessage
parse_transfer_from body = do
  spender ← ok_or (read_addr body 0) truncated
  from ← ok_or (read_addr body addr_len) truncated
  to ← ok_or (read_addr body (addr_len * 2)) truncated
  amount ← ok_or (read_i128 body (addr_len * 3)) truncated
  non_negative amount (transfer_from spender from to amount)

pub parse : List ℕ → Result CrossContractError CrossContractMessage
parse [] = err empty
parse (op ∷ body) =
    if op == op_mint
    then parse_mint body
    else if op == op_burn
    then parse_burn body
    else if op == op_transfer
    then parse_transfer body
    else if op == op_approve
    then parse_approve body
    else if op == op_transfer_from
    then parse_transfer_from body
    else err invalid_op_code

pub handle_cross_contract_message : List ℕ → Result CrossContractError (Unit {0})
handle_cross_contract_message data' = parse data' >>= λ m. ok tt
