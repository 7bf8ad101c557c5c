-- ===== src/Contracts/Messages/Tests.antt =====
-- Runs of contracts/my-contract/src/cross_contract.rs at concrete inputs, and the theorems at such inputs.
use sanctifier.Base.{ℕ, zero, suc, ◌≡◌, refl, List, [], ◌∷◌, arith}
use sanctifier.Base.Int.{pos}
use sanctifier.Base.Results.{ok, err}
use sanctifier.Contracts.Messages.{
  CrossContractMessage, approve, read_bytes, le_value, to_i128, read_addr, read_i128, read_u32,
  parse, parse_mint, parse_burn, parse_transfer, parse_approve, parse_transfer_from,
  handle_cross_contract_message, empty, invalid_op_code, negative_amount,
}
use sanctifier.Contracts.Messages.Bytes.{le_bytes}
use sanctifier.Contracts.Messages.RoundTrip.{encode, body_size, parse-encode}

program : Unit {0}
unfolding read_bytes le_value to_i128 read_addr read_i128 read_u32 parse parse_mint parse_burn
    parse_transfer parse_approve parse_transfer_from handle_cross_contract_message le_bytes encode
    body_size
program = tt

repeat : ℕ → ℕ → List ℕ
repeat zero b = []
repeat (suc n) b = b ∷ repeat n b

abbrev message : CrossContractMessage
message = approve (repeat 32 7) (repeat 32 9) (pos 1_000_000) 70_000

abbrev bytes : List ℕ
bytes = encode message (255 ∷ [])

parsing : handle_cross_contract_message bytes ≡ ok tt
unfolding program repeat
parsing = refl

no_bytes : parse [] ≡ err empty
unfolding program
no_bytes = refl

unknown : parse (6 ∷ bytes) ≡ err invalid_op_code
unfolding program
unknown = refl

-- The amount -1 is sixteen bytes of 255.
abbrev minus_one : List ℕ
minus_one = 1 ∷ repeat 48 255

negative : parse minus_one ≡ err negative_amount
unfolding program repeat
negative = refl

parse-encode_example : parse bytes ≡ ok message
unfolding program repeat
parse-encode_example =
    parse-encode message (255 ∷ []) (refl, refl, (refl, omega arith), omega arith)
