-- ===== src/Contracts/Messages/RoundTrip.antt =====
-- The wire format that contracts/my-contract/src/cross_contract.rs documents, and its parser.
use sanctifier.Base.{
  ℕ, ◌+◌, ◌^◌, ◌≤◌, ◌<◌, ◌≡◌, none, some, List, ◌∷◌, ◌++◌, length, ◌==◌, if◌then◌else◌, arith,
  Bool-cases, inl, inr,
}
use sanctifier.Base.Int.{ℤ, pos_part, neg_part}
use sanctifier.Base.Results.{ok, err}
use sanctifier.Contracts.Messages.{
  CrossContractMessage, RawAddress, mint, burn, transfer, approve, transfer_from, truncated,
  read_bytes, read_addr, read_i128, read_u32, to_i128, parse, parse_mint, parse_burn,
  parse_transfer, parse_approve, parse_transfer_from,
}
use sanctifier.Contracts.Messages.Bytes.{
  read_bytes-here, read_bytes-skip, le_bytes, length-le_bytes, le_value-le_bytes,
}

-- The bytes of a message, followed by others.
unfoldable pub encode : CrossContractMessage → List ℕ → List ℕ
encode (mint to amount) rest = 1 ∷ (to ++ (le_bytes 16 (pos_part amount) ++ rest))
encode (burn from amount) rest = 2 ∷ (from ++ (le_bytes 16 (pos_part amount) ++ rest))
encode (transfer from to amount) rest =
    3 ∷ (from ++ (to ++ (le_bytes 16 (pos_part amount) ++ rest)))
encode (approve from spender amount expiration) rest =
    4 ∷ (from ++ (spender ++ (le_bytes 16 (pos_part amount) ++ (le_bytes 4 expiration ++ rest))))
encode (transfer_from spender from to amount) rest =
    5 ∷ (spender ++ (from ++ (to ++ (le_bytes 16 (pos_part amount) ++ rest))))

-- An amount that is an i128 and not negative.
abbrev pub IsAmount : ℤ → Type 0
IsAmount amount = (neg_part amount ≡ 0) × (pos_part amount < 2 ^ 127)

abbrev pub IsAddress : RawAddress → Type 0
IsAddress a = length a ≡ 32

abbrev pub IsMessage : CrossContractMessage → Type 0
IsMessage (mint to amount) = IsAddress to × IsAmount amount
IsMessage (burn from amount) = IsAddress from × IsAmount amount
IsMessage (transfer from to amount) = IsAddress from × IsAddress to × IsAmount amount
IsMessage (approve from spender amount expiration) =
    IsAddress from × IsAddress spender × IsAmount amount × (expiration < 2 ^ 32)
IsMessage (transfer_from spender from to amount) =
    IsAddress spender × IsAddress from × IsAddress to × IsAmount amount

read_addr-here : (a ys : List ℕ) → IsAddress a → read_addr (a ++ ys) 0 ≡ some a
unfolding read_addr
read_addr-here a ys h = ground (arith, read_bytes-here a ys (omega arith))

read_addr-skip :
    (a ys : List ℕ) (k : ℕ)
    → IsAddress a
    → k ≤ 1_000
    → read_addr (a ++ ys) (32 + k) ≡ read_addr ys k
unfolding read_addr
read_addr-skip a ys k h small = ground (arith, read_bytes-skip a ys 32 k (omega arith))

read_i128-here :
    (amount : ℤ) (ys : List ℕ)
    → IsAmount amount
    → read_i128 (le_bytes 16 (pos_part amount) ++ ys) 0 ≡ some amount
unfolding read_i128 to_i128
read_i128-here amount ys h =
    let bs = le_bytes 16 (pos_part amount) in
    let n = length-le_bytes 16 (pos_part amount) in
    ground (
      arith,
      n,
      read_bytes-here bs ys (omega arith),
      le_value-le_bytes 16 (pos_part amount) (omega (arith, h.1)),
    )

read_i128-skip :
    (a ys : List ℕ) (k : ℕ)
    → IsAddress a
    → k ≤ 1_000
    → read_i128 (a ++ ys) (32 + k) ≡ read_i128 ys k
unfolding read_i128
read_i128-skip a ys k h small = ground (arith, read_bytes-skip a ys 16 k (omega arith))

read_u32-here : (n : ℕ) (ys : List ℕ) → n < 2 ^ 32 → read_u32 (le_bytes 4 n ++ ys) 0 ≡ some n
unfolding read_u32
read_u32-here n ys h = ground (
  arith,
  length-le_bytes 4 n,
  read_bytes-here (le_bytes 4 n) ys (omega (arith, length-le_bytes 4 n)),
  le_value-le_bytes 4 n (omega arith),
)

read_u32-skip :
    (a ys : List ℕ) (n k : ℕ)
    → length a ≡ n
    → n ≤ 1_000
    → k ≤ 1_000
    → read_u32 (a ++ ys) (n + k) ≡ read_u32 ys k
unfolding read_u32
read_u32-skip a ys n k h small less = ground (arith, read_bytes-skip a ys 4 k (omega arith))

-- A message with addresses of 32 bytes, a non-negative amount and a 32-bit expiration is read back
-- from its bytes, whatever follows them.
pub parse-encode :
    (m : CrossContractMessage) (rest : List ℕ) → IsMessage m → parse (encode m rest) ≡ ok m
unfolding parse parse_mint parse_burn parse_transfer parse_approve parse_transfer_from encode
parse-encode (mint to amount) rest (t, a) =
    let tail = le_bytes 16 (pos_part amount) ++ rest in
    ground (
      arith,
      read_addr-here to tail t,
      read_i128-skip to tail 0 t (omega arith),
      read_i128-here amount rest a,
    )
parse-encode (burn from amount) rest (f, a) =
    let tail = le_bytes 16 (pos_part amount) ++ rest in
    ground (
      arith,
      read_addr-here from tail f,
      read_i128-skip from tail 0 f (omega arith),
      read_i128-here amount rest a,
    )
parse-encode (transfer from to amount) rest (f, t, a) =
    let tail = le_bytes 16 (pos_part amount) ++ rest in
    ground (
      arith,
      read_addr-here from (to ++ tail) f,
      read_addr-skip from (to ++ tail) 0 f (omega arith),
      read_addr-here to tail t,
      read_i128-skip from (to ++ tail) 32 f (omega arith),
      read_i128-skip to tail 0 t (omega arith),
      read_i128-here amount rest a,
    )
parse-encode (approve from spender amount expiration) rest (f, s, a, x) =
    let last = le_bytes 4 expiration ++ rest in
    let tail = le_bytes 16 (pos_part amount) ++ last in
    ground (
      arith,
      read_addr-here from (spender ++ tail) f,
      read_addr-skip from (spender ++ tail) 0 f (omega arith),
      read_addr-here spender tail s,
      read_i128-skip from (spender ++ tail) 32 f (omega arith),
      read_i128-skip spender tail 0 s (omega arith),
      read_i128-here amount last a,
      read_u32-skip from (spender ++ tail) 32 48 f (omega arith) (omega arith),
      read_u32-skip spender tail 32 16 s (omega arith) (omega arith),
      read_u32-skip (le_bytes 16 (pos_part amount)) last 16 0 (length-le_bytes 16 (pos_part amount))
          (omega arith) (omega arith),
      read_u32-here expiration rest x,
    )
parse-encode (transfer_from spender from to amount) rest (s, f, t, a) =
    let tail = le_bytes 16 (pos_part amount) ++ rest in
    ground (
      arith,
      read_addr-here spender (from ++ (to ++ tail)) s,
      read_addr-skip spender (from ++ (to ++ tail)) 0 s (omega arith),
      read_addr-here from (to ++ tail) f,
      read_addr-skip spender (from ++ (to ++ tail)) 32 s (omega arith),
      read_addr-skip from (to ++ tail) 0 f (omega arith),
      read_addr-here to tail t,
      read_i128-skip spender (from ++ (to ++ tail)) 64 s (omega arith),
      read_i128-skip from (to ++ tail) 32 f (omega arith),
      read_i128-skip to tail 0 t (omega arith),
      read_i128-here amount rest a,
    )

-- How many bytes follow an opcode.
unfoldable pub body_size : ℕ → ℕ
body_size op =
    if op == 1
    then 48
    else if op == 2
    then 48
    else if op == 3
    then 80
    else if op == 4
    then 84
    else 112

module _ (body : List ℕ) where
  read_i128-short : (k : ℕ) → length body < k + 16 → read_i128 body k ≡ none
  unfolding read_i128 read_bytes
  read_i128-short k short = ground arith

  read_u32-short : (k : ℕ) → length body < k + 4 → read_u32 body k ≡ none
  unfolding read_u32 read_bytes
  read_u32-short k short = ground arith

  mint_short : length body < 48 → parse_mint body ≡ err truncated
  unfolding parse_mint
  mint_short short = ground (arith, read_i128-short 32 short)

  burn_short : length body < 48 → parse_burn body ≡ err truncated
  unfolding parse_burn
  burn_short short = ground (arith, read_i128-short 32 short)

  transfer_short : length body < 80 → parse_transfer body ≡ err truncated
  unfolding parse_transfer
  transfer_short short = ground (arith, read_i128-short 64 short)

  approve_short : length body < 84 → parse_approve body ≡ err truncated
  unfolding parse_approve
  approve_short short = ground (arith, read_u32-short 80 short)

  transfer_from_short : length body < 112 → parse_transfer_from body ≡ err truncated
  unfolding parse_transfer_from
  transfer_from_short short = ground (arith, read_i128-short 96 short)

-- The body of a known opcode that is shorter than the format wants is rejected as truncated,
-- whatever its bytes are.
pub parse-short :
    (op : ℕ) (body : List ℕ)
    → 1 ≤ op
    → op ≤ 5
    → length body < body_size op
    → parse (op ∷ body) ≡ err truncated
unfolding parse body_size
parse-short op body low high short = elim (Bool-cases (op == 1)) [
  | inl is_mint ↦ ground (arith, mint_short body (ground arith))
  | inr not_mint ↦ elim (Bool-cases (op == 2)) [
    | inl is_burn ↦ ground (arith, burn_short body (ground arith))
    | inr not_burn ↦ elim (Bool-cases (op == 3)) [
      | inl is_transfer ↦ ground (arith, transfer_short body (ground arith))
      | inr not_transfer ↦ elim (Bool-cases (op == 4)) [
        | inl is_approve ↦ ground (arith, approve_short body (ground arith))
        | inr not_approve ↦ ground (arith, transfer_from_short body (ground arith))
      ]
    ]
  ]
]
