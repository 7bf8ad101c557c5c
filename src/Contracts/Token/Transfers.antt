-- ===== src/Contracts/Token/Transfers.antt =====
-- What the operations of contracts/my-contract/src/lib.rs do to the balances.
use sanctifier.Base.{◌≤◌, ◌≡◌, ◌≢◌, ◌⊎◌, true, some, arith, Option-cases, inl, inr}
use native.Mathlib.Decide.{ℕ_discrete}
use sanctifier.Base.Int.{ℤ, pos, neg_part, ◌+ℤ◌, ◌-ℤ◌, -ℤ_lem}
use sanctifier.Host.{Address, Env, ok, outcome_cases}
use sanctifier.Contracts.Token
use sanctifier.Contracts.Token.{
  Ledger, AllowanceValue, TokenError, balance, move, debit, spend_allowance,
}

-- `amount` has moved from one account to another.
pub record Moved (from to : Address) (amount : ℤ) (l l' : Ledger) : Type 0 where
  pub paid : balance l' from ≡ balance l from -ℤ amount
  pub received : balance l' to ≡ balance l to +ℤ amount
  pub covers : neg_part (balance l' from) ≡ 0
  pub others : (a : Address) → a ≢ from → a ≢ to → balance l' a ≡ balance l a

module _ (from to : Address) (amount : ℤ) (l l' : Ledger) where
  move-Moved : from ≢ to → move from to amount l ≡ ok (tt, l') → Moved from to amount l l'
  move-Moved d e = record {
    paid = ground arith;
    received = ground arith;
    covers = ground arith;
    others = λ a n m. ground arith;
  }

  -- A transfer between two accounts that ends was authorised by its owner, for an amount that is not
  -- negative; it moves the amount, leaves the owner's balance at 0 or more, and no other account
  -- changes.
  pub transfer-Moved :
      (env : Env)
      → from ≢ to
      → Token.transfer env from to amount l ≡ ok (tt, l')
      → (env.authorised from ≡ true) × (neg_part amount ≡ 0) × Moved from to amount l l'
  unfolding Token.transfer
  transfer-Moved env d e = (ground arith, ground arith, move-Moved d (ground arith))

-- A transfer of an account to itself that ends pays nothing and credits the amount: both balances
-- are read before either is written.
pub transfer_self :
    (env : Env) (a : Address) (amount : ℤ) (l l' : Ledger)
    → Token.transfer env a a amount l ≡ ok (tt, l')
    → balance l' a ≡ balance l a +ℤ amount
unfolding Token.transfer
transfer_self env a amount l l' e = ground arith

-- One balance has changed by an amount.
pub record Changed (a : Address) (amount : ℤ) (l l' : Ledger) : Type 0 where
  pub changed : balance l' a ≡ balance l a +ℤ amount
  pub others : (b : Address) → b ≢ a → balance l' b ≡ balance l b

pub mint-Changed :
    (env : Env) (to : Address) (amount : ℤ) (l l' : Ledger)
    → Token.mint env to amount l ≡ ok (tt, l')
    → Changed to amount l l'
unfolding Token.mint
mint-Changed env to amount l l' e = record { changed = ground arith; others = λ b n. ground arith }

module _ (from : Address) (amount : ℤ) (l l' : Ledger) where
  debit-Changed : debit from amount l ≡ ok (tt, l') → Changed from (pos 0 -ℤ amount) l l'
  debit-Changed e = record {
    changed = ground (arith, -ℤ_lem (balance l from) amount);
    others = λ b n. ground arith;
  }

  pub burn-Changed :
      (env : Env) → Token.burn env from amount l ≡ ok (tt, l') → Changed from (pos 0 -ℤ amount) l l'
  unfolding Token.burn
  burn-Changed env e = debit-Changed (ground arith)

-- What `transfer_from` and `burn_from` have checked of the allowance, and what is left of it.
pub record Spent (env : Env) (spender from : Address) (amount : ℤ) (l l' : Ledger) : Type 0 where
  pub value : AllowanceValue
  pub granted : l.allowances from spender ≡ some value
  pub unexpired : env.sequence ≤ value.expiration_ledger
  pub left : l'.allowances from spender ≡ some (record value { amount = value.amount -ℤ amount })
  pub covers : neg_part (value.amount -ℤ amount) ≡ 0
  pub others : (a b : Address) → (a ≢ from) ⊎ (b ≢ spender) → l'.allowances a b ≡ l.allowances a b

module _ (env : Env) (spender from : Address) (amount : ℤ) (l l' : Ledger) where
  spend_allowance-Spent :
      spend_allowance env spender from amount l ≡ ok l'
      → Spent env spender from amount l l' × (l'.balances ≡ l.balances)
  spend_allowance-Spent e = elim (Option-cases (l.allowances from spender)) [
    | inl missing ↦ absurd (ground arith)
    | inr (v, granted) ↦ (
      record {
        value = v;
        granted = granted;
        unexpired = ground arith;
        left = ground arith;
        covers = ground arith;
        others = λ a b n. ground arith;
      },
      ground arith,
    )
  ]

  after_move :
      (m : Ledger) (to : Address)
      → move from to amount m ≡ ok (tt, l')
      → l'.allowances ≡ m.allowances
  after_move m to e = ground arith

  after_debit : (m : Ledger) → debit from amount m ≡ ok (tt, l') → l'.allowances ≡ m.allowances
  after_debit m e = ground arith

  -- The steps of a `transfer_from` that ends.
  pub transfer_from_chain :
      (to : Address)
      → Token.transfer_from env spender from to amount l ≡ ok (tt, l')
      → (m : Ledger) × (spend_allowance env spender from amount l ≡ ok m)
        × (neg_part amount ≡ 0)
        × (move from to amount m ≡ ok (tt, l'))
        × (env.authorised spender ≡ true)
  unfolding Token.transfer_from
  transfer_from_chain to e = elim (outcome_cases (spend_allowance env spender from amount l)) [
    | inr stopped ↦ absurd (ground arith)
    | inl (m, spent) ↦ (m, spent, ground arith, ground arith, ground arith)
  ]

  -- The steps of a `burn_from` that ends.
  pub burn_from_chain :
      Token.burn_from env spender from amount l ≡ ok (tt, l')
      → (m : Ledger) × (spend_allowance env spender from amount l ≡ ok m)
        × (neg_part amount ≡ 0)
        × (debit from amount m ≡ ok (tt, l'))
        × (env.authorised spender ≡ true)
  unfolding Token.burn_from
  burn_from_chain e = elim (outcome_cases (spend_allowance env spender from amount l)) [
    | inr stopped ↦ absurd (ground arith)
    | inl (m, spent) ↦ (m, spent, ground arith, ground arith, ground arith)
  ]

-- What a `move` that ends has done: the amount has moved between two accounts, or an account has moved it
-- to itself and is credited with it.
abbrev pub MovedOrCredited : (from to : Address) (amount : ℤ) (l l' : Ledger) → Type 0
MovedOrCredited from to amount l l' =
    ((from ≢ to) × Moved from to amount l l') ⊎ ((from ≡ to) × Changed from amount l l')

move-MovedOrCredited :
    (from to : Address) (amount : ℤ) (l l' : Ledger)
    → move from to amount l ≡ ok (tt, l')
    → MovedOrCredited from to amount l l'
move-MovedOrCredited from to amount l l' e = elim (ℕ_discrete from to) [
  | yes same ↦ inr (same, record { changed = ground arith; others = λ a n. ground arith })
  | no other ↦ inl (other, move-Moved from to amount l l' other e)
]

MovedOrCredited-same :
    (from to : Address) (amount : ℤ) (l m l' : Ledger)
    → m.balances ≡ l.balances
    → MovedOrCredited from to amount m l'
    → MovedOrCredited from to amount l l'
MovedOrCredited-same from to amount l m l' same (inl (d, x)) = inl (
  d,
  record {
    paid = ground (arith, x.paid);
    received = ground (arith, x.received);
    covers = x.covers;
    others = λ a n k. ground (arith, x.others a n k);
  },
)
MovedOrCredited-same from to amount l m l' same (inr (d, x)) = inr (
  d,
  record { changed = ground (arith, x.changed); others = λ a n. ground (arith, x.others a n) },
)

module _ (env : Env) (spender from : Address) (amount : ℤ) (l l' : Ledger) where
  -- A transfer on behalf of another account that ends was authorised by the spender, who had an
  -- unexpired allowance of at least the amount, which is not negative; the allowance shrinks by the
  -- amount, and no other allowance changes. Between two accounts the amount moves, the payer keeps a
  -- balance of 0 or more, and no other balance changes; from an account to itself the amount is credited
  -- and nothing is paid.
  pub transfer_from-Spent :
      (to : Address)
      → Token.transfer_from env spender from to amount l ≡ ok (tt, l')
      → (env.authorised spender ≡ true)
        × (neg_part amount ≡ 0)
        × Spent env spender from amount l l'
        × MovedOrCredited from to amount l l'
  transfer_from-Spent to e =
      let (m, spent, signed, moved, authorised) =
        transfer_from_chain env spender from amount l l' to e in
      let (s, same) = spend_allowance-Spent env spender from amount l m spent in
      let kept = after_move env spender from amount m l' m to moved in
      (
        authorised,
        signed,
        record {
          value = s.value;
          granted = s.granted;
          unexpired = s.unexpired;
          left = ground (arith, s.left);
          covers = s.covers;
          others = λ a b n. ground (arith, s.others a b n);
        },
        MovedOrCredited-same from to amount l m l' same
            (move-MovedOrCredited from to amount m l' moved),
      )

  pub transfer_from-Moved :
      (to : Address)
      → from ≢ to
      → Token.transfer_from env spender from to amount l ≡ ok (tt, l')
      → Moved from to amount l l'
  transfer_from-Moved to d e = elim ((transfer_from-Spent to e).3) [
    | inl (other, x) ↦ x
    | inr (same, x) ↦ absurd (d same)
  ]

  -- So with a burn on behalf of another account: it takes the amount off the allowance and off the
  -- owner's balance, and changes nothing else.
  pub burn_from-Spent :
      Token.burn_from env spender from amount l ≡ ok (tt, l')
      → (env.authorised spender ≡ true)
        × (neg_part amount ≡ 0)
        × Spent env spender from amount l l'
        × Changed from (pos 0 -ℤ amount) l l'
  burn_from-Spent e =
      let (m, spent, signed, taken, authorised) = burn_from_chain env spender from amount l l' e in
      let (s, same) = spend_allowance-Spent env spender from amount l m spent in
      let x = debit-Changed from amount m l' taken in
      let kept = after_debit env spender from amount m l' m taken in
      (
        authorised,
        signed,
        record {
          value = s.value;
          granted = s.granted;
          unexpired = s.unexpired;
          left = ground (arith, s.left);
          covers = s.covers;
          others = λ a b n. ground (arith, s.others a b n);
        },
        record {
          changed = ground (arith, x.changed);
          others = λ a n. ground (arith, x.others a n);
        },
      )
