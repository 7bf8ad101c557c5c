-- ===== src/Contracts/Flashloan/Loans.antt =====
-- What a loan of contracts/flashloan-token/src/lib.rs has checked, and what it leaves.
use sanctifier.Base.{
  ℕ, ◌*◌, ◌/◌, ◌<◌, ◌≡◌, refl, true, false, some, List, arith, Option-cases, inl, inr,
}
use sanctifier.Base.Int.{ℤ, pos, negsuc, ◌+ℤ◌, ◌-ℤ◌, ◌*ℤ◌, ◌/ℤ◌, ◌≤ℤ◌}
use sanctifier.Host.{Address, Env, ok, unwrap_or, saturating_suc, outcome_cases}
use sanctifier.Contracts.Flashloan
use sanctifier.Contracts.Flashloan.{World, Lender, fee_of, saturating_add, default_fee_bps}

-- The fee of a positive amount.
fee_of-pos : (a bps : ℕ) (fee : ℤ) → fee_of (pos a) bps ≡ ok fee → fee ≡ pos (a * bps / 10_000)
unfolding fee_of ◌*ℤ◌ ◌/ℤ◌
fee_of-pos a bps fee e = ground arith

module _ (world : World) (env : Env) (receiver token : Address) (params : List ℕ) where
  pub record Repaid (amount : ℤ) (r : ℤ) (s s' : world.State) (l l' : Lender) : Type 0 where
    pub running : unwrap_or l.paused false ≡ false
    pub free : unwrap_or l.lock false ≡ false
    pub size : ℕ
    pub is_size : amount ≡ pos size
    pub positive : 0 < size
    pub before : ℤ
    pub after : ℤ
    pub balance_before : world.balance token env.current_contract_address s ≡ some before
    pub balance_after : world.balance token env.current_contract_address s' ≡ some after
    pub repaid : before +ℤ pos (size * unwrap_or l.fee_bps default_fee_bps / 10_000) ≤ℤ after
    pub collected : r ≡ after -ℤ before
    pub released : l'.lock ≡ some false
    pub fees : l'.total_fees ≡ some (saturating_add (unwrap_or l.total_fees (pos 0)) r)
    pub loans : l'.total_loans ≡ some (saturating_suc (unwrap_or l.total_loans 0))
    pub same : (l'.admin ≡ l.admin) × (l'.fee_bps ≡ l.fee_bps) × (l'.paused ≡ l.paused)

  positive_loan :
      (a : ℕ) (r : ℤ) (s s' : world.State) (l l' : Lender)
      → Flashloan.flashloan world env receiver token (pos a) params (s, l) ≡ ok (r, (s', l'))
      → Repaid (pos a) r s s' l l'
  unfolding Flashloan.flashloan
  positive_loan a r s s' l l' e =
      let bps = unwrap_or l.fee_bps default_fee_bps in
      let self = env.current_contract_address in
      let locked = record l { lock = some true } in
      elim (outcome_cases (fee_of (pos a) bps)) [
        | inr stopped ↦ absurd (ground arith)
        | inl (fee, ef) ↦ elim (Option-cases (world.balance token self s)) [
          | inl missing ↦ absurd (ground arith)
          | inr (before, eb) ↦ elim (Option-cases (world.transfer token self receiver (pos a) s)) [
            | inl missing ↦ absurd (ground arith)
            | inr (lent, et) ↦
                elim (Option-cases
                  (world.execute_operation locked receiver token (pos a) fee params lent)) [
                    | inl missing ↦ absurd (ground arith)
                    | inr (returned, er) ↦ elim (Option-cases (world.balance token self returned)) [
                      | inl missing ↦ absurd (ground arith)
                      | inr (after, ea) ↦ record {
                        running = ground arith;
                        free = ground arith;
                        size = a;
                        is_size = refl;
                        positive = ground arith;
                        before = before;
                        after = after;
                        balance_before = eb;
                        balance_after = ground arith;
                        repaid = ground (arith, fee_of-pos a bps fee ef);
                        collected = ground arith;
                        released = ground arith;
                        fees = ground arith;
                        loans = ground arith;
                        same = (ground arith, ground arith, ground arith);
                      }
                    ]
                  ]
          ]
        ]
      ]

  -- A loan that ends was given for a positive amount while the lender was neither paused nor
  -- locked; afterwards the lender owns at least its balance before and the fee, the lock is free,
  -- and the gain and the loan are counted.
  pub flashloan-Repaid :
      (amount r : ℤ) (s s' : world.State) (l l' : Lender)
      → Flashloan.flashloan world env receiver token amount params (s, l) ≡ ok (r, (s', l'))
      → Repaid amount r s s' l l'
  unfolding Flashloan.flashloan
  flashloan-Repaid (pos a) r s s' l l' e = positive_loan a r s s' l l' e
  flashloan-Repaid (negsuc a) r s s' l l' e = absurd (ground arith)
