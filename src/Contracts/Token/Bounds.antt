-- ===== src/Contracts/Token/Bounds.antt =====
-- The signs of the balances and of the allowances of contracts/my-contract/src/lib.rs.
use Prim.Native.String.{String}
use sanctifier.Base.{ℕ, ◌≡◌, Option, none, some, List, [], ◌∷◌, arith}
use sanctifier.Base.Int.{ℤ, neg_part, ◌+ℤ◌}
use sanctifier.Host.{Address, Env, ok, commit-keeps}
use sanctifier.Contracts.Token
use sanctifier.Contracts.Token.{Ledger, AllowanceValue, balance, move, debit, spend_allowance}
use sanctifier.Contracts.Token.Transfers.{transfer_from_chain, burn_from_chain}
use sanctifier.Contracts.Token.Supply.{Call, apply, run}

abbrev pub IsCredit : Option AllowanceValue → Type 0
IsCredit none = Unit
IsCredit (some v) = neg_part v.amount ≡ 0

-- No balance and no allowance is negative.
pub record IsNonNegative (l : Ledger) : Type 0 where
  pub balances : (a : Address) → neg_part (balance l a) ≡ 0
  pub allowances : (a b : Address) → IsCredit (l.allowances a b)

sum_of_credits : (a b : ℤ) → neg_part a ≡ 0 → neg_part b ≡ 0 → neg_part (a +ℤ b) ≡ 0
unfolding ◌+ℤ◌
sum_of_credits a b h k = ground arith

module _ (l l' : Ledger) (n : IsNonNegative l) where
  initialize-IsNonNegative :
      (env : Env) (a : Address) (d : ℕ) (m t : String)
      → Token.initialize env a d m t l ≡ ok (tt, l')
      → IsNonNegative l'
  unfolding Token.initialize
  initialize-IsNonNegative env a d m t e = record {
    balances = λ a. ground (arith, n.balances a);
    allowances = λ a b. ground (arith, n.allowances a b);
  }

  mint-IsNonNegative :
      (env : Env) (to : Address) (amount : ℤ)
      → Token.mint env to amount l ≡ ok (tt, l')
      → IsNonNegative l'
  unfolding Token.mint
  mint-IsNonNegative env to amount e =
      let signed : neg_part amount ≡ 0 = ground arith in
      record {
        balances = λ a.
            ground
              (arith, n.balances a, sum_of_credits (balance l to) amount (n.balances to) signed);
        allowances = λ a b. ground (arith, n.allowances a b);
      }

  approve-IsNonNegative :
      (env : Env) (from x : Address) (amount : ℤ) (t : ℕ)
      → Token.approve env from x amount t l ≡ ok (tt, l')
      → IsNonNegative l'
  unfolding Token.approve
  approve-IsNonNegative env from x amount t e = record {
    balances = λ a. ground (arith, n.balances a);
    allowances = λ a b. ground (arith, n.allowances a b);
  }

  move-IsNonNegative :
      (from to : Address) (amount : ℤ)
      → neg_part amount ≡ 0
      → move from to amount l ≡ ok (tt, l')
      → IsNonNegative l'
  move-IsNonNegative from to amount h e = record {
    balances =
        λ a. ground (arith, n.balances a, sum_of_credits (balance l to) amount (n.balances to) h);
    allowances = λ a b. ground (arith, n.allowances a b);
  }

  debit-IsNonNegative :
      (from : Address) (amount : ℤ) → debit from amount l ≡ ok (tt, l') → IsNonNegative l'
  debit-IsNonNegative from amount e = record {
    balances = λ a. ground (arith, n.balances a);
    allowances = λ a b. ground (arith, n.allowances a b);
  }

  spend-IsNonNegative :
      (env : Env) (spender from : Address) (amount : ℤ)
      → spend_allowance env spender from amount l ≡ ok l'
      → IsNonNegative l'
  spend-IsNonNegative env spender from amount e = record {
    balances = λ a. ground (arith, n.balances a);
    allowances = λ a b. ground (arith, n.allowances a b);
  }

  transfer-IsNonNegative :
      (env : Env) (from to : Address) (amount : ℤ)
      → Token.transfer env from to amount l ≡ ok (tt, l')
      → IsNonNegative l'
  unfolding Token.transfer
  transfer-IsNonNegative env from to amount e =
      move-IsNonNegative from to amount (ground arith) (ground arith)

  burn-IsNonNegative :
      (env : Env) (from : Address) (amount : ℤ)
      → Token.burn env from amount l ≡ ok (tt, l')
      → IsNonNegative l'
  unfolding Token.burn
  burn-IsNonNegative env from amount e = debit-IsNonNegative from amount (ground arith)

module _ (l l' : Ledger) (n : IsNonNegative l) (env : Env) (x from : Address) (amount : ℤ) where
  transfer_from-IsNonNegative :
      (to : Address) → Token.transfer_from env x from to amount l ≡ ok (tt, l') → IsNonNegative l'
  transfer_from-IsNonNegative to e =
      let (m, spent, signed, moved, authorised) = transfer_from_chain env x from amount l l' to e in
      move-IsNonNegative m l' (spend-IsNonNegative l m n env x from amount spent) from to amount
        signed moved

  burn_from-IsNonNegative : Token.burn_from env x from amount l ≡ ok (tt, l') → IsNonNegative l'
  burn_from-IsNonNegative e =
      let (m, spent, signed, taken, authorised) = burn_from_chain env x from amount l l' e in
      debit-IsNonNegative m l' (spend-IsNonNegative l m n env x from amount spent) from amount taken

apply-IsNonNegative :
    (env : Env) (call : Call) (l : Ledger) → IsNonNegative l → IsNonNegative (apply env call l)
unfolding apply
apply-IsNonNegative env (Call.initialize a d m t) l n =
    commit-keeps IsNonNegative l (Token.initialize env a d m t l) n
      (λ u l'. initialize-IsNonNegative l l' n env a d m t)
apply-IsNonNegative env (Call.mint to amount) l n =
    commit-keeps IsNonNegative l (Token.mint env to amount l) n
      (λ u l'. mint-IsNonNegative l l' n env to amount)
apply-IsNonNegative env (Call.approve from x amount t) l n =
    commit-keeps IsNonNegative l (Token.approve env from x amount t l) n
      (λ u l'. approve-IsNonNegative l l' n env from x amount t)
apply-IsNonNegative env (Call.transfer from to amount) l n =
    commit-keeps IsNonNegative l (Token.transfer env from to amount l) n
      (λ u l'. transfer-IsNonNegative l l' n env from to amount)
apply-IsNonNegative env (Call.transfer_from x from to amount) l n =
    commit-keeps IsNonNegative l (Token.transfer_from env x from to amount l) n
      (λ u l'. transfer_from-IsNonNegative l l' n env x from amount to)
apply-IsNonNegative env (Call.burn from amount) l n =
    commit-keeps IsNonNegative l (Token.burn env from amount l) n
      (λ u l'. burn-IsNonNegative l l' n env from amount)
apply-IsNonNegative env (Call.burn_from x from amount) l n =
    commit-keeps IsNonNegative l (Token.burn_from env x from amount l) n
      (λ u l'. burn_from-IsNonNegative l l' n env x from amount)

-- After any sequence of calls no balance and no allowance is negative, if none was before.
pub run-IsNonNegative :
    (calls : List (Env × Call)) (l : Ledger) → IsNonNegative l → IsNonNegative (run calls l)
unfolding run
run-IsNonNegative [] l n = n
run-IsNonNegative ((env, call) ∷ calls) l n =
    run-IsNonNegative calls (apply env call l) (apply-IsNonNegative env call l n)
