-- ===== src/Contracts/Token/Supply.antt =====
-- The supply of the token of contracts/my-contract/src/lib.rs over any sequence of its calls.
use Prim.Native.String.{String}
use sanctifier.Base.{
  Bool-cases, ℕ, ◌≡◌, ◌≢◌, refl, ◌∙◌, sym, true, false, ◌==◌, if◌then◌else◌, List, [], ◌∷◌,
  contains, IsNodup, arith, inl, inr,
}
use sanctifier.Base.Int.{ℤ, pos, ◌+ℤ◌, ◌-ℤ◌, -ℤ_lem, +ℤ_right_comm, +ℤ_assoc, +ℤ_cancel, +ℤ_zero}
use sanctifier.Host.{Address, Env, ok, commit, is_ok, commit-keeps, commit_cases}
use sanctifier.Contracts.Token
use sanctifier.Contracts.Token.{Ledger, balance, set_balance}
use sanctifier.Contracts.Token.Transfers.{
  Moved, transfer-Moved, transfer_from-Moved, Changed, mint-Changed, burn-Changed, burn_from-Spent,
}

-- A call of an entry point that writes.
pub data Call : Type 0 where
  initialize : Address → ℕ → String → String → Call
  mint : Address → ℤ → Call
  approve : Address → Address → ℤ → ℕ → Call
  transfer : Address → Address → ℤ → Call
  transfer_from : Address → Address → Address → ℤ → Call
  burn : Address → ℤ → Call
  burn_from : Address → Address → ℤ → Call

unfoldable pub apply : Env → Call → Ledger → Ledger
apply env (Call.initialize a d n s) l = commit l (Token.initialize env a d n s l)
apply env (Call.mint to amount) l = commit l (Token.mint env to amount l)
apply env (Call.approve from x amount t) l = commit l (Token.approve env from x amount t l)
apply env (Call.transfer from to amount) l = commit l (Token.transfer env from to amount l)
apply env (Call.transfer_from x from to amount) l =
    commit l (Token.transfer_from env x from to amount l)
apply env (Call.burn from amount) l = commit l (Token.burn env from amount l)
apply env (Call.burn_from x from amount) l = commit l (Token.burn_from env x from amount l)

unfoldable pub run : List (Env × Call) → Ledger → Ledger
run [] l = l
run ((env, call) ∷ calls) l = run calls (apply env call l)

-- What a call adds to the supply: a mint that ends its amount, a burn that ends minus its amount.
unfoldable pub issued : Env → Call → Ledger → ℤ
issued env (Call.mint to amount) l = if is_ok (Token.mint env to amount l) then amount else pos 0
issued env (Call.burn from amount) l =
    if is_ok (Token.burn env from amount l) then pos 0 -ℤ amount else pos 0
issued env (Call.burn_from x from amount) l =
    if is_ok (Token.burn_from env x from amount l) then pos 0 -ℤ amount else pos 0
issued env _ l = pos 0

unfoldable pub run_issued : List (Env × Call) → Ledger → ℤ
run_issued [] l = pos 0
run_issued ((env, call) ∷ calls) l = issued env call l +ℤ run_issued calls (apply env call l)

-- The sum of the balances of the holders.
unfoldable pub total : List Address → Ledger → ℤ
total [] l = pos 0
total (a ∷ holders) l = balance l a +ℤ total holders l

-- The accounts of the call are among the holders, and it is no transfer of an account to itself.
abbrev pub IsAmong : List Address → Call → Type 0
IsAmong holders (Call.mint to amount) = contains to holders ≡ true
IsAmong holders (Call.burn from amount) = contains from holders ≡ true
IsAmong holders (Call.burn_from x from amount) = contains from holders ≡ true
IsAmong holders (Call.transfer from to amount) =
    (contains from holders ≡ true) × (contains to holders ≡ true) × (from ≢ to)
IsAmong holders (Call.transfer_from x from to amount) =
    (contains from holders ≡ true) × (contains to holders ≡ true) × (from ≢ to)
IsAmong holders _ = Unit

abbrev pub AllAmong : List Address → List (Env × Call) → Type 0
AllAmong holders [] = Unit
AllAmong holders ((env, call) ∷ calls) = IsAmong holders call × AllAmong holders calls

total-same :
    (holders : List Address) (l l' : Ledger) (a : Address)
    → contains a holders ≡ false
    → ((b : Address) → b ≢ a → balance l' b ≡ balance l b)
    → total holders l' ≡ total holders l
unfolding total
total-same [] l l' a out same = refl
total-same (h ∷ holders) l l' a out same =
    ground (arith, same h, total-same holders l l' a (ground arith) same)

total-Changed :
    (holders : List Address) (l l' : Ledger) (a : Address) (d : ℤ)
    → IsNodup holders
    → contains a holders ≡ true
    → Changed a d l l'
    → total holders l' ≡ total holders l +ℤ d
unfolding total
total-Changed [] l l' a d n within x = absurd (ground arith)
total-Changed (h ∷ holders) l l' a d (n, ns) within x = elim (Bool-cases (h == a)) [
  | inl same ↦ ground (
    arith,
    x.changed,
    +ℤ_right_comm (balance l h) d (total holders l),
    total-same holders l l' a (ground arith) x.others,
  )
  | inr apart ↦ ground (
    arith,
    x.others h,
    +ℤ_assoc (balance l h) (total holders l) d,
    total-Changed holders l l' a d ns (ground arith) x,
  )
]

-- A payment between two holders, as a change of the one balance and then of the other.
total-Moved :
    (holders : List Address) (l l' : Ledger) (from to : Address) (amount : ℤ)
    → IsNodup holders
    → contains from holders ≡ true
    → contains to holders ≡ true
    → from ≢ to
    → Moved from to amount l l'
    → total holders l' ≡ total holders l
total-Moved holders l l' from to amount n cf ct d x =
    let m = set_balance from (balance l' from) l in
    let first : Changed from (pos 0 -ℤ amount) l m = record {
      changed = ground (arith, x.paid, -ℤ_lem (balance l from) amount);
      others = λ b n. ground arith;
    } in
    let second : Changed to amount m l' = record {
      changed = ground (arith, x.received);
      others = λ b n. ground (arith, x.others b);
    } in
    let e1 = total-Changed holders l m from (pos 0 -ℤ amount) n cf first in
    let e2 = total-Changed holders m l' to amount n ct second in
    cc (e1, e2, -ℤ_lem (total holders l) amount, +ℤ_cancel (total holders l) amount)

total-balances :
    (holders : List Address) (l l' : Ledger)
    → l'.balances ≡ l.balances
    → total holders l' ≡ total holders l
unfolding total
total-balances [] l l' e = refl
total-balances (h ∷ holders) l l' e = ground (arith, total-balances holders l l' e)

module _ (holders : List Address) (distinct : IsNodup holders) where
  initialize-supply :
      (env : Env) (a : Address) (d : ℕ) (n s : String) (l : Ledger)
      → total holders (apply env (Call.initialize a d n s) l) ≡ total holders l
  unfolding apply Token.initialize
  initialize-supply env a d n s l =
      total-balances holders l (apply env (Call.initialize a d n s) l) (ground arith)

  approve-supply :
      (env : Env) (a x : Address) (amount : ℤ) (t : ℕ) (l : Ledger)
      → total holders (apply env (Call.approve a x amount t) l) ≡ total holders l
  unfolding apply Token.approve
  approve-supply env a x amount t l =
      total-balances holders l (apply env (Call.approve a x amount t) l) (ground arith)

  mint-supply :
      (env : Env) (to : Address) (amount : ℤ) (l : Ledger)
      → contains to holders ≡ true
      → total holders (apply env (Call.mint to amount) l)
        ≡ total holders l +ℤ issued env (Call.mint to amount) l
  unfolding apply issued
  mint-supply env to amount l i =
      let h = λ (l' : Ledger) (e : Token.mint env to amount l ≡ ok (tt, l')).
        total-Changed holders l l' to amount distinct i (mint-Changed env to amount l l' e) in
      elim (commit_cases l (Token.mint env to amount l)) [
        | inl (x, (l', e)) ↦ ground (arith, h l' e)
        | inr stopped ↦ ground (arith, +ℤ_zero (total holders l))
      ]

  burn-supply :
      (env : Env) (from : Address) (amount : ℤ) (l : Ledger)
      → contains from holders ≡ true
      → total holders (apply env (Call.burn from amount) l)
        ≡ total holders l +ℤ issued env (Call.burn from amount) l
  unfolding apply issued
  burn-supply env from amount l i =
      let h = λ (l' : Ledger) (e : Token.burn env from amount l ≡ ok (tt, l')).
        total-Changed holders l l' from (pos 0 -ℤ amount) distinct i
          (burn-Changed from amount l l' env e) in
      elim (commit_cases l (Token.burn env from amount l)) [
        | inl (x, (l', e)) ↦ ground (arith, h l' e)
        | inr stopped ↦ ground (arith, +ℤ_zero (total holders l))
      ]

  burn_from-supply :
      (env : Env) (x from : Address) (amount : ℤ) (l : Ledger)
      → contains from holders ≡ true
      → total holders (apply env (Call.burn_from x from amount) l)
        ≡ total holders l +ℤ issued env (Call.burn_from x from amount) l
  unfolding apply issued
  burn_from-supply env x from amount l i =
      let h = λ (l' : Ledger) (e : Token.burn_from env x from amount l ≡ ok (tt, l')).
        total-Changed holders l l' from (pos 0 -ℤ amount) distinct i
          (burn_from-Spent env x from amount l l' e).3 in
      elim (commit_cases l (Token.burn_from env x from amount l)) [
        | inl (u, (l', e)) ↦ ground (arith, h l' e)
        | inr stopped ↦ ground (arith, +ℤ_zero (total holders l))
      ]

  transfer-supply :
      (env : Env) (a b : Address) (amount : ℤ) (l : Ledger)
      → (contains a holders ≡ true) × (contains b holders ≡ true) × (a ≢ b)
      → total holders (apply env (Call.transfer a b amount) l) ≡ total holders l
  unfolding apply
  transfer-supply env a b amount l (ca, cb, d) =
      let keep = λ (l' : Ledger). total holders l' ≡ total holders l in
      commit-keeps keep l (Token.transfer env a b amount l) refl (λ u l' e.
        total-Moved holders l l' a b amount distinct ca cb d
          (transfer-Moved a b amount l l' env d e).2)

  transfer_from-supply :
      (env : Env) (x a b : Address) (amount : ℤ) (l : Ledger)
      → (contains a holders ≡ true) × (contains b holders ≡ true) × (a ≢ b)
      → total holders (apply env (Call.transfer_from x a b amount) l) ≡ total holders l
  unfolding apply
  transfer_from-supply env x a b amount l (ca, cb, d) =
      let keep = λ (l' : Ledger). total holders l' ≡ total holders l in
      commit-keeps keep l (Token.transfer_from env x a b amount l) refl (λ u l' e.
        total-Moved holders l l' a b amount distinct ca cb d
          (transfer_from-Moved env x a amount l l' b d e))

  apply-supply :
      (env : Env) (call : Call) (l : Ledger)
      → IsAmong holders call
      → total holders (apply env call l) ≡ total holders l +ℤ issued env call l
  unfolding issued
  apply-supply env (Call.initialize a d n s) l i =
      initialize-supply env a d n s l ∙ sym (+ℤ_zero (total holders l))
  apply-supply env (Call.approve a x amount t) l i =
      approve-supply env a x amount t l ∙ sym (+ℤ_zero (total holders l))
  apply-supply env (Call.mint to amount) l i = mint-supply env to amount l i
  apply-supply env (Call.burn a amount) l i = burn-supply env a amount l i
  apply-supply env (Call.burn_from x a amount) l i = burn_from-supply env x a amount l i
  apply-supply env (Call.transfer a b amount) l i =
      transfer-supply env a b amount l i ∙ sym (+ℤ_zero (total holders l))
  apply-supply env (Call.transfer_from x a b amount) l i =
      transfer_from-supply env x a b amount l i ∙ sym (+ℤ_zero (total holders l))

  -- Over any sequence of calls whose accounts are among the holders and that has no transfer of an
  -- account to itself, the sum of the holders' balances changes by what the mints that ended have
  -- issued less what the burns that ended have destroyed.
  pub run-supply :
      (calls : List (Env × Call)) (l : Ledger)
      → AllAmong holders calls
      → total holders (run calls l) ≡ total holders l +ℤ run_issued calls l
  unfolding run run_issued
  run-supply [] l i = sym (+ℤ_zero (total holders l))
  run-supply ((env, call) ∷ calls) l (i, is') =
      let e = apply-supply env call l i in
      let h = run-supply calls (apply env call l) is' in
      cc
        (e, h, +ℤ_assoc (total holders l) (issued env call l) (run_issued calls (apply env call l)))
