-- ===== src/Contracts/AmmPool/History.antt =====
-- Any sequence of calls of the pool of contracts/amm-pool/src/lib.rs, and its storage.
use sanctifier.Base.{
  ℕ, ◌+◌, ◌-◌, ◌*◌, ◌≤◌, ◌<◌, ◌≡◌, ◌≢◌, inl, inr, none, some, List, [], ◌∷◌, arith, Option-cases,
  Bool-cases,
}
use sanctifier.Base.Products.{mul_mono, fraction_trans, fraction_mul}
use sanctifier.Host.{commit, Address, Env}
use sanctifier.Contracts.AmmPool.{
  Pool, AmmError, first_deposit, add_liquidity_body, remove_liquidity_body, swap_body,
}
use sanctifier.Contracts.AmmPool
use sanctifier.Contracts.AmmPool.Arithmetic.{minimum_liquidity}
use sanctifier.Contracts.AmmPool.Invariant.{Funded, IsEmpty, IsWellFormed, empty, funded}
use sanctifier.Contracts.AmmPool.Swap.{swap_body-product}
use sanctifier.Contracts.AmmPool.Liquidity.{
  NotDiluted, first_deposit-Funded, add_liquidity_body-later, remove_liquidity_body_lem,
}

-- A call of an entry point that writes.
pub data Call : Type 0 where
  add_liquidity : Address → Address → ℕ → ℕ → ℕ → Call
  remove_liquidity : ℕ → ℕ → ℕ → Call
  swap : Address → ℕ → ℕ → Call
  migrate : ℕ → Call

unfoldable pub apply : Env → Call → Pool → Pool
apply env (Call.add_liquidity t u x y m) p = commit p (AmmPool.add_liquidity env t u x y m p)
apply env (Call.remove_liquidity l m n) p = commit p (AmmPool.remove_liquidity env l m n p)
apply env (Call.swap t x m) p = commit p (AmmPool.swap env t x m p)
apply env (Call.migrate v) p = commit p (AmmPool.migrate env v p)

unfoldable pub run : List (Env × Call) → Pool → Pool
run [] p = p
run ((env, c) ∷ cs) p = run cs (apply env c p)

-- The reserves per liquidity token, as the product of both, have not fallen.
abbrev pub ValueKept : (a b s a' b' s' : ℕ) → Type 0
ValueKept a b s a' b' s' = a * b * (s' * s') ≤ a' * b' * (s * s)

-- What is left of a seeded pool: the same pair, and no less value to a liquidity token.
pub data Kept (ta tb : Address) (a b s : ℕ) (p : Pool) : Type 0 where
  kept : (a' b' s' : ℕ) → Funded p ta tb a' b' s' → ValueKept a b s a' b' s' → Kept ta tb a b s p

module _ {p : Pool} {ta tb : Address} {a b s : ℕ} (f : Funded p ta tb a b s) where
  same : Kept ta tb a b s p
  same = kept a b s f (omega arith)

  not_diluted :
      {p' : Pool} (a' b' s' : ℕ)
      → Funded p' ta tb a' b' s'
      → NotDiluted a b s a' b' s'
      → Kept ta tb a b s p'
  not_diluted a' b' s' f' d = kept a' b' s' f' (fraction_mul a b a' b' s s' d.share_a d.share_b)

  add_liquidity-Kept :
      (env : Env) (t u : Address) (x y m : ℕ)
      → Kept ta tb a b s (commit p (AmmPool.add_liquidity env t u x y m p))
  unfolding AmmPool.add_liquidity
  add_liquidity-Kept env t u x y m =
      elim (Bool-cases (env.authorised env.current_contract_address)) [
        | inr denied ↦ rw denied same
        | inl granted ↦ elim (Option-cases (add_liquidity_body t u x y m p)) [
          | inl refused ↦ rw (granted, refused) same
          | inr ((k, p'), e) ↦
              let (f', d, _, _, _, _) = add_liquidity_body-later ta tb t u a b s x y m k p p' f e in
              rw (granted, e) (not_diluted (a + x) (b + y) (s + k) f' d)
        ]
      ]

  remove_liquidity-Kept :
      (env : Env) (l m n : ℕ) → Kept ta tb a b s (commit p (AmmPool.remove_liquidity env l m n p))
  unfolding AmmPool.remove_liquidity
  remove_liquidity-Kept env l m n =
      elim (Bool-cases (env.authorised env.current_contract_address)) [
        | inr denied ↦ rw denied same
        | inl granted ↦ elim (Option-cases (remove_liquidity_body l m n p)) [
          | inl refused ↦ rw (granted, refused) same
          | inr (((o, q), p'), e) ↦
              let (f', d, _, _, _, _) = remove_liquidity_body_lem ta tb a b s l m n o q p p' f e in
              rw (granted, e) (not_diluted (a - o) (b - q) (s - l) f' d)
        ]
      ]

  swap-Kept :
      (env : Env) (t : Address) (x m : ℕ) → Kept ta tb a b s (commit p (AmmPool.swap env t x m p))
  unfolding AmmPool.swap
  swap-Kept env t x m = elim (Bool-cases (env.authorised env.current_contract_address)) [
    | inr denied ↦ rw denied same
    | inl granted ↦ elim (Option-cases (swap_body t x m p)) [
      | inl refused ↦ rw (granted, refused) same
      | inr ((out, p'), e) ↦
          let (a', b', f', _, grows) = swap_body-product t ta tb a b s x m out p p' f e in
          rw (granted, e)
            (kept a' b' s f' (mul_mono (a * b) (a' * b') (s * s) (s * s) grows (omega arith)))
    ]
  ]

  migrate-Kept : (env : Env) (v : ℕ) → Kept ta tb a b s (commit p (AmmPool.migrate env v p))
  unfolding AmmPool.migrate
  migrate-Kept env v = kept a b s (ground arith) (omega arith)

  apply-Kept : (env : Env) (c : Call) → Kept ta tb a b s (apply env c p)
  unfolding apply
  apply-Kept env (Call.add_liquidity t u x y m) = add_liquidity-Kept env t u x y m
  apply-Kept env (Call.remove_liquidity l m n) = remove_liquidity-Kept env l m n
  apply-Kept env (Call.swap t x m) = swap-Kept env t x m
  apply-Kept env (Call.migrate v) = migrate-Kept env v

Kept-trans :
    {ta tb : Address} {a b s : ℕ} {q : Pool} (a' b' s' : ℕ)
    → 0 < s'
    → ValueKept a b s a' b' s'
    → Kept ta tb a' b' s' q
    → Kept ta tb a b s q
Kept-trans {a = a} {b} {s} a' b' s' pos k (kept a'' b'' s'' f l) = kept a'' b'' s'' f (
    fraction_trans (a * b) (a' * b') (a'' * b'') (s * s) (s' * s') (s'' * s'')
      (mul_mono 1 s' 1 s' pos pos) k l)

-- After any sequence of calls, by anyone, a seeded pool still holds its pair, two positive
-- reserves and the locked supply, and the product of the reserves per squared token has not fallen.
pub run-Kept :
    (cs : List (Env × Call)) (p : Pool) {ta tb : Address} {a b s : ℕ}
    → Funded p ta tb a b s
    → Kept ta tb a b s (run cs p)
unfolding run
run-Kept [] p f = same f
run-Kept ((env, c) ∷ cs) p f = elim (apply-Kept f env c) [
  | kept a' b' s' f' k ↦
      Kept-trans a' b' s' (omega (arith, f'.locked)) k (run-Kept cs (apply env c p) f')
]

module _ {p : Pool} (h : IsEmpty p) where
  first_call :
      (t u : Address) (x y m k : ℕ) (p' : Pool)
      → add_liquidity_body t u x y m p ≡ some (k, p')
      → (t ≢ u) × (0 < x) × (0 < y) × (first_deposit t u x y m p ≡ some (k, p'))
  unfolding add_liquidity_body
  first_call t u x y m k p' e = ground arith

  add_liquidity-IsWellFormed :
      (env : Env) (t u : Address) (x y m : ℕ)
      → IsWellFormed (commit p (AmmPool.add_liquidity env t u x y m p))
  unfolding AmmPool.add_liquidity
  add_liquidity-IsWellFormed env t u x y m =
      elim (Bool-cases (env.authorised env.current_contract_address)) [
        | inr denied ↦ rw denied (empty h)
        | inl granted ↦ elim (Option-cases (add_liquidity_body t u x y m p)) [
          | inl refused ↦ rw (granted, refused) (empty h)
          | inr ((k, p'), e) ↦
              let (ne, px, py, first) = first_call t u x y m k p' e in
              rw (granted, e)
                (funded t u x y (k + minimum_liquidity)
                  (first_deposit-Funded t u x y m k p p' ne px py first).0)
        ]
      ]

  empty_swap : (t : Address) (x m : ℕ) → swap_body t x m p ≡ none
  unfolding swap_body
  empty_swap t x m = ground arith

  empty_remove : (l m n : ℕ) → remove_liquidity_body l m n p ≡ none
  unfolding remove_liquidity_body
  empty_remove l m n = ground arith

  empty-IsWellFormed : (env : Env) (c : Call) → IsWellFormed (apply env c p)
  unfolding apply AmmPool.remove_liquidity AmmPool.swap AmmPool.migrate
  empty-IsWellFormed env (Call.add_liquidity t u x y m) = add_liquidity-IsWellFormed env t u x y m
  empty-IsWellFormed env (Call.remove_liquidity l m n) = empty (ground (arith, empty_remove l m n))
  empty-IsWellFormed env (Call.swap t x m) = empty (ground (arith, empty_swap t x m))
  empty-IsWellFormed env (Call.migrate v) = empty (ground arith)

apply-IsWellFormed :
    (env : Env) (c : Call) (p : Pool) → IsWellFormed p → IsWellFormed (apply env c p)
apply-IsWellFormed env c p (empty h) = empty-IsWellFormed h env c
apply-IsWellFormed env c p (funded ta tb a b s f) = elim (apply-Kept f env c) [
  | kept a' b' s' f' k ↦ funded ta tb a' b' s' f'
]

-- After any sequence of calls the storage is empty of a pair, reserves and supply, or holds two
-- distinct tokens, two positive reserves and a supply of at least the locked part, all in 128 bits.
pub run-IsWellFormed :
    (cs : List (Env × Call)) (p : Pool) → IsWellFormed p → IsWellFormed (run cs p)
unfolding run
run-IsWellFormed [] p v = v
run-IsWellFormed ((env, c) ∷ cs) p v =
    run-IsWellFormed cs (apply env c p) (apply-IsWellFormed env c p v)
