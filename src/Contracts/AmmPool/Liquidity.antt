-- ===== src/Contracts/AmmPool/Liquidity.antt =====
-- `add_liquidity` and `remove_liquidity` of contracts/amm-pool/src/lib.rs: the share of the
-- reserves that a liquidity token stands for.
use sanctifier.Base.{
  ℕ, ◌+◌, ◌-◌, ◌*◌, ◌/◌, ◌≤◌, ◌<◌, ◌≡◌, ◌≢◌, inl, inr, refl, some, arith, Option-cases,
}
use sanctifier.Base.Products.{mul_mono, div_bounds, div-lt}
use native.Mathlib.Decide.{dec_le}
use sanctifier.Host.{Address, u128_bound}
use sanctifier.Contracts.AmmPool.{
  Pool, seeded, first_deposit, later_deposit, add_liquidity_body, remove_liquidity_body,
  write_pool_state,
}
use sanctifier.Contracts.AmmPool.Arithmetic.{
  minimum_liquidity, calculate_initial_liquidity, calculate_liquidity_mint, proportional_amount,
  integer_sqrt,
}
use sanctifier.Contracts.AmmPool.Sqrt.{IsNearestRoot, integer_sqrt-some}
use sanctifier.Contracts.AmmPool.Invariant.{Funded}

-- What `calculate_liquidity_mint` returns is positive and at most either proportional share.
calculate_liquidity_mint_bounds :
    (a b x y s m : ℕ)
    → calculate_liquidity_mint a b x y s ≡ some m
    → (0 < m) × (0 < a) × (0 < b) × (m ≤ x * s / a) × (m ≤ y * s / b)
unfolding calculate_liquidity_mint
calculate_liquidity_mint_bounds a b x y s m h = ground arith

quotient_product : (m n d : ℕ) → 0 < d → m ≤ n / d → m * d ≤ n
quotient_product m n d pos le =
    omega (arith, div_bounds n d pos, mul_mono m (n / d) d d le (omega arith))

-- No reserve per liquidity token falls: reserve / supply, compared by cross products.
pub record NotDiluted (a b s a' b' s' : ℕ) : Type 0 where
  pub share_a : a * s' ≤ a' * s
  pub share_b : b * s' ≤ b' * s

module _ (ta tb t u : Address) (a b s x y m minted : ℕ) (p p' : Pool) where
  later_deposit-Funded :
      Funded p ta tb a b s
      → later_deposit t u x y m s p ≡ some (minted, p')
      → Funded p' ta tb (a + x) (b + y) (s + minted)
        × (calculate_liquidity_mint a b x y s ≡ some minted)
        × (m ≤ minted)
        × ((t ≡ ta) × (u ≡ tb))
  unfolding later_deposit
  later_deposit-Funded f h = elim (Option-cases (calculate_liquidity_mint a b x y s)) [
    | inl refused ↦ ground arith
    | inr (k, e) ↦ ground arith
  ]

  -- A deposit into a seeded pool that writes mints at least `min_lp` tokens for the pool's own pair
  -- in order, adds the amounts to the reserves, and dilutes no holder.
  pub add_liquidity_body-later :
      Funded p ta tb a b s
      → add_liquidity_body t u x y m p ≡ some (minted, p')
      → Funded p' ta tb (a + x) (b + y) (s + minted)
        × NotDiluted a b s (a + x) (b + y) (s + minted)
        × (m ≤ minted)
        × (0 < minted)
        × (t ≡ ta)
        × (u ≡ tb)
  unfolding add_liquidity_body
  add_liquidity_body-later f h =
      let later : later_deposit t u x y m s p ≡ some (minted, p') = ground arith in
      let (f', mint, fair, same) = later_deposit-Funded f later in
      let bounds = calculate_liquidity_mint_bounds a b x y s minted mint in
      (
        f',
        record {
          share_a = omega (arith, quotient_product minted (x * s) a bounds.1 bounds.3);
          share_b = omega (arith, quotient_product minted (y * s) b bounds.2 bounds.4);
        },
        fair,
        bounds.0,
        same.0,
        same.1,
      )

calculate_initial_liquidity_facts :
    (x y l : ℕ)
    → calculate_initial_liquidity x y ≡ some l
    → (x * y < u128_bound) × (integer_sqrt (x * y) ≡ some l)
unfolding calculate_initial_liquidity
calculate_initial_liquidity_facts x y l h = ground arith

first_deposit_parts :
    (t u : Address) (x y m minted : ℕ) (p p' : Pool)
    → first_deposit t u x y m p ≡ some (minted, p')
    → (calculate_initial_liquidity x y ≡ some (minted + minimum_liquidity))
      × (m ≤ minted)
      × (p' ≡ seeded p t u x y (minted + minimum_liquidity))
unfolding first_deposit
first_deposit_parts t u x y m minted p p' h =
    elim (Option-cases (calculate_initial_liquidity x y)) [
      | inl refused ↦ ground arith
      | inr (l, e) ↦ ground arith
    ]

-- The first deposit mints the rounded root of the product less the locked tokens.
pub first_deposit-Funded :
    (t u : Address) (x y m minted : ℕ) (p p' : Pool)
    → t ≢ u
    → 0 < x
    → 0 < y
    → first_deposit t u x y m p ≡ some (minted, p')
    → Funded p' t u x y (minted + minimum_liquidity)
      × IsNearestRoot (x * y) (minted + minimum_liquidity)
      × (m ≤ minted)
first_deposit-Funded t u x y m minted p p' ne px py h =
    let (mint, fair, e) = first_deposit_parts t u x y m minted p p' h in
    let (fits, root) = calculate_initial_liquidity_facts x y (minted + minimum_liquidity) mint in
    let near = integer_sqrt-some (x * y) (minted + minimum_liquidity) root in
    (
      rw e (record {
        first = refl;
        second = refl;
        distinct = ne;
        reserve_a = refl;
        reserve_b = refl;
        supply = refl;
        a_pos = px;
        b_pos = py;
        locked = omega arith;
        a_fits = omega (arith, mul_mono x x 1 y (omega arith) py);
        b_fits = omega (arith, mul_mono 1 x y y px (omega arith));
        s_fits = near.1;
      }),
      near.0,
      fair,
    )

proportional_amount_bounds :
    (r l s o : ℕ) → proportional_amount r l s ≡ some o → (0 < s) × (o ≡ r * l / s)
unfolding proportional_amount
proportional_amount_bounds r l s o h = ground arith

module _ (ta tb : Address) (a b s l m n o q : ℕ) (p p' : Pool) where
  remove_liquidity_body-parts :
      Funded p ta tb a b s
      → remove_liquidity_body l m n p ≡ some ((o, q), p')
      → (p' ≡ write_pool_state p (a - o) (b - q) (s - l))
        × (proportional_amount a l s ≡ some o)
        × (proportional_amount b l s ≡ some q)
        × (l + minimum_liquidity ≤ s)
        × (0 < l)
        × (m ≤ o)
        × (n ≤ q)
        × (0 < o)
        × (0 < q)
  unfolding remove_liquidity_body
  remove_liquidity_body-parts f h = elim (Option-cases (proportional_amount a l s)) [
    | inl none_a ↦ ground arith
    | inr (v, e) ↦ elim (Option-cases (proportional_amount b l s)) [
      | inl none_b ↦ ground arith
      | inr (w, e') ↦ ground arith
    ]
  ]

remaining_share : (o c l d : ℕ) → o * (l + d) ≤ (o + c) * l → (o + c) * d ≤ c * (l + d)
remaining_share o c l d h = omega arith

-- What a burn of `l` tokens pays from a reserve: at most its share, and not the whole reserve.
payout_bounds :
    (r l s o : ℕ)
    → 0 < r
    → l < s
    → proportional_amount r l s ≡ some o
    → (o * s ≤ r * l) × (o < r) × (r * (s - l) ≤ (r - o) * s)
payout_bounds r l s o pos lt h =
    let (s_pos, e) = proportional_amount_bounds r l s o h in
    let paid : o * s ≤ r * l = quotient_product o (r * l) s s_pos (omega arith) in
    let below : o < r = rw e (
      div-lt r (r * l) s s_pos
        (omega (arith, mul_mono r r (l + 1) s (omega arith) (omega arith)))) in
    let er : o + (r - o) ≡ r = omega arith in
    let es : l + (s - l) ≡ s = omega arith in
    (paid, below, rw er at (rw es at (remaining_share o (r - o) l (s - l) (rw er (rw es paid)))))

module _ (ta tb : Address) (a b s l m n o q : ℕ) (p p' : Pool) where
  -- A burn on a seeded pool that writes pays at least the two minima and at most the burnt share of each
  -- reserve, takes the payments from the reserves and the burnt tokens from the supply, dilutes no remaining
  -- holder, and leaves positive reserves and the locked supply.
  pub remove_liquidity_body_lem :
      Funded p ta tb a b s
      → remove_liquidity_body l m n p ≡ some ((o, q), p')
      → Funded p' ta tb (a - o) (b - q) (s - l)
        × NotDiluted a b s (a - o) (b - q) (s - l)
        × (o * s ≤ a * l)
        × (q * s ≤ b * l)
        × (m ≤ o)
        × (n ≤ q)
  remove_liquidity_body_lem f h =
      let (e, pa, pb, stays, l_pos, fair_a, fair_b, o_pos, q_pos) =
        remove_liquidity_body-parts ta tb a b s l m n o q p p' f h in
      let ya = payout_bounds a l s o f.a_pos (omega arith) pa in
      let yb = payout_bounds b l s q f.b_pos (omega arith) pb in
      (
        rw e (record {
          first = f.first;
          second = f.second;
          distinct = f.distinct;
          reserve_a = refl;
          reserve_b = refl;
          supply = refl;
          a_pos = omega (arith, ya.1);
          b_pos = omega (arith, yb.1);
          locked = omega arith;
          a_fits = omega (arith, f.a_fits);
          b_fits = omega (arith, f.b_fits);
          s_fits = omega (arith, f.s_fits);
        }),
        record { share_a = ya.2; share_b = yb.2 },
        ya.0,
        yb.0,
        fair_a,
        fair_b,
      )

no_profit : (a x s k o : ℕ) → 0 < s + k → k * a ≤ x * s → o * (s + k) ≤ (a + x) * k → o ≤ x
no_profit a x s k o pos mint pay = elim (dec_le o x) [
  | yes le ↦ le
  | no more ↦ absurd (omega (arith, mul_mono (x + 1) o (s + k) (s + k) (omega arith) (omega arith)))
]

module _ (ta tb t u : Address) (a b s x y m k n r o q : ℕ) (p p' p'' : Pool) where
  -- A deposit into a seeded pool that writes, and after it a burn of just what it minted that writes, with no
  -- call between the two: the burn pays no more of either token than the deposit put in.
  pub deposit-withdraw :
      Funded p ta tb a b s
      → add_liquidity_body t u x y m p ≡ some (k, p')
      → remove_liquidity_body k n r p' ≡ some ((o, q), p'')
      → (o ≤ x) × (q ≤ y)
  deposit-withdraw f put take =
      let (f', shares, _, _, _, _) = add_liquidity_body-later ta tb t u a b s x y m k p p' f put in
      let (_, _, pay_a, pay_b, _, _) =
        remove_liquidity_body_lem ta tb (a + x) (b + y) (s + k) k n r o q p' p'' f' take in
      (
        no_profit a x s k o (omega (arith, f.locked)) (omega (arith, shares.share_a)) pay_a,
        no_profit b y s k q (omega (arith, f.locked)) (omega (arith, shares.share_b)) pay_b,
      )
