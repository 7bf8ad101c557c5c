-- ===== src/Contracts/Oracle/Approval.antt =====
-- Who stands behind a price of contracts/oracle/src/lib.rs.
use sanctifier.Base.{
  ℕ, ◌+◌, ◌≤◌, ◌≡◌, refl, true, false, ◌&&◌, ◌||◌, not, some, List, [], ◌∷◌, ◌++◌, length,
  length-append, contains, IsNodup, arith, ◌==◌, Option-cases, Bool-cases, inl, inr,
}
use sanctifier.Host.{Address, Env, ok, outcome_cases}
use sanctifier.Contracts.Oracle
use sanctifier.Contracts.Oracle.{Oracle, PriceData, Error, count_valid}

-- Every address on the list is trusted and has authorised the call.
abbrev pub AllSigned : Env → List Address → List Address → Type 0
AllSigned env trusted [] = Unit
AllSigned env trusted (v ∷ vs) =
    (contains v trusted ≡ true) × (env.authorised v ≡ true) × AllSigned env trusted vs

contains-append :
    (a v : Address) (vs : List Address) → contains a (vs ++ v ∷ []) ≡ (contains a vs || v == a)
contains-append a v [] = ground arith
contains-append a v (x ∷ vs) = ground (arith, contains-append a v vs)

IsNodup-append :
    (v : Address) (vs : List Address) → IsNodup vs → contains v vs ≡ false → IsNodup (vs ++ v ∷ [])
IsNodup-append v [] n h = (refl, tt)
IsNodup-append v (x ∷ vs) n h = ground (arith, IsNodup-append v vs, contains-append x v vs)

AllSigned-append :
    (env : Env) (trusted : List Address) (v : Address) (vs : List Address)
    → contains v trusted ≡ true
    → env.authorised v ≡ true
    → AllSigned env trusted vs
    → AllSigned env trusted (vs ++ v ∷ [])
AllSigned-append env trusted v [] t a s = (t, a, tt)
AllSigned-append env trusted v (x ∷ vs) t a (tx, ax, s) =
    (tx, ax, AllSigned-append env trusted v vs t a s)

-- Distinct signers, as many as were counted.
pub record Signers (env : Env) (trusted : List Address) (n : ℕ) : Type 0 where
  pub signers : List Address
  pub distinct : IsNodup signers
  pub signed : AllSigned env trusted signers
  pub counted : length signers ≡ n

count_valid-Signers :
    (env : Env) (trusted processed : List Address) (n m : ℕ) (vs : List Address)
    → IsNodup processed
    → AllSigned env trusted processed
    → length processed ≡ n
    → count_valid env trusted processed n vs ≡ ok m
    → Signers env trusted m
unfolding count_valid
count_valid-Signers env trusted processed n m [] d s c e = record {
  signers = processed;
  distinct = d;
  signed = s;
  counted = ground arith;
}
count_valid-Signers env trusted processed n m (v ∷ vs) d s c e =
    elim (Bool-cases (contains v trusted && not (contains v processed))) [
      | inl fresh ↦
          count_valid-Signers env trusted (processed ++ v ∷ []) (n + 1) m vs
            (IsNodup-append v processed d (ground arith))
            (AllSigned-append env trusted v processed (ground arith) (ground arith) s)
            (omega (arith, length-append processed (v ∷ []))) (ground arith)
      | inr other ↦ count_valid-Signers env trusted processed n m vs d s c (ground arith)
    ]

-- A price update that ends was authorised by at least as many distinct trusted validators as the
-- threshold wants, and stores the price with its time; the validators and the threshold stay.
pub update_price-Signers :
    (env : Env) (price timestamp : ℕ) (approving : List Address) (o o' : Oracle)
    → Oracle.update_price env price timestamp approving o ≡ ok (tt, o')
    → (trusted : List Address) × (threshold n : ℕ) × (o.validators ≡ some trusted)
      × (o.threshold ≡ some threshold)
      × Signers env trusted n
      × (threshold ≤ n)
      × (o'.price_data ≡ some (record { price = price; timestamp = timestamp }))
      × (o'.validators ≡ o.validators)
      × (o'.threshold ≡ o.threshold)
unfolding Oracle.update_price
update_price-Signers env price timestamp approving o o' e = elim (Option-cases o.validators) [
  | inl missing ↦ absurd (ground arith)
  | inr (trusted, et) ↦ elim (Option-cases o.threshold) [
    | inl missing ↦ absurd (ground arith)
    | inr (threshold, eh) ↦ elim (outcome_cases (count_valid env trusted [] 0 approving)) [
      | inr stopped ↦ absurd (ground arith)
      | inl (n, counted) ↦ (
        trusted,
        threshold,
        n,
        et,
        eh,
        count_valid-Signers env trusted [] 0 n approving tt tt refl counted,
        ground arith,
        ground arith,
        ground arith,
        ground arith,
      )
    ]
  ]
]
