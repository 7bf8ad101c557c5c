-- ===== src/Host.antt =====
-- What the contracts under contracts/ use of the Soroban host: the ledger and the authorisations
-- of one invocation, panics that roll the invocation back, and Rust's checked integers.
use sanctifier.Base.{
  ℕ, ◌+◌, ◌-◌, ◌*◌, ◌/◌, ◌^◌, Bool, true, false, Option, none, some, ltb, ◌==◌, ◌≡◌, refl, ◌⊎◌, inl,
  inr, if◌then◌else◌,
}

-- Addresses are only compared, so they are numbers.
abbrev pub Address : Type 0
Address = ℕ

-- `Val`: a host value, opaque here.
abbrev pub Val : Type 0
Val = ℕ

-- `Env`: the contract's own address, the ledger, and which addresses authorised this call.
pub record Env : Type 0 where
  pub current_contract_address : Address
  pub timestamp : ℕ
  pub sequence : ℕ
  pub authorised : Address → Bool

-- Why the host stops a call that raised no error code of the contract's own.
pub data Trap : Type 0 where
  missing_auth missing_value overflow division_by_zero conversion callee_failed : Trap

-- The result of a call. A panic carries no state: the host rolls the storage back.
pub data Outcome (E A : Type 0) : Type 0 where
  ok : A → Outcome E A
  panic : E → Outcome E A
  trap : Trap → Outcome E A

infixl 5 ◌>>=◌ ◌>>◌
abbrev pub ◌>>=◌ : {E A B : Type 0} → Outcome E A → (A → Outcome E B) → Outcome E B
ok a >>= f = f a
panic e >>= f = panic e
trap t >>= f = trap t

abbrev pub ◌>>◌ : {E B : Type 0} → Outcome E (Unit {0}) → Outcome E B → Outcome E B
m >> k = m >>= λ _. k

-- The storage after a call: a call that panics or traps leaves it as it was.
abbrev pub commit : {E S A : Type 0} → S → Outcome E (A × S) → S
commit s (ok (a, s')) = s'
commit s (panic e) = s
commit s (trap t) = s

-- What holds of the old storage, and of the new one where the call ends, holds after the call.
pub commit-keeps :
    {E S A : Type 0} (P : S → Type 0) (s : S) (m : Outcome E (A × S))
    → P s
    → ((a : A) (s' : S) → m ≡ ok (a, s') → P s')
    → P (commit s m)
commit-keeps P s (ok (a, s')) h k = k a s' refl
commit-keeps P s (panic e) h k = h
commit-keeps P s (trap t) h k = h

-- Whether a call ends.
abbrev pub is_ok : {E A : Type 0} → Outcome E A → Bool
is_ok (ok a) = true
is_ok _ = false

pub outcome_cases : {E A : Type 0} (m : Outcome E A) → ((a : A) × (m ≡ ok a)) ⊎ (is_ok m ≡ false)
outcome_cases (ok a) = inl (a, refl)
outcome_cases (panic e) = inr refl
outcome_cases (trap t) = inr refl

-- A call either ends with a new storage, or leaves the old one.
pub commit_cases :
    {E S A : Type 0} (s : S) (m : Outcome E (A × S))
    → ((a : A) × ((s' : S) × (m ≡ ok (a, s')))) ⊎ ((is_ok m ≡ false) × (commit s m ≡ s))
commit_cases s (ok (a, s')) = inl (a, (s', refl))
commit_cases s (panic e) = inr (refl, refl)
commit_cases s (trap t) = inr (refl, refl)

-- A storage map after `storage.set(k, v)`, or `storage.remove(k)` where the values are options.
abbrev pub update {ℓ} : {A : Type ℓ} → (ℕ → A) → ℕ → A → ℕ → A
update f k v j = if j == k then v else f j

-- `if c { env.panic_with_error(e) }`
abbrev pub panic_if : {E : Type 0} → Bool → E → Outcome E (Unit {0})
panic_if true e = panic e
panic_if false e = ok tt

abbrev pub trap_if : {E : Type 0} → Bool → Trap → Outcome E (Unit {0})
trap_if true t = trap t
trap_if false t = ok tt

-- `o.unwrap()`
abbrev pub unwrap : {E A : Type 0} → Option A → Outcome E A
unwrap none = trap missing_value
unwrap (some a) = ok a

-- `o.unwrap_or_else(|| env.panic_with_error(e))`
abbrev pub or_panic : {E A : Type 0} → Option A → E → Outcome E A
or_panic none e = panic e
or_panic (some a) e = ok a

-- `o.unwrap()` on a conversion or a call that the host may refuse.
abbrev pub or_trap : {E A : Type 0} → Option A → Trap → Outcome E A
or_trap none t = trap t
or_trap (some a) t = ok a

-- `o.unwrap_or(a)`
abbrev pub unwrap_or {ℓ} : {A : Type ℓ} → Option A → A → A
unwrap_or none d = d
unwrap_or (some a) d = a

abbrev pub is_some {ℓ} : {A : Type ℓ} → Option A → Bool
is_some none = false
is_some (some a) = true

-- `a.require_auth()`
abbrev pub require_auth : {E : Type 0} → Env → Address → Outcome E (Unit {0})
require_auth env a = if env.authorised a then ok tt else trap missing_auth

-- One step of a chain of `Option`s: `let Some(a) = o else { … }` or `o?`.
abbrev pub bind {ℓ κ} : {A : Type ℓ} {B : Type κ} → Option A → (A → Option B) → Option B
bind none f = none
bind (some a) f = f a

-- `x += y` on a w-bit unsigned integer, with `overflow-checks = true`.
abbrev pub add_or_trap : {E : Type 0} → ℕ → ℕ → ℕ → Outcome E ℕ
add_or_trap bound a b = if ltb (a + b) bound then ok (a + b) else trap overflow

abbrev pub u32_bound : ℕ
u32_bound = 2 ^ 32

abbrev pub u64_bound : ℕ
u64_bound = 2 ^ 64

abbrev pub u128_bound : ℕ
u128_bound = 2 ^ 128

-- `u128::checked_add` and its like.
abbrev pub checked_add : ℕ → ℕ → Option ℕ
checked_add a b = if ltb (a + b) u128_bound then some (a + b) else none

abbrev pub checked_sub : ℕ → ℕ → Option ℕ
checked_sub a b = if ltb a b then none else some (a - b)

abbrev pub checked_mul : ℕ → ℕ → Option ℕ
checked_mul a b = if ltb (a * b) u128_bound then some (a * b) else none

abbrev pub checked_div : ℕ → ℕ → Option ℕ
checked_div a b = if b == 0 then none else some (a / b)

-- `u32::saturating_add(1)`
abbrev pub saturating_suc : ℕ → ℕ
saturating_suc n = if ltb (n + 1) u32_bound then n + 1 else n
