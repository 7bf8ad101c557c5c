-- ===== src/Contracts/Multisig/Invariant.antt =====
-- The well-formed wallets of contracts/multisig/src/lib.rs, operation by operation.
use Prim.Native.String.{String}
use text.Mathlib.Text.{◌==◌ as str_eq}
use sanctifier.Base.{
  ℕ, ◌≤◌, ◌<◌, ◌≡◌, refl, false, ◌&&◌, Option, none, some, List, [], ◌∷◌, arith, length,
  length-append, contains, first_index_of, length-remove_found, IsNodup, ◌==◌, if◌then◌else◌,
  Bool-cases, Option-cases, inl, inr, ◌⊎◌,
}
use sanctifier.Host.{Address, Val, Env, Outcome, ok, ◌>>=◌, unwrap, or_trap, conversion}
use sanctifier.Contracts.Multisig.{
  Digest, ProposalInfo, Wallet, Sdk, Error, has_approval, init, propose, approve, internal_cancel,
  internal_add_signer, internal_remove_signer, internal_set_threshold, first_arg, returning,
  self_call, dispatch,
}

-- Who has approved the proposal `h`.
abbrev pub approvers : Digest → List (Digest × Address) → List Address
approvers h [] = []
approvers h ((k, b) ∷ xs) = if k == h then b ∷ approvers h xs else approvers h xs

pub has_approval-contains :
    (h : Digest) (a : Address) (xs : List (Digest × Address))
    → has_approval h a xs ≡ contains a (approvers h xs)
has_approval-contains h a [] = refl
has_approval-contains h a ((k, b) ∷ xs) = ground (arith, has_approval-contains h a xs)

-- Before `init` there are neither signers nor a threshold; after it 1 ≤ threshold ≤ signers.
abbrev pub IsConfigured : Option (List Address) → Option ℕ → Type 0
IsConfigured none none = Unit
IsConfigured none (some t) = ⊥
IsConfigured (some ss) none = ⊥
IsConfigured (some ss) (some t) = (0 < t) × (t ≤ length ss)

-- The stored count is the number of approvers, and no proposal is both executed and cancelled.
abbrev pub IsCounted : Digest → Option ProposalInfo → List (Digest × Address) → Type 0
IsCounted h none xs = approvers h xs ≡ []
IsCounted h (some i) xs =
    (i.approval_count ≡ length (approvers h xs)) × ((i.executed && i.cancelled) ≡ false)

pub record IsValid (w : Wallet) : Type 0 where
  pub configured : IsConfigured w.signers w.threshold
  pub counted : (h : Digest) → IsCounted h (w.proposal h) w.approvals
  pub distinct : (h : Digest) → IsNodup (approvers h w.approvals)

pub init-IsValid :
    (ss : List Address) (t : ℕ) {w w' : Wallet} → IsValid w → init ss t w ≡ ok (tt, w') → IsValid w'
unfolding init
init-IsValid ss t v e = record {
  configured = ground arith;
  counted = λ h. ground (arith, v.counted h);
  distinct = λ h. ground (arith, v.distinct h);
}

module _ {w w' : Wallet} (v : IsValid w) where
  pub propose-IsValid :
      (sdk : Sdk) (target : Address) (function : String) (args : List Val) (salt : List ℕ)
      {r : Digest}
      → propose sdk target function args salt w ≡ ok (r, w')
      → IsValid w'
  unfolding propose
  propose-IsValid sdk target function args salt e = record {
    configured = ground (arith, v.configured);
    counted = λ h. ground (arith, v.counted h);
    distinct = λ h. ground (arith, v.distinct h);
  }

  pub approve-IsValid :
      (env : Env) (signer : Address) (hash : Digest)
      → approve env signer hash w ≡ ok (tt, w')
      → IsValid w'
  unfolding approve
  approve-IsValid env signer hash e = record {
    configured = ground (arith, v.configured);
    counted = λ h. ground (arith, v.counted h, v.counted hash);
    distinct = λ h. ground (arith, v.distinct h, has_approval-contains h signer w.approvals);
  }

  pub internal_cancel-IsValid : (hash : Digest) → internal_cancel hash w ≡ ok (tt, w') → IsValid w'
  unfolding internal_cancel
  internal_cancel-IsValid hash e = record {
    configured = ground (arith, v.configured);
    counted = λ h. ground (arith, v.counted h, v.counted hash);
    distinct = λ h. ground (arith, v.distinct h);
  }

  pub internal_add_signer-IsValid :
      (signer : Address) → internal_add_signer signer w ≡ ok (tt, w') → IsValid w'
  unfolding internal_add_signer
  internal_add_signer-IsValid signer e = record {
    configured = elim (Option-cases w.signers) [
      | inl unset ↦ ground (arith, v.configured)
      | inr (ss, es) ↦ ground (arith, v.configured, length-append ss (signer ∷ []))
    ];
    counted = λ h. ground (arith, v.counted h);
    distinct = λ h. ground (arith, v.distinct h);
  }

  pub internal_set_threshold-IsValid :
      (t : ℕ) → internal_set_threshold t w ≡ ok (tt, w') → IsValid w'
  unfolding internal_set_threshold
  internal_set_threshold-IsValid t e = record {
    configured = ground (arith, v.configured);
    counted = λ h. ground (arith, v.counted h);
    distinct = λ h. ground (arith, v.distinct h);
  }

  pub internal_remove_signer-IsValid :
      (signer : Address) → internal_remove_signer signer w ≡ ok (tt, w') → IsValid w'
  unfolding internal_remove_signer
  internal_remove_signer-IsValid signer e = record {
    configured = elim (Option-cases w.signers) [
      | inl unset ↦ ground (arith, v.configured)
      | inr (ss, es) ↦ elim (Option-cases (first_index_of signer ss)) [
        | inl absent ↦ ground (arith, v.configured)
        | inr (i, found) ↦ ground (arith, v.configured, length-remove_found signer ss i found)
      ]
    ];
    counted = λ h. ground (arith, v.counted h);
    distinct = λ h. ground (arith, v.distinct h);
  }

-- The ways in which an operation of the wallet on itself ends.
pub data Internal (w w' : Wallet) : Type 0 where
  cancels : (h : Digest) → internal_cancel h w ≡ ok (tt, w') → Internal w w'
  adds : (a : Address) → internal_add_signer a w ≡ ok (tt, w') → Internal w w'
  removes : (a : Address) → internal_remove_signer a w ≡ ok (tt, w') → Internal w w'
  sets : (t : ℕ) → internal_set_threshold t w ≡ ok (tt, w') → Internal w w'

pub Internal-IsValid : {w w' : Wallet} → IsValid w → Internal w w' → IsValid w'
Internal-IsValid v (cancels h e) = internal_cancel-IsValid v h e
Internal-IsValid v (adds a e) = internal_add_signer-IsValid v a e
Internal-IsValid v (removes a e) = internal_remove_signer-IsValid v a e
Internal-IsValid v (sets t e) = internal_set_threshold-IsValid v t e

ran :
    (u : Val) (m : Outcome Error (Unit {0} × Wallet)) {r : Val} {w' : Wallet}
    → returning u m ≡ ok (r, w')
    → m ≡ ok (tt, w')
ran u m e = ground arith

-- A self call that ends has read its argument and run its operation on it.
parsed_call :
    {X : Type 0} (parse : Val → Option X) (op : X → Wallet → Outcome Error (Unit {0} × Wallet))
    (u : Val) (args : List Val) (w : Wallet) {r : Val} {w' : Wallet}
    → (do v ← unwrap (first_arg args); x ← or_trap (parse v) conversion; returning u (op x w))
      ≡ ok (r, w')
    → (x : X) × (op x w ≡ ok (tt, w'))
parsed_call parse op u [] w e = cc
parsed_call parse op u (v ∷ vs) w e = elim (Option-cases (parse v)) [
  | inl bad ↦ absurd (ground arith)
  | inr (x, good) ↦ (x, ran u (op x w) (rw good at e))
]

module _ {w w' : Wallet} (sdk : Sdk) (args : List Val) {r : Val} where
  pub self_call-Internal :
      (function : String) → self_call sdk function args w ≡ ok (r, w') → Internal w w'
  unfolding self_call
  self_call-Internal function e = elim (Bool-cases (str_eq function "add_signer")) [
    | inl is_add ↦
        let (a, f) =
          parsed_call sdk.to_address internal_add_signer sdk.void args w (rw is_add at e) in
        adds a f
    | inr not_add ↦ elim (Bool-cases (str_eq function "remove_signer")) [
      | inl is_remove ↦
          let (a, f) =
            parsed_call sdk.to_address internal_remove_signer sdk.void args w
              (rw (not_add, is_remove) at e) in
          removes a f
      | inr not_remove ↦ elim (Bool-cases (str_eq function "set_threshold")) [
        | inl is_set ↦
            let (t, f) =
              parsed_call sdk.to_u32 internal_set_threshold sdk.void args w
                (rw (not_add, not_remove, is_set) at e) in
            sets t f
        | inr not_set ↦ elim (Bool-cases (str_eq function "cancel")) [
          | inl is_cancel ↦
              let (h, f) =
                parsed_call sdk.to_bytes internal_cancel sdk.void args w
                  (rw (not_add, not_remove, not_set, is_cancel) at e) in
              cancels h f
          | inr not_cancel ↦ absurd (ground arith)
        ]
      ]
    ]
  ]

  -- A dispatched call is an operation of the wallet on itself, or leaves the wallet alone.
  pub dispatch-Internal :
      (env : Env) (target : Address) (function : String)
      → dispatch sdk env target function args w ≡ ok (r, w')
      → Internal w w' ⊎ (w' ≡ w)
  unfolding dispatch
  dispatch-Internal env target function e =
      elim (Bool-cases (target == env.current_contract_address)) [
        | inl itself ↦ inl (self_call-Internal function (rw itself at e))
        | inr other ↦ inr (ground arith)
      ]
