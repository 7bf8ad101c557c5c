-- ===== src/Contracts/Bridge/Transfers.antt =====
-- Which transfers of contracts/bridge/src/lib.rs are carried out, and how often.
use sanctifier.Base.{
  ℕ, suc, ◌+◌, ◌≤◌, ◌≡◌, refl, true, false, ◌||◌, not, none, some, List, [], ◌∷◌, ◌++◌, length,
  length-append, contains, IsNodup, ◌==◌, if◌then◌else◌, arith, Option-cases, Bool-cases, inl, inr,
  ◌⊎◌,
}
use sanctifier.Host.{Address, Env, ok, commit, commit-keeps, outcome_cases}
use sanctifier.Contracts.Bridge.{
  Digest, Transfer, Bridge, Sdk, init, calculate_transfer_hash, count_signers, process,
  execute_transfer,
}

-- Every address of the list is one of the authorised signers and has authorised the call.
abbrev pub AllSigned : Env → List Address → List Address → Type 0
AllSigned env authorized [] = Unit
AllSigned env authorized (a ∷ xs) =
    (contains a authorized ≡ true) × (env.authorised a ≡ true) × AllSigned env authorized xs

AllSigned-append :
    (env : Env) (authorized xs : List Address) (a : Address)
    → AllSigned env authorized xs
    → contains a authorized ≡ true
    → env.authorised a ≡ true
    → AllSigned env authorized (xs ++ a ∷ [])
AllSigned-append env authorized [] a s h k = (h, k, tt)
AllSigned-append env authorized (b ∷ xs) a s h k =
    (s.0, s.1, AllSigned-append env authorized xs a s.2 h k)

contains-append :
    (x a : Address) (xs : List Address) → contains x (xs ++ a ∷ []) ≡ (contains x xs || a == x)
contains-append x a [] = ground arith
contains-append x a (y ∷ xs) = ground (arith, contains-append x a xs)

IsNodup-append :
    (xs : List Address) (a : Address) → IsNodup xs → contains a xs ≡ false → IsNodup (xs ++ a ∷ [])
IsNodup-append [] a n h = (refl, tt)
IsNodup-append (x ∷ xs) a n h =
    (ground (arith, contains-append x a xs, n.0), IsNodup-append xs a n.1 (ground arith))

-- What the loop keeps of its count and its list.
abbrev pub IsCounting : Env → List Address → ℕ × List Address → Type 0
IsCounting env authorized (n, seen) =
    (n ≡ length seen) × IsNodup seen × AllSigned env authorized seen

count_signers-IsCounting :
    (env : Env) (authorized given : List Address) (n : ℕ) (seen : List Address)
    (r : ℕ × List Address)
    → IsCounting env authorized (n, seen)
    → count_signers env authorized given n seen ≡ ok r
    → IsCounting env authorized r
count_signers-IsCounting env authorized [] n seen r h e = ground (arith, h)
count_signers-IsCounting env authorized (a ∷ given) n seen r h e =
    elim (Bool-cases (not (contains a authorized) || contains a seen)) [
      | inl skipped ↦ count_signers-IsCounting env authorized given n seen r h (ground arith)
      | inr counted ↦
          count_signers-IsCounting env authorized given (n + 1) (seen ++ a ∷ []) r
            (
              omega (arith, h.0, length-append seen (a ∷ [])),
              IsNodup-append seen a h.1 (ground arith),
              AllSigned-append env authorized seen a h.2 (ground arith) (ground arith),
            )
            (ground arith)
    ]

-- What a transfer must have been signed by: distinct signers of the bridge, at least as many as the threshold,
-- who all authorised the call.
abbrev pub SignedOff : Env → Bridge → Type 0
SignedOff env b =
    (ss : List Address) × (t : ℕ) × (seen : List Address) × (b.signers ≡ some ss)
    × (b.threshold ≡ some t)
    × (t ≤ length seen)
    × IsNodup seen
    × AllSigned env ss seen

-- A call of `execute_transfer` that ends and changes the bridge's record of a transfer had at least as many
-- distinct signers as the threshold, each one of the bridge's signers and each with its authorisation.
pub execute-SignedOff :
    (sdk : Sdk) (env : Env) (t : Transfer) (given : List Address) (b b' : Bridge)
    → execute_transfer sdk env t given b ≡ ok (tt, b')
    → b.processed (calculate_transfer_hash sdk t) ≡ false
    → SignedOff env b × (b'.processed (calculate_transfer_hash sdk t) ≡ true)
unfolding execute_transfer process
execute-SignedOff sdk env t given b b' e fresh = elim (Option-cases b.signers) [
  | inl missing ↦ absurd (ground arith)
  | inr (ss, hs) ↦ elim (Option-cases b.threshold) [
    | inl missing ↦ absurd (ground arith)
    | inr (n, hn) ↦ elim (outcome_cases (count_signers env ss given 0 [])) [
      | inl (r, counted) ↦
          let c = count_signers-IsCounting env ss given 0 [] r (refl, tt, tt) counted in
          ((ss, n, r.1, hs, hn, ground (arith, c.0), c.1, c.2), ground arith)
      | inr stopped ↦ absurd (ground arith)
    ]
  ]
]

-- How often the bridge has published a transfer with the digest.
abbrev pub published : Sdk → Digest → List Transfer → ℕ
published sdk h [] = 0
published sdk h (t ∷ ts) =
    if calculate_transfer_hash sdk t == h then suc (published sdk h ts) else published sdk h ts

published-append :
    (sdk : Sdk) (h : Digest) (ts : List Transfer) (t : Transfer)
    → published sdk h (ts ++ t ∷ [])
      ≡ published sdk h ts + (if calculate_transfer_hash sdk t == h then 1 else 0)
published-append sdk h [] t = ground arith
published-append sdk h (u ∷ ts) t = ground (arith, published-append sdk h ts t)

-- A transfer is published once when it is recorded as processed, and never otherwise.
abbrev pub IsRecorded : Sdk → Bridge → Type 0
IsRecorded sdk b = (h : Digest) → published sdk h b.events ≡ (if b.processed h then 1 else 0)

-- A call that ends leaves the bridge alone, where the transfer was recorded, or records and publishes it.
execute_cases :
    (sdk : Sdk) (env : Env) (t : Transfer) (given : List Address) (b b' : Bridge)
    → execute_transfer sdk env t given b ≡ ok (tt, b')
    → let h = calculate_transfer_hash sdk t in
      ((b.processed h ≡ true) × (b' ≡ b))
      ⊎ ((b.processed h ≡ false)
          × (b' ≡ record b {
            processed = λ k. if k == h then true else b.processed k;
            events = b.events ++ t ∷ [];
          }))
unfolding execute_transfer process
execute_cases sdk env t given b b' e =
    elim (Bool-cases (b.processed (calculate_transfer_hash sdk t))) [
      | inl old ↦ inl (old, ground arith)
      | inr fresh ↦ elim (Option-cases b.signers) [
        | inl missing ↦ absurd (ground arith)
        | inr (ss, hs) ↦ elim (Option-cases b.threshold) [
          | inl missing ↦ absurd (ground arith)
          | inr (n, hn) ↦ elim (outcome_cases (count_signers env ss given 0 [])) [
            | inl (r, counted) ↦ inr (fresh, ground arith)
            | inr stopped ↦ absurd (ground arith)
          ]
        ]
      ]
    ]

execute-IsRecorded :
    (sdk : Sdk) (env : Env) (t : Transfer) (given : List Address) (b b' : Bridge)
    → IsRecorded sdk b
    → execute_transfer sdk env t given b ≡ ok (tt, b')
    → IsRecorded sdk b'
execute-IsRecorded sdk env t given b b' v e k = elim (execute_cases sdk env t given b b' e) [
  | inl (old, same) ↦ rw same (v k)
  | inr (fresh, new) ↦ rw new (ground (arith, v k, published-append sdk k b.events t))
]

-- The bridge before `init`.
abbrev pub empty : Bridge
empty = record { signers = none; threshold = none; processed = λ h. false; events = [] }

-- A call of the bridge, with the invocation that it belongs to.
pub data Call : Type 0 where
  init_call : List Address → ℕ → Call
  execute_call : Env → Transfer → List Address → Call

abbrev pub apply : Sdk → Call → Bridge → Bridge
apply sdk (init_call ss n) b = commit b (init ss n b)
apply sdk (execute_call env t given) b = commit b (execute_transfer sdk env t given b)

abbrev pub run : Sdk → List Call → Bridge → Bridge
run sdk [] b = b
run sdk (c ∷ cs) b = run sdk cs (apply sdk c b)

init-IsRecorded :
    (sdk : Sdk) (ss : List Address) (n : ℕ) (b b' : Bridge)
    → IsRecorded sdk b
    → init ss n b ≡ ok (tt, b')
    → IsRecorded sdk b'
unfolding init
init-IsRecorded sdk ss n b b' v e k = ground (arith, v k)

apply-IsRecorded :
    (sdk : Sdk) (c : Call) (b : Bridge) → IsRecorded sdk b → IsRecorded sdk (apply sdk c b)
apply-IsRecorded sdk (init_call ss n) b v =
    commit-keeps (IsRecorded sdk) b (init ss n b) v λ _ b' e. init-IsRecorded sdk ss n b b' v e
apply-IsRecorded sdk (execute_call env t given) b v =
    commit-keeps (IsRecorded sdk) b (execute_transfer sdk env t given b) v
      λ _ b' e. execute-IsRecorded sdk env t given b b' v e

-- From a bridge that has published each transfer once when it is recorded as processed and never otherwise, any
-- calls, in any order and with any authorisations, lead to a bridge of that kind: no transfer is carried out twice.
pub published-run :
    (sdk : Sdk) (cs : List Call) (b : Bridge) → IsRecorded sdk b → IsRecorded sdk (run sdk cs b)
published-run sdk [] b v = v
published-run sdk (c ∷ cs) b v = published-run sdk cs (apply sdk c b) (apply-IsRecorded sdk c b v)

-- The signers and the threshold, once `init` has set them, are kept by every call.
keeps_configuration :
    (sdk : Sdk) (c : Call) (b : Bridge) (n : ℕ)
    → b.threshold ≡ some n
    → ((apply sdk c b).threshold ≡ some n) × ((apply sdk c b).signers ≡ b.signers)
unfolding init
keeps_configuration sdk (init_call ss m) b n h = ground arith
keeps_configuration sdk (execute_call env t given) b n h =
    commit-keeps (λ b'. (b'.threshold ≡ some n) × (b'.signers ≡ b.signers)) b
      (execute_transfer sdk env t given b) (h, refl)
      λ _ b' e. elim (execute_cases sdk env t given b b' e) [
        | inl (old, same) ↦ rw same (h, refl)
        | inr (fresh, new) ↦ rw new (h, refl)
      ]
