-- ===== src/Contracts/Multisig/Execution.antt =====
-- `approve` and `execute` of contracts/multisig/src/lib.rs: what they require, and what they leave.
use Prim.Native.String.{String}
use sanctifier.Base.{
  ℕ, ◌≤◌, ◌≡◌, ◌≢◌, inl, inr, sym, ◌∙◌, true, false, Option, none, some, List, arith, ◌+◌, ◌∷◌,
  length, contains, IsNodup, ltb, Bool-cases, Option-cases, ltb→le,
}
use sanctifier.Host.{Address, Val, Env, Outcome, ok, panic, trap}
use sanctifier.Contracts.Multisig.{
  Digest, ProposalInfo, Wallet, Sdk, Error, Event, calculate_hash, approve, internal_cancel,
  internal_add_signer, internal_remove_signer, internal_set_threshold, dispatch, execute,
  set_proposal, emit, recorded,
}
use sanctifier.Contracts.Multisig.Invariant.{
  approvers, has_approval-contains, IsValid, Internal, cancels, adds, removes, sets,
  dispatch-Internal, Internal-IsValid,
}

-- The proposal exists and has been executed.
abbrev pub IsDone : Option ProposalInfo → Type 0
IsDone none = ⊥
IsDone (some i) = i.executed ≡ true

-- The wallet that an execution hands to the call: the proposal is already marked.
abbrev pub marked : Digest → ProposalInfo → Wallet → Wallet
marked h i w = set_proposal h (record i { executed = true }) w

-- What `execute` has checked, and the call that it has made.
pub record Executed (sdk : Sdk) (env : Env) (target : Address) (function : String) (args : List Val)
    (h : Digest) (w w' : Wallet) (r : Val) : Type 0 where
  pub info : ProposalInfo
  pub threshold : ℕ
  pub stored : w.proposal h ≡ some info
  pub configured : w.threshold ≡ some threshold
  pub enough : threshold ≤ info.approval_count
  pub first_time : info.executed ≡ false
  pub open_still : info.cancelled ≡ false
  pub inner : Wallet
  pub called : dispatch sdk env target function args (marked h info w) ≡ ok (r, inner)
  pub result : w' ≡ emit (Event.executed h target) inner

finish :
    (event : Event) (m : Outcome Error (Val × Wallet)) {r : Val} {w' : Wallet}
    → recorded event m ≡ ok (r, w')
    → (inner : Wallet) × (m ≡ ok (r, inner)) × (w' ≡ emit event inner)
finish event (ok (a, q)) e = (q, ground arith, ground arith)
finish event (panic x) e = absurd (ground arith)
finish event (trap t) e = absurd (ground arith)

module _ (sdk : Sdk) (env : Env) (target : Address) (function : String) (args : List Val)
    (salt : List ℕ) (w w' : Wallet) (r : Val) where
  execute-passes :
      {i : ProposalInfo} {t : ℕ}
      → let h = calculate_hash sdk target function args salt in
        w.proposal h ≡ some i
        → w.threshold ≡ some t
        → ltb i.approval_count t ≡ false
        → i.executed ≡ false
        → i.cancelled ≡ false
        → execute sdk env target function args salt w
          ≡ recorded
              (Event.executed h target)
              (dispatch sdk env target function args (marked h i w))
  unfolding execute
  execute-passes ei et enough new pending = ground arith

  -- An execution that ends has found a pending proposal with enough approvals, has made its call on
  -- the wallet with the proposal marked, and has recorded the event.
  execute-Executed :
      execute sdk env target function args salt w ≡ ok (r, w')
      → Executed sdk env target function args (calculate_hash sdk target function args salt) w w' r
  unfolding execute
  execute-Executed e =
      let h = calculate_hash sdk target function args salt in
      elim (Option-cases (w.proposal h)) [
        | inl unknown ↦ absurd (ground arith)
        | inr (i, ei) ↦ elim (Option-cases w.threshold) [
          | inl unset ↦ absurd (ground arith)
          | inr (t, et) ↦ elim (Bool-cases (ltb i.approval_count t)) [
            | inl few ↦ absurd (ground arith)
            | inr enough ↦ elim (Bool-cases i.executed) [
              | inl again ↦ absurd (ground arith)
              | inr new ↦ elim (Bool-cases i.cancelled) [
                | inl stopped ↦ absurd (ground arith)
                | inr pending ↦
                    let (q, c, f) =
                      finish (Event.executed h target)
                        (dispatch sdk env target function args (marked h i w))
                        (sym (execute-passes ei et enough new pending) ∙ e) in
                    record {
                      info = i;
                      threshold = t;
                      stored = ei;
                      configured = et;
                      enough = ltb→le i.approval_count t enough;
                      first_time = new;
                      open_still = pending;
                      inner = q;
                      called = c;
                      result = f;
                    }
              ]
            ]
          ]
        ]
      ]

  -- In a valid wallet, an execution that ends had at least `threshold` distinct approvers, and was
  -- neither executed nor cancelled before.
  pub execute-approved :
      IsValid w
      → execute sdk env target function args salt w ≡ ok (r, w')
      → let h = calculate_hash sdk target function args salt in
        (i : ProposalInfo) × (t : ℕ) × (w.proposal h ≡ some i)
        × (w.threshold ≡ some t)
        × (i.executed ≡ false)
        × (i.cancelled ≡ false)
        × (t ≤ length (approvers h w.approvals))
        × IsNodup (approvers h w.approvals)
  execute-approved v e =
      let x = execute-Executed e in
      let h = calculate_hash sdk target function args salt in
      (
        x.info,
        x.threshold,
        x.stored,
        x.configured,
        x.first_time,
        x.open_still,
        ground (arith, x.stored, x.enough, v.counted h),
        v.distinct h,
      )

  -- A proposal that has been executed is never executed again.
  pub execute-not_again :
      IsDone (w.proposal (calculate_hash sdk target function args salt))
      → execute sdk env target function args salt w ≢ ok (r, w')
  execute-not_again d e = let x = execute-Executed e in ground (arith, x.stored, x.first_time)

-- An operation of the wallet on itself leaves executed proposals executed.
pub Internal-IsDone :
    {w w' : Wallet} (h : Digest) → Internal w w' → IsDone (w.proposal h) → IsDone (w'.proposal h)
unfolding internal_cancel internal_add_signer internal_remove_signer internal_set_threshold
Internal-IsDone h (cancels k e) d = ground arith
Internal-IsDone h (adds a e) d = ground arith
Internal-IsDone h (removes a e) d = ground arith
Internal-IsDone h (sets t e) d = ground arith

module _ (sdk : Sdk) (env : Env) (target : Address) (function : String) (args : List Val)
    (salt : List ℕ) (w w' : Wallet) (r : Val) where
  inner-IsDone :
      (h : Digest) (q q' : Wallet)
      → dispatch sdk env target function args q ≡ ok (r, q')
      → IsDone (q.proposal h)
      → IsDone (q'.proposal h)
  inner-IsDone h q q' e d = elim (dispatch-Internal sdk args env target function e) [
    | inl s ↦ Internal-IsDone h s d
    | inr same ↦ rw same d
  ]

  -- Executed proposals stay executed through any execution.
  pub execute-keeps_IsDone :
      (k : Digest)
      → execute sdk env target function args salt w ≡ ok (r, w')
      → IsDone (w.proposal k)
      → IsDone (w'.proposal k)
  execute-keeps_IsDone k e d =
      let x = execute-Executed sdk env target function args salt w w' r e in
      let h = calculate_hash sdk target function args salt in
      let before : IsDone ((marked h x.info w).proposal k) = ground arith in
      let after = inner-IsDone k (marked h x.info w) x.inner x.called before in rw x.result after

  -- After an execution the proposal is marked as executed.
  pub execute-IsDone :
      execute sdk env target function args salt w ≡ ok (r, w')
      → IsDone (w'.proposal (calculate_hash sdk target function args salt))
  execute-IsDone e =
      let x = execute-Executed sdk env target function args salt w w' r e in
      let h = calculate_hash sdk target function args salt in
      let before : IsDone ((marked h x.info w).proposal h) = ground arith in
      rw x.result (inner-IsDone h (marked h x.info w) x.inner x.called before)

  marked-IsValid :
      (h : Digest) (i : ProposalInfo)
      → w.proposal h ≡ some i
      → i.cancelled ≡ false
      → IsValid w
      → IsValid (marked h i w)
  marked-IsValid h i e pending v = record {
    configured = v.configured;
    counted = λ k. ground (arith, v.counted k);
    distinct = v.distinct;
  }

  pub execute-IsValid :
      IsValid w → execute sdk env target function args salt w ≡ ok (r, w') → IsValid w'
  execute-IsValid v e =
      let x = execute-Executed sdk env target function args salt w w' r e in
      let h = calculate_hash sdk target function args salt in
      let m = marked-IsValid h x.info x.stored x.open_still v in
      let inner : IsValid x.inner = elim (dispatch-Internal sdk args env target function x.called) [
        | inl s ↦ Internal-IsValid m s
        | inr same ↦ rw same m
      ] in
      rw x.result (record {
        configured = inner.configured;
        counted = inner.counted;
        distinct = inner.distinct;
      })

-- What an approval has checked, and all that it changes.
pub record Approves (env : Env) (signer : Address) (h : Digest) (w w' : Wallet) : Type 0 where
  pub info : ProposalInfo
  pub signers : List Address
  pub authorised : env.authorised signer ≡ true
  pub registered : (w.signers ≡ some signers) × (contains signer signers ≡ true)
  pub pending : (w.proposal h ≡ some info) × (info.executed ≡ false) × (info.cancelled ≡ false)
  pub first_time : contains signer (approvers h w.approvals) ≡ false
  pub added : approvers h w'.approvals ≡ signer ∷ approvers h w.approvals
  pub raised : w'.proposal h ≡ some (record info { approval_count = info.approval_count + 1 })
  pub others : (k : Digest) → k ≢ h → w'.proposal k ≡ w.proposal k
  pub configuration : (w'.signers ≡ w.signers) × (w'.threshold ≡ w.threshold)

-- An approval that ends was authorised by a registered signer who had not yet approved this pending
-- proposal; it adds the signer to the approvers and one to the count, and changes nothing else.
pub approve-Approves :
    (env : Env) (signer : Address) (h : Digest) (w w' : Wallet)
    → approve env signer h w ≡ ok (tt, w')
    → Approves env signer h w w'
unfolding approve
approve-Approves env signer h w w' e = elim (Option-cases (w.proposal h)) [
  | inl unknown ↦ absurd (ground arith)
  | inr (i, ei) ↦ elim (Option-cases w.signers) [
    | inl unset ↦ absurd (ground arith)
    | inr (ss, es) ↦ record {
      info = i;
      signers = ss;
      authorised = ground arith;
      registered = ground arith;
      pending = ground arith;
      first_time = ground (arith, has_approval-contains h signer w.approvals);
      added = ground arith;
      raised = ground arith;
      others = λ k ne. ground arith;
      configuration = ground arith;
    }
  ]
]
