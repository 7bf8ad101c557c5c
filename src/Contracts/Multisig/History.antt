-- ===== src/Contracts/Multisig/History.antt =====
-- Any sequence of calls of the wallet of contracts/multisig/src/lib.rs.
use Prim.Native.String.{String}
use sanctifier.Base.{ℕ, ◌≡◌, ◌≢◌, false, none, List, [], ◌∷◌, arith}
use sanctifier.Host.{commit, commit-keeps, Address, Val, Env, Outcome, ok, ◌>>◌, require_auth}
use sanctifier.Contracts.Multisig
use sanctifier.Contracts.Multisig.{
  Digest, ProposalInfo, Wallet, Sdk, Error, calculate_hash, internal_cancel, internal_add_signer,
  internal_remove_signer, internal_set_threshold,
}
use sanctifier.Contracts.Multisig.Invariant.{
  IsValid, init-IsValid, propose-IsValid, approve-IsValid, Internal, cancels, adds, removes, sets,
  Internal-IsValid,
}
use sanctifier.Contracts.Multisig.Execution.{
  IsDone, Internal-IsDone, execute-keeps_IsDone, execute-IsDone, execute-IsValid, execute-not_again,
}

-- A call of an entry point that writes.
pub data Call : Type 0 where
  init : List Address → ℕ → Call
  propose : Address → String → List Val → List ℕ → Call
  approve : Address → Digest → Call
  execute : Address → String → List Val → List ℕ → Call
  cancel : Digest → Call
  add_signer remove_signer : Address → Call
  set_threshold : ℕ → Call

unfoldable pub apply : Sdk → Env → Call → Wallet → Wallet
apply sdk env (Call.init ss t) w = commit w (Multisig.init ss t w)
apply sdk env (Call.propose target f args salt) w =
    commit w (Multisig.propose sdk target f args salt w)
apply sdk env (Call.approve a h) w = commit w (Multisig.approve env a h w)
apply sdk env (Call.execute target f args salt) w =
    commit w (Multisig.execute sdk env target f args salt w)
apply sdk env (Call.cancel h) w = commit w (Multisig.cancel env h w)
apply sdk env (Call.add_signer a) w = commit w (Multisig.add_signer env a w)
apply sdk env (Call.remove_signer a) w = commit w (Multisig.remove_signer env a w)
apply sdk env (Call.set_threshold t) w = commit w (Multisig.set_threshold env t w)

unfoldable pub run : Sdk → List (Env × Call) → Wallet → Wallet
run sdk [] w = w
run sdk ((env, c) ∷ cs) w = run sdk cs (apply sdk env c w)

-- A call that wants the wallet's own authorisation.
authorised_call :
    (env : Env) (a : Address) (m : Outcome Error (Unit {0} × Wallet)) {w' : Wallet}
    → (require_auth env a >> m) ≡ ok (tt, w')
    → m ≡ ok (tt, w')
authorised_call env a m e = ground arith

module _ (P : Wallet → Type 0) (sdk : Sdk)
    (init_keeps : (ss : List Address) (t : ℕ) (w w' : Wallet)
      → P w
      → Multisig.init ss t w ≡ ok (tt, w')
      → P w')
    (propose_keeps : (target : Address) (f : String) (args : List Val) (salt : List ℕ) (r : Digest)
        (w w' : Wallet)
      → P w
      → Multisig.propose sdk target f args salt w ≡ ok (r, w')
      → P w')
    (approve_keeps : (env : Env) (a : Address) (h : Digest) (w w' : Wallet)
      → P w
      → Multisig.approve env a h w ≡ ok (tt, w')
      → P w')
    (internal_keeps : (w w' : Wallet) → P w → Internal w w' → P w')
    (execute_keeps : (env : Env) (target : Address) (f : String) (args : List Val) (salt : List ℕ)
        (r : Val) (w w' : Wallet)
      → P w
      → Multisig.execute sdk env target f args salt w ≡ ok (r, w')
      → P w') where
  internal_call :
      (env : Env) (m : Wallet → Outcome Error (Unit {0} × Wallet)) (w : Wallet)
      → ((w' : Wallet) → m w ≡ ok (tt, w') → Internal w w')
      → P w
      → P (commit w (require_auth env env.current_contract_address >> m w))
  internal_call env m w as_internal h =
      commit-keeps P w (require_auth env env.current_contract_address >> m w) h λ a w' e.
        internal_keeps w w' h
          (as_internal w' (authorised_call env env.current_contract_address (m w) e))

  -- What every operation keeps, every call keeps.
  apply-keeps : (env : Env) (c : Call) (w : Wallet) → P w → P (apply sdk env c w)
  unfolding apply Multisig.cancel Multisig.add_signer Multisig.remove_signer Multisig.set_threshold
  apply-keeps env (Call.init ss t) w h =
      commit-keeps P w (Multisig.init ss t w) h (λ a w'. init_keeps ss t w w' h)
  apply-keeps env (Call.propose target f args salt) w h =
      commit-keeps P w (Multisig.propose sdk target f args salt w) h
        (λ a w'. propose_keeps target f args salt a w w' h)
  apply-keeps env (Call.approve s k) w h =
      commit-keeps P w (Multisig.approve env s k w) h (λ a w'. approve_keeps env s k w w' h)
  apply-keeps env (Call.execute target f args salt) w h =
      commit-keeps P w (Multisig.execute sdk env target f args salt w) h
        (λ a w'. execute_keeps env target f args salt a w w' h)
  apply-keeps env (Call.cancel k) w h = internal_call env (internal_cancel k) w (λ w'. cancels k) h
  apply-keeps env (Call.add_signer s) w h =
      internal_call env (internal_add_signer s) w (λ w'. adds s) h
  apply-keeps env (Call.remove_signer s) w h =
      internal_call env (internal_remove_signer s) w (λ w'. removes s) h
  apply-keeps env (Call.set_threshold t) w h =
      internal_call env (internal_set_threshold t) w (λ w'. sets t) h

  run-keeps : (cs : List (Env × Call)) (w : Wallet) → P w → P (run sdk cs w)
  unfolding run
  run-keeps [] w h = h
  run-keeps ((env, c) ∷ cs) w h = run-keeps cs (apply sdk env c w) (apply-keeps env c w h)

module _ (h : Digest) where
  init-IsDone :
      (ss : List Address) (t : ℕ) (w w' : Wallet)
      → IsDone (w.proposal h)
      → Multisig.init ss t w ≡ ok (tt, w')
      → IsDone (w'.proposal h)
  unfolding Multisig.init
  init-IsDone ss t w w' d e = ground arith

  propose-IsDone :
      (sdk : Sdk) (target : Address) (f : String) (args : List Val) (salt : List ℕ) (r : Digest)
      (w w' : Wallet)
      → IsDone (w.proposal h)
      → Multisig.propose sdk target f args salt w ≡ ok (r, w')
      → IsDone (w'.proposal h)
  unfolding Multisig.propose
  propose-IsDone sdk target f args salt r w w' d e = ground arith

  approve-IsDone :
      (env : Env) (a : Address) (k : Digest) (w w' : Wallet)
      → IsDone (w.proposal h)
      → Multisig.approve env a k w ≡ ok (tt, w')
      → IsDone (w'.proposal h)
  unfolding Multisig.approve
  approve-IsDone env a k w w' d e = ground arith

module _ (sdk : Sdk) (cs : List (Env × Call)) (w : Wallet) where
  -- After any sequence of calls on a valid wallet: 1 ≤ threshold ≤ signers once it is initialised,
  -- each stored count is the number of distinct approvers, and no proposal is both executed and
  -- cancelled.
  pub run-IsValid : IsValid w → IsValid (run sdk cs w)
  run-IsValid v =
      run-keeps IsValid sdk (λ ss t w w' v. init-IsValid ss t v)
        (λ target f args salt r w w' v. propose-IsValid v sdk target f args salt)
        (λ env a h w w' v. approve-IsValid v env a h) (λ w w'. Internal-IsValid)
        (λ env target f args salt r w w'. execute-IsValid sdk env target f args salt w w' r) cs w v

  -- An executed proposal stays executed through any sequence of calls.
  run-IsDone : (h : Digest) → IsDone (w.proposal h) → IsDone ((run sdk cs w).proposal h)
  run-IsDone h d =
      run-keeps (λ q. IsDone (q.proposal h)) sdk (init-IsDone h) (propose-IsDone h sdk)
        (approve-IsDone h) (λ w w' d s. Internal-IsDone h s d)
        (λ env target f args salt r w w' d e.
          execute-keeps_IsDone sdk env target f args salt w w' r h e d)
        cs w d

module _ (sdk : Sdk) (env env' : Env) (target : Address) (f : String) (args : List Val)
    (salt : List ℕ) (r r' : Val) where
  -- Whatever is called after a proposal has been executed, by anyone, it cannot be executed again.
  pub execute-once :
      (cs : List (Env × Call)) (w w' w'' : Wallet)
      → Multisig.execute sdk env target f args salt w ≡ ok (r, w')
      → Multisig.execute sdk env' target f args salt (run sdk cs w') ≢ ok (r', w'')
  execute-once cs w w' w'' e =
      execute-not_again sdk env' target f args salt (run sdk cs w') w'' r' (
        run-IsDone sdk cs w' (calculate_hash sdk target f args salt)
          (execute-IsDone sdk env target f args salt w w' r e))

-- The call is no execution.
abbrev pub IsNoExecution : Call → Type 0
IsNoExecution (Call.execute target f args salt) = ⊥
IsNoExecution _ = Unit

-- Without the wallet's own authorisation, no call but an execution changes the signers or the
-- threshold of an initialised wallet.
pub apply-configuration :
    (sdk : Sdk) (env : Env) (c : Call) (w : Wallet)
    → env.authorised env.current_contract_address ≡ false
    → IsValid w
    → w.threshold ≢ none
    → IsNoExecution c
    → ((apply sdk env c w).signers ≡ w.signers) × ((apply sdk env c w).threshold ≡ w.threshold)
unfolding apply Multisig.init Multisig.propose Multisig.approve Multisig.cancel Multisig.add_signer
    Multisig.remove_signer Multisig.set_threshold
apply-configuration sdk env (Call.execute target f args salt) w denied v set h = absurd h
apply-configuration sdk env (Call.approve a k) w denied v set h = ground arith
apply-configuration sdk env _ w denied v set h = ground arith
