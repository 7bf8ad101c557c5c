-- ===== src/Contracts/Proxy/Authority.antt =====
-- Who may change what in contracts/proxy/src/lib.rs.
use sanctifier.Base.{
  ◌≤◌, ◌≡◌, ◌⊎◌, Bool, true, none, some, arith, Option-cases, Bool-cases, inl, inr,
}
use sanctifier.Host.{Address, Env, commit, unwrap_or}
use sanctifier.Contracts.Proxy
use sanctifier.Contracts.Proxy.{Proxy, Hash}

-- A call of an entry point that writes.
pub data Call : Type 0 where
  initialize : Address → Hash → Call
  upgrade : Hash → Call
  transfer_admin : Address → Call
  accept_admin : Call

unfoldable pub apply : (Hash → Bool) → Env → Call → Proxy → Proxy
apply installed env (Call.initialize a h) p = commit p (Proxy.initialize a h p)
apply installed env (Call.upgrade h) p = commit p (Proxy.upgrade installed env h p)
apply installed env (Call.transfer_admin a) p = commit p (Proxy.transfer_admin env a p)
apply installed env Call.accept_admin p = commit p (Proxy.accept_admin env p)

-- What any call may do to a proxy with the admin `a`.
pub record IsAuthorised (env : Env) (a : Address) (p p' : Proxy) : Type 0 where
  pub admin_changes :
      (p'.admin ≡ some a)
      ⊎ ((n : Address) × (p.pending_admin ≡ some n)
          × (env.authorised n ≡ true)
          × (p'.admin ≡ some n)
          × (p'.pending_admin ≡ none))
  pub nomination :
      (p'.pending_admin ≡ p.pending_admin) ⊎ ((p'.pending_admin ≡ none) ⊎ (env.authorised a ≡ true))
  pub code : (p'.impl_hash ≡ p.impl_hash) ⊎ (env.authorised a ≡ true)
  pub version : unwrap_or p.version 1 ≤ unwrap_or p'.version 1
  pub initialised : p'.initialised ≡ p.initialised

-- On an initialised proxy with the admin `a`, any call leaves the admin, or makes the nominee the
-- admin with the nominee's own authorisation; a nomination and new code want the authorisation of
-- `a`; and the version never falls.
pub apply-IsAuthorised :
    (installed : Hash → Bool) (env : Env) (call : Call) (p : Proxy) (a : Address)
    → p.initialised ≡ some true
    → p.admin ≡ some a
    → IsAuthorised env a p (apply installed env call p)
unfolding apply Proxy.initialize Proxy.upgrade Proxy.transfer_admin Proxy.accept_admin
apply-IsAuthorised installed env Call.accept_admin p a set owned =
    elim (Option-cases p.pending_admin) [
      | inl missing ↦ record {
        admin_changes = inl (ground arith);
        nomination = ground arith;
        code = ground arith;
        version = ground arith;
        initialised = ground arith;
      }
      | inr (n, pending) ↦ elim (Bool-cases (env.authorised n)) [
        | inl granted ↦ record {
          admin_changes = inr (n, pending, granted, ground arith, ground arith);
          nomination = ground arith;
          code = ground arith;
          version = ground arith;
          initialised = ground arith;
        }
        | inr denied ↦ record {
          admin_changes = inl (ground arith);
          nomination = ground arith;
          code = ground arith;
          version = ground arith;
          initialised = ground arith;
        }
      ]
    ]
apply-IsAuthorised installed env _ p a set owned = record {
  admin_changes = inl (ground arith);
  nomination = ground arith;
  code = ground arith;
  version = ground arith;
  initialised = ground arith;
}
