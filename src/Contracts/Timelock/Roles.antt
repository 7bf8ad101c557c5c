-- ===== src/Contracts/Timelock/Roles.antt =====
-- Who may change the roles and the delay of contracts/timelock/src/lib.rs.
use sanctifier.Base.{◌≡◌, false, some, arith}
use sanctifier.Host.{Address, Env}
use sanctifier.Contracts.Timelock
use sanctifier.Contracts.Timelock.{Controller, Sdk}
use sanctifier.Contracts.Timelock.Calls.{Call, apply}

-- Both storages give every address the same roles, and have one admin and one delay.
pub record SameRoles (c c' : Controller) : Type 0 where
  pub admin : c'.admin ≡ c.admin
  pub min_delay : c'.min_delay ≡ c.min_delay
  pub proposer : (a : Address) → c'.proposer a ≡ c.proposer a
  pub executor : (a : Address) → c'.executor a ≡ c.executor a
  pub canceller : (a : Address) → c'.canceller a ≡ c.canceller a

-- No call that the admin has not authorised changes the admin, the delay or any role of an
-- initialised controller.
pub apply-SameRoles :
    (sdk : Sdk) (env : Env) (call : Call) (c : Controller) (admin : Address)
    → c.admin ≡ some admin
    → env.authorised admin ≡ false
    → SameRoles c (apply sdk env call c)
unfolding apply Timelock.init Timelock.set_proposer Timelock.set_executor Timelock.set_canceller
    Timelock.update_delay Timelock.schedule Timelock.execute Timelock.cancel
apply-SameRoles sdk env (Call.set_proposer a x b) c admin set denied = record {
  admin = ground arith;
  min_delay = ground arith;
  proposer = λ a. ground arith;
  executor = λ a. ground arith;
  canceller = λ a. ground arith;
}
apply-SameRoles sdk env _ c admin set denied = record {
  admin = ground arith;
  min_delay = ground arith;
  proposer = λ a. ground arith;
  executor = λ a. ground arith;
  canceller = λ a. ground arith;
}
