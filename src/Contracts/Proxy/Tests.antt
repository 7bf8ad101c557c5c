-- ===== src/Contracts/Proxy/Tests.antt =====
-- Runs of contracts/proxy/src/lib.rs at concrete inputs, and the theorems at such inputs.
use sanctifier.Base.{ℕ, ◌≡◌, refl, true, some, [], ◌==◌}
use sanctifier.Host.{Env, trap, missing_auth}
use sanctifier.Contracts.Proxy
use sanctifier.Contracts.Proxy.{Proxy, Event}
use sanctifier.Contracts.Proxy.Authority.{Call, apply, IsAuthorised, apply-IsAuthorised}

program : Unit {0}
unfolding Proxy.initialize Proxy.upgrade Proxy.transfer_admin Proxy.accept_admin apply
program = tt

-- Only `a` authorises.
abbrev signed_by : ℕ → Env
signed_by a = record {
  current_contract_address = 1;
  timestamp = 0;
  sequence = 0;
  authorised = λ b. b == a;
}

-- The admin 9 has nominated 8.
abbrev proxy : Proxy
proxy = record {
  initialised = some true;
  admin = some 9;
  pending_admin = some 8;
  version = some 3;
  impl_hash = some 77;
  events = [];
}

upgrading : (apply (λ h. true) (signed_by 9) (Call.upgrade 78) proxy).version ≡ some 4
unfolding program
upgrading = refl

refused : Proxy.upgrade (λ h. true) (signed_by 8) 78 proxy ≡ trap missing_auth
unfolding program
refused = refl

accepting : (apply (λ h. true) (signed_by 8) Call.accept_admin proxy).admin ≡ some 8
unfolding program
accepting = refl

apply-IsAuthorised_example :
    IsAuthorised (signed_by 8) 9 proxy (apply (λ h. true) (signed_by 8) Call.accept_admin proxy)
apply-IsAuthorised_example =
    apply-IsAuthorised (λ h. true) (signed_by 8) Call.accept_admin proxy 9 refl refl
