-- ===== src/Tooling/FindingCodes.antt =====
-- tooling/sanctifier-core/src/finding_codes.rs: the catalogue of finding codes.
mod Tests
use Prim.Native.String.{String}
use sanctifier.Base.{List, [], ◌∷◌}

pub record FindingCode : Type 0 where
  pub code : String
  pub category : String
  pub description : String

abbrev pub entry : String → String → String → FindingCode
entry code category description = record {
  code = code;
  category = category;
  description = description;
}

abbrev pub analysis_timeout : String
analysis_timeout = "S000"

abbrev pub auth_gap : String
auth_gap = "S001"

abbrev pub panic_usage : String
panic_usage = "S002"

abbrev pub arithmetic_overflow : String
arithmetic_overflow = "S003"

abbrev pub ledger_size_risk : String
ledger_size_risk = "S004"

abbrev pub storage_collision : String
storage_collision = "S005"

abbrev pub unsafe_pattern : String
unsafe_pattern = "S006"

abbrev pub custom_rule_match : String
custom_rule_match = "S007"

abbrev pub event_inconsistency : String
event_inconsistency = "S008"

abbrev pub unhandled_result : String
unhandled_result = "S009"

abbrev pub upgrade_risk : String
upgrade_risk = "S010"

abbrev pub smt_invariant_violation : String
smt_invariant_violation = "S011"

abbrev pub sep41_interface_deviation : String
sep41_interface_deviation = "S012"

abbrev pub reentrancy : String
reentrancy = "S013"

abbrev pub admin_trust_risk : String
admin_trust_risk = "S014"

abbrev pub hardcoded_secret_key : String
hardcoded_secret_key = "S015"

abbrev pub truncation_bounds : String
truncation_bounds = "S016"

abbrev pub contractimport_mismatch : String
contractimport_mismatch = "S017"

abbrev pub unsafe_prng : String
unsafe_prng = "S018"

abbrev pub unchecked_external_call : String
unchecked_external_call = "S019"

abbrev pub missing_state_event : String
missing_state_event = "S020"

abbrev pub instance_storage_misuse : String
instance_storage_misuse = "S021"

-- Every finding code.
abbrev pub all_finding_codes : List FindingCode
all_finding_codes =
    entry analysis_timeout "timeout"
      "Analysis of a file was aborted because it exceeded the per-file timeout"
    ∷ entry auth_gap "authentication"
        "Missing authentication guard in a privileged state-changing or external-call function"
    ∷ entry panic_usage "panic_handling" "panic!/unwrap/expect usage that may cause runtime aborts"
    ∷ entry arithmetic_overflow "arithmetic"
        "Unchecked arithmetic operation with overflow/underflow risk"
    ∷ entry ledger_size_risk "storage_limits"
        "Ledger entry size is exceeding or approaching configured threshold"
    ∷ entry storage_collision "storage_keys"
        "Potential storage key collision across contract data paths"
    ∷ entry unsafe_pattern "unsafe_patterns"
        "Potentially unsafe language/runtime pattern was detected"
    ∷ entry custom_rule_match "custom_rule" "User-defined rule matched contract source"
    ∷ entry event_inconsistency "events"
        "Inconsistent topic counts or sub-optimal gas patterns in events"
    ∷ entry unhandled_result "logic"
        "A function call returns a Result that is not consumed or handled"
    ∷ entry upgrade_risk "upgrades"
        "Potential security risk in contract upgrade or admin mechanisms"
    ∷ entry smt_invariant_violation "formal_verification"
        "Formal verification (Z3) proved a mathematical violation of an invariant"
    ∷ entry sep41_interface_deviation "token_interface"
        "SEP-41 token interface compatibility or authorization deviation"
    ∷ entry reentrancy "reentrancy" "State mutation before external call without a reentrancy guard"
    ∷ entry admin_trust_risk "centralization"
        "Excessive administrative control or insecure credential management"
    ∷ entry hardcoded_secret_key "secrets"
        "Hardcoded secret key or sensitive mnemonic in contract source"
    ∷ entry truncation_bounds "truncation_bounds"
        "Integer truncation cast or unchecked array/slice indexing"
    ∷ entry contractimport_mismatch "integration"
        "contractimport signature does not match actual implemented workspace source"
    ∷ entry unsafe_prng "randomness"
        "Use of PRNG without proper seeding in state-critical code that could lead to predictable randomness"
    ∷ entry unchecked_external_call "external_calls"
        "Result from cross-contract call is not checked, which may leave state inconsistent"
    ∷ entry missing_state_event "events"
        "Privileged state change (admin, pause, upgrade) without event emission breaks off-chain data integrity"
    ∷ entry instance_storage_misuse "storage_type"
        "Per-user or large dataset stored in Instance storage instead of Persistent, causing ledger entry bloat"
    ∷ []
