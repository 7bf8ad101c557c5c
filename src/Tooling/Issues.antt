-- ===== src/Tooling/Issues.antt =====
-- The issues that tooling/sanctifier-core/src reports, and how severe each kind is.
use Prim.Native.String.{String}
use text.Mathlib.Text.{◌==◌ as str_eq}
use sanctifier.Base.{ℕ, Bool, true, false, ◌||◌, Option, List, if◌then◌else◌}

-- tooling/sanctifier-core/src/finding_codes.rs
pub data FindingSeverity : Type 0 where
  critical high medium low info : FindingSeverity

pub data SizeWarningLevel : Type 0 where
  exceeds_limit approaching_limit : SizeWarningLevel

pub record SizeWarning : Type 0 where
  pub struct_name : String
  pub estimated_size : ℕ
  pub limit : ℕ
  pub level : SizeWarningLevel

pub record PanicIssue : Type 0 where
  pub function_name : String
  pub issue_type : String
  pub location : String

pub data PatternType : Type 0 where
  panic unwrap expect : PatternType

pub record UnsafePattern : Type 0 where
  pub pattern_type : PatternType
  pub line : ℕ
  pub snippet : String

pub data UpgradeCategory : Type 0 where
  admin_control timelock init_pattern storage_layout governance : UpgradeCategory

pub record UpgradeFinding : Type 0 where
  pub category : UpgradeCategory
  pub function_name : Option String
  pub location : String
  pub message : String
  pub suggestion : String

pub record UpgradeReport : Type 0 where
  pub findings : List UpgradeFinding
  pub upgrade_mechanisms : List String
  pub init_functions : List String
  pub storage_types : List String
  pub suggestions : List String

pub record ArithmeticIssue : Type 0 where
  pub function_name : String
  pub operation : String
  pub suggestion : String
  pub location : String

pub record TruncationBoundsIssue : Type 0 where
  pub function_name : String
  pub kind : String
  pub expression : String
  pub suggestion : String
  pub location : String

pub record StorageCollisionIssue : Type 0 where
  pub key_value : String
  pub key_type : String
  pub location : String
  pub message : String

pub record ContractImportMismatchIssue : Type 0 where
  pub wasm_path : String
  pub location : String
  pub message : String

pub data EventIssueType : Type 0 where
  inconsistent_schema optimizable_topic : EventIssueType

pub record EventIssue : Type 0 where
  pub function_name : String
  pub event_name : String
  pub issue_type : EventIssueType
  pub message : String
  pub location : String

pub record UnhandledResultIssue : Type 0 where
  pub function_name : String
  pub call_expression : String
  pub message : String
  pub location : String

pub record CustomRuleMatch : Type 0 where
  pub rule_name : String
  pub line : ℕ
  pub snippet : String
  pub severity : FindingSeverity

pub record AuthGapIssue : Type 0 where
  pub function_name : String

pub record SmtInvariantIssue : Type 0 where
  pub function_name : String
  pub description : String
  pub location : String

pub data Sep41IssueKind : Type 0 where
  missing_function signature_mismatch authorization_mismatch : Sep41IssueKind

pub record Sep41Issue : Type 0 where
  pub function_name : String
  pub kind : Sep41IssueKind
  pub location : String
  pub message : String
  pub expected_signature : String
  pub actual_signature : Option String

pub record Sep41VerificationReport : Type 0 where
  pub candidate : Bool
  pub compliant : Bool
  pub verified_functions : List String
  pub issues : List Sep41Issue

pub record Patch : Type 0 where
  pub start_line : ℕ
  pub start_column : ℕ
  pub end_line : ℕ
  pub end_column : ℕ
  pub replacement : String
  pub description : String

pub data Severity : Type 0 where
  error warning info : Severity

pub record RuleViolation : Type 0 where
  pub rule_name : String
  pub severity : Severity
  pub message : String
  pub location : String
  pub suggestion : Option String
  pub patches : List Patch

pub record VulnMatch : Type 0 where
  pub vuln_id : String
  pub name : String
  pub severity : String
  pub category : String
  pub description : String
  pub recommendation : String
  pub file : String
  pub line : ℕ
  pub snippet : String

-- The `severity` methods.
abbrev pub size_warning_severity : SizeWarning → FindingSeverity
size_warning_severity w = elim w.level [ exceeds_limit ↦ critical | approaching_limit ↦ high ]

abbrev pub panic_severity : PanicIssue → FindingSeverity
panic_severity p =
    if str_eq p.issue_type "panic!" || str_eq p.issue_type "unwrap" || str_eq p.issue_type "expect"
    then critical
    else high

abbrev pub unsafe_pattern_severity : UnsafePattern → FindingSeverity
unsafe_pattern_severity u = high

abbrev pub upgrade_finding_severity : UpgradeFinding → FindingSeverity
upgrade_finding_severity f = high

abbrev pub arithmetic_severity : ArithmeticIssue → FindingSeverity
arithmetic_severity a = high

abbrev pub truncation_severity : TruncationBoundsIssue → FindingSeverity
truncation_severity t = high

abbrev pub collision_severity : StorageCollisionIssue → FindingSeverity
collision_severity c = high

abbrev pub smt_severity : SmtInvariantIssue → FindingSeverity
smt_severity i = critical

abbrev pub event_severity : EventIssue → FindingSeverity
event_severity e = high

abbrev pub unhandled_severity : UnhandledResultIssue → FindingSeverity
unhandled_severity r = high

abbrev pub auth_gap_severity : AuthGapIssue → FindingSeverity
auth_gap_severity g = critical

abbrev pub sep41_severity : Sep41Issue → FindingSeverity
sep41_severity s = critical

-- `severity == FindingSeverity::Critical`, and `High`.
abbrev pub is_critical : FindingSeverity → Bool
is_critical critical = true
is_critical _ = false

abbrev pub is_high : FindingSeverity → Bool
is_high high = true
is_high _ = false
