-- ===== src/Tooling.antt =====
-- The analysis tool under tooling/.
pub mod AnalysisCache
pub mod Badge
pub mod Diff
pub mod FindingCodes
pub mod Json
pub mod InputValidation
pub mod Issues
pub mod Patcher
pub mod Report
pub mod Rules
pub mod Scan
pub mod SdkVersion
pub mod Severity
pub mod Text
pub mod VulnDb
