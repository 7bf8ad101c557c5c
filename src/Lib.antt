-- ===== src/Lib.antt =====
-- Verification of the smart contracts of the Sanctifier repository (contracts/), over a model of the
-- Soroban host they run on, and of its analysis tool (tooling/): what the tool makes of the issues that
-- its passes report. `analyze` scans each file with a cache and adds up (Tooling/Scan) and decides the exit
-- code (Tooling/Severity); `diff` compares two reports (Tooling/Diff); `report` and `badge` give a verdict.
--
-- Parts, and the files that model them:
--   Base, Base/*: shared lists, tests, products and fractions, signed integers (Base/Int) and Rust's
--     `Result` (Base/Results).
--   Host: the ledger, authorisation and panics. A call returns an `Outcome`: `ok` with the new
--     storage, `panic` with the contract's error code, or `trap` where the host stops it (missing
--     authorisation, `unwrap` of nothing, overflow, a failed callee). `commit` is the storage after the
--     call: the host rolls back a call that does not end well. `Env.authorised` says which addresses
--     have authorised the call, so `a.require_auth()` is one test. Callees cannot re-enter: the
--     host forbids it, so an outgoing call leaves the caller's storage alone.
--   Contracts/AmmPool: contracts/amm-pool/src/lib.rs. The pool's pure arithmetic is AmmPool/Arithmetic;
--     the storage is the record `Pool`, with one option for each key of `DataKey`. An early
--     `return 0` is `none` of the functions that end in `_body`.
--   Contracts/Multisig: contracts/multisig/src/lib.rs. The record `Wallet`; `execute` marks the
--     proposal, then runs one of the wallet's own operations or the call of another contract.
--   Contracts/Timelock: contracts/timelock/src/lib.rs. The record `Controller`.
--   Contracts/Governance: contracts/governance/src/lib.rs. The record `Governor`; the token and the
--     timelock that it calls are the record `World`, with a state of their own that `queue` and
--     `execute` thread through. Governance/Delay fills it with the controller of Contracts/Timelock.
--   Contracts/Token: contracts/my-contract/src/lib.rs, the SEP-41 token. The record `Ledger`.
--   Contracts/Messages: contracts/my-contract/src/cross_contract.rs, the parser of messages, on
--     lists of bytes.
--   Contracts/RuntimeGuard: contracts/runtime-guard-wrapper/src/lib.rs. The record `Guard`; a step that
--     ends with an error keeps its writes until the whole call is rolled back (`settle`).
--   Contracts/Oracle: contracts/oracle/src/lib.rs. The record `Oracle`.
--   Contracts/Flashloan: contracts/flashloan-token/src/lib.rs. The record `Lender`; the token and the
--     receiver are the record `World`, with a state of their own that the loan threads through.
--   Contracts/Proxy: contracts/proxy/src/lib.rs. The record `Proxy`.
--   Contracts/Bridge: contracts/bridge/src/lib.rs. The record `Bridge`; the loop over the signers is
--     `count_signers`.
--   Contracts/ReentrancyGuard: contracts/reentrancy-guard/src/lib.rs, over a contract state of any type.
--   Contracts/KaniPoc: contracts/kani-poc/src/lib.rs, the arithmetic of a token on single balances.
--   Tooling/AnalysisCache: tooling/sanctifier-core/src/analysis_cache.rs. The map is a list of keys
--     with their entries; the hash of a source is an argument.
--   Tooling/Text, Tooling/Json: Rust's strings, and JSON values, where an object is a list of named
--     members. A text is a list of characters, and `len_utf8` gives the number of bytes of one.
--   Tooling/Issues: the issue types and their `severity` methods, of tooling/sanctifier-core/src: lib.rs,
--     finding_codes.rs, sep41.rs, rules/mod.rs; and `VulnMatch`.
--   Tooling/FindingCodes: the catalogue of finding_codes.rs.
--   Tooling/Severity, Tooling/Scan, Scan/Files: tooling/sanctifier-cli/src/commands/analyze.rs. The levels
--     with their derived order and the exit gate; the totals and flags of a scan; one file's analysis with
--     the cache and the timeout, where `Analyzer` and `Run` are parameters.
--   Tooling/Diff: tooling/sanctifier-cli/src/commands/diff.rs. The fingerprints of each section, the new
--     findings, their count and highest severity.
--   Tooling/Report: commands/report.rs and the count of commands/workspace.rs.
--   Tooling/Badge: commands/badge.rs, the status and the layout.
--   Tooling/VulnDb: tooling/sanctifier-cli/src/vulndb.rs; regular expressions are the record `Regex`.
--   Tooling/Patcher: tooling/sanctifier-core/src/patcher.rs; offsets are bytes of UTF-8, and a replacement
--     outside the text or inside a character is `none`, the panic of `replace_range`.
--   Tooling/Rules: tooling/sanctifier-core/src/rules/mod.rs and custom_yaml_rules.rs, the registry and the
--     patterns of custom rules; regular expressions are the record `Regex`.
--   Tooling/SdkVersion: tooling/sanctifier-core/src/sdk_version.rs.
--   Tooling/InputValidation: tooling/sanctifier-core/src/input_validation.rs.
--
-- Each function of a contract has the name it has there, in snake case, and takes the environment,
-- its arguments and the storage. In each contract with a `Call` type, `apply` runs one entry point and
-- `run` a sequence of them, with the environment of each call free.
--
-- Integers: u128 arithmetic is checked (`Host.checked_add` and the others give `none`), additions on
-- u32 and u64 trap on overflow as the release profile makes them do, i128 is `Base.Int.ℤ` with the range
-- tested after each operation. The oracle's crate is no member of the workspace, so the sum in its
-- `get_price` wraps around; its count and the bridge's cannot exceed the length of a vector. `usize` has 32 bits.
-- Fuel: the loop of `integer_sqrt` runs on fuel, with one round more than the value; the estimate
-- falls by at least one each round. The decimal digits of a number have a fuel of 20, which is as many
-- digits as 64 bits need. All else is recursion on a list or a text.
--
-- Parameters, for code that is not in the repository or is not modelled: the SDK's encodings, value conversions,
-- SHA-256 and cross-contract calls (the records `Sdk` and `World`), the hash of the caches, the passes
-- over a source text (`Analyzer`, whose code stands on `syn` and Z3), and regular expressions (`Regex`).
-- Storage lifetimes (TTL) and fees are not modelled.
-- Not modelled: the passes and rules themselves, and the search for calls of custom rules, which visit
-- the syntax trees of the third-party crate `syn`, the SMT backend, argument parsing, files,
-- printing and webhooks, the vesting stub, the example contracts with seeded faults, the web front end and the editor extension.
pub mod Base
pub mod Host
pub mod Contracts
pub mod Tooling
