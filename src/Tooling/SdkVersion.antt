-- ===== src/Tooling/SdkVersion.antt =====
-- tooling/sanctifier-core/src/sdk_version.rs: the version of the SDK in a manifest, and what is said of it.
pub mod Deprecated
mod Tests
use Prim.Native.String.{String, ◌++◌ as str_append}
use text.Mathlib.Text.{◌==◌ as str_eq}
use sanctifier.Base.{
  ℕ, ◌^◌, Bool, true, false, ◌&&◌, ◌||◌, Option, none, some, List, [], ◌∷◌, ◌++◌, length, ltb, ◌==◌,
  if◌then◌else◌,
}
use sanctifier.Host.{bind, unwrap_or, u32_bound}
use sanctifier.Tooling.Text.{starts_with, trim, split_first, split_on, parse_unsigned}

pub record SdkVersionInfo : Type 0 where
  pub version : Option String
  pub is_deprecated : Bool
  pub warnings : List String
  pub recommended_version : Option String

abbrev pub unknown : SdkVersionInfo
unknown = record {
  version = none;
  is_deprecated = false;
  warnings = [];
  recommended_version = none;
}

-- What stands between the first two quotes of a line.
abbrev pub quoted : String → Option String
quoted trimmed = bind (split_first b'"' trimmed) λ p. bind (split_first b'"' p.1) λ q. some q.0

-- The loop over the lines.
abbrev pub version_in : List String → Option String
version_in [] = none
version_in (line ∷ lines) =
    let rest = version_in lines in
    let trimmed = trim line in
    if starts_with trimmed "soroban-sdk" || starts_with trimmed "soroban_sdk"
    then elim (quoted trimmed) [ some version ↦ some version | none ↦ rest ]
    else rest

-- A line's own end does not matter, since it is trimmed, and neither does an empty line at the end.
pub extract_soroban_sdk_version : String → Option String
extract_soroban_sdk_version cargo_toml = version_in (split_on b'\n' cargo_toml)

abbrev pub recommended : String
recommended = "21.7.6"

abbrev pub sentence : String → String → String → String → String
sentence version before between after =
    str_append before (str_append version (str_append between (str_append recommended after)))

pub outdated_warnings : String → List String
outdated_warnings version =
    sentence version "Soroban SDK " " is severely outdated. Upgrade to "
      " for security fixes and new features."
    ∷ "Pre-v20 SDKs lack critical security features and are not compatible with current Soroban networks."
    ∷ []

pub deprecated_warnings : String → List String
deprecated_warnings version =
    sentence version "Soroban SDK " " is deprecated. Consider upgrading to "
      " for improved performance and security."
    ∷ "SDK v20 has known issues with storage TTL management and event emission."
    ∷ []

pub early_warnings : String → List String
early_warnings version =
    sentence version "Soroban SDK " " has known issues. Upgrade to " " recommended."
    ∷ "Early v21 releases had bugs in authorization and cross-contract calls."
    ∷ []

pub auth_warnings : String → List String
auth_warnings version =
    if str_eq version "21.0.0" || str_eq version "21.1.0"
    then "This SDK version has a critical bug in require_auth() - upgrade immediately!" ∷ []
    else []

-- `s.parse().unwrap_or(0)` into a `u32`.
abbrev pub number : String → ℕ
number s = unwrap_or (parse_unsigned u32_bound s) 0

abbrev pub info_of : String → Bool → List String → SdkVersionInfo
info_of version is_deprecated warnings = record {
  version = some version;
  is_deprecated = is_deprecated;
  warnings = warnings;
  recommended_version = some recommended;
}

-- On the pieces of the version between its dots.
abbrev pub analyze_parts : String → List String → SdkVersionInfo
analyze_parts version [] = info_of version false []
analyze_parts version (part ∷ []) = info_of version false []
analyze_parts version (first ∷ second ∷ parts) =
    let major = number first in
    let minor = number second in
    let auth = auth_warnings version in
    if ltb major 20
    then info_of version true (outdated_warnings version ++ auth)
    else if major == 20
    then info_of version true (deprecated_warnings version ++ auth)
    else if major == 21 && ltb minor 5
    then info_of version false (early_warnings version ++ auth)
    else info_of version false auth

pub analyze_version : String → SdkVersionInfo
analyze_version version = analyze_parts version (split_on b'.' version)

-- `detect_sdk_version`, on what the file holds.
pub detect_sdk_version : Option String → SdkVersionInfo
detect_sdk_version none = unknown
detect_sdk_version (some content) = elim (extract_soroban_sdk_version content) [
  | none ↦ unknown
  | some v ↦ analyze_version v
]
