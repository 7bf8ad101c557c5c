-- ===== src/Tooling/SdkVersion/Tests.antt =====
-- Runs of tooling/sanctifier-core/src/sdk_version.rs at concrete inputs, and the theorem at such inputs.
use sanctifier.Base.{◌≡◌, refl, true, some, []}
use sanctifier.Tooling.SdkVersion.{
  extract_soroban_sdk_version, analyze_version, detect_sdk_version, outdated_warnings,
  deprecated_warnings, early_warnings, auth_warnings,
}

program : Unit {0}
unfolding extract_soroban_sdk_version analyze_version detect_sdk_version outdated_warnings
    deprecated_warnings early_warnings auth_warnings
program = tt

test_extract :
    (extract_soroban_sdk_version "\n[dependencies]\nsoroban-sdk = \"21.7.6\"\n" ≡ some "21.7.6")
    × (extract_soroban_sdk_version "soroban-sdk = { path = \"../sdk\", version = \"21.7.6\" }"
        ≡ some "../sdk")
unfolding program
test_extract = (refl, refl)

test_current : (analyze_version "21.7.6").warnings ≡ []
unfolding program
test_current = refl

-- A requirement with a caret is no number, so it counts as old.
test_caret : (analyze_version "^21.7").is_deprecated ≡ true
unfolding program
test_caret = refl
