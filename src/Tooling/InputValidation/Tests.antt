-- ===== src/Tooling/InputValidation/Tests.antt =====
-- Runs of tooling/sanctifier-core/src/input_validation.rs at concrete inputs.
use sanctifier.Base.{◌≡◌, refl}
use sanctifier.Base.Results.{ok}
use sanctifier.Tooling.InputValidation.{
  min_source_bytes, max_source_bytes, too_large, null_byte, traversal, validate_source_size,
  validate_no_null_bytes, validate_path, validate_source_all, display,
}
use sanctifier.Tooling.InputValidation.Accepted.{refusal}

program : Unit {0}
unfolding min_source_bytes max_source_bytes too_large null_byte traversal validate_source_size
    validate_no_null_bytes validate_path validate_source_all display
program = tt

test_source :
    (validate_source_all "fn main() {}" ≡ ok tt)
    × (refusal (validate_source_all "") ≡ "EMPTY_SOURCE")
unfolding program
test_source = (refl, refl)

test_path :
    (refusal (validate_path "../../etc/passwd") ≡ "PATH_TRAVERSAL")
    × (validate_path "./src/lib.rs" ≡ ok tt)
    × (validate_path "a..b/c" ≡ ok tt)
unfolding program
test_path = (refl, refl, refl)
