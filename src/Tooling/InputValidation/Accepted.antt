-- ===== src/Tooling/InputValidation/Accepted.antt =====
-- What the guards of tooling/sanctifier-core/src/input_validation.rs let pass.
use Prim.Native.String.{String}
use sanctifier.Base.{◌≤◌, ◌≡◌, ◌↔◌, false, arith, inl, inr}
use sanctifier.Base.Results.{Result, ok, err, result_cases}
use sanctifier.Tooling.Text.{byte_len, contains_code, split_on}
use sanctifier.Tooling.InputValidation.{
  ValidationError, validate_source_size, validate_no_null_bytes, validate_source_all, validate_path,
  has_parent_dir, max_source_bytes, min_source_bytes,
}

-- The name of the first guard that refuses.
abbrev pub refusal : Result ValidationError (Unit {0}) → String
refusal (ok u) = ""
refusal (err e) = e.code

size_iff :
    (source : String)
    → (validate_source_size source ≡ ok tt) ↔ ((1 ≤ byte_len source) × (byte_len source ≤ 10485760))
unfolding validate_source_size min_source_bytes max_source_bytes
size_iff source = (λ h. ground arith, λ h. ground (arith, h))

-- A source passes all guards exactly when it has between 1 byte and 10 MiB and no null character.
pub validate_source_all_iff :
    (source : String)
    → (validate_source_all source ≡ ok tt)
      ↔ ((1 ≤ byte_len source) × (byte_len source ≤ 10485760) × (contains_code 0 source ≡ false))
unfolding validate_source_all validate_no_null_bytes
validate_source_all_iff source = elim (result_cases (validate_source_size source)) [
  | inl (u, fits) ↦
      let b = (size_iff source).0 fits in (λ h. (b.0, b.1, ground arith), λ h. ground arith)
  | inr (e, refused) ↦
      (λ h. absurd (ground arith), λ h. absurd (ground (arith, (size_iff source).1 (h.0, h.1))))
]

-- A path is let pass exactly when none of the pieces between its slashes is `..`.
pub validate_path_iff :
    (path : String) → (validate_path path ≡ ok tt) ↔ (has_parent_dir (split_on b'/' path) ≡ false)
unfolding validate_path
validate_path_iff path = (λ h. ground arith, λ h. ground arith)
