-- ===== src/Tooling/InputValidation.antt =====
-- tooling/sanctifier-core/src/input_validation.rs: the guards before an analysis.
pub mod Accepted
mod Tests
use Prim.Native.String.{String, ◌++◌ as str_append}
use text.Mathlib.Text.{◌==◌ as str_eq}
use sanctifier.Base.{ℕ, ◌*◌, Bool, true, false, List, [], ◌∷◌, ltb, ◌==◌, if◌then◌else◌}
use sanctifier.Base.Results.{Result, ok, err, ◌>>=◌}
use sanctifier.Tooling.Text.{byte_len, contains_code, decimal, split_on}

pub max_source_bytes : ℕ
max_source_bytes = 10 * 1024 * 1024

pub min_source_bytes : ℕ
min_source_bytes = 1

pub record ValidationError : Type 0 where
  pub code : String
  pub message : String

-- `ValidationError` for display.
pub display : ValidationError → String
display e = str_append "[" (str_append e.code (str_append "] " e.message))

abbrev pub refuse : String → String → Result ValidationError (Unit {0})
refuse code message = err record { code = code; message = message }

pub too_large : ℕ → String
unfolding max_source_bytes
too_large len = str_append "Source code is " (
    str_append (decimal len) (
      str_append " bytes; maximum allowed is "
        (str_append (decimal max_source_bytes) " bytes. Split the contract into smaller files.")))

pub validate_source_size : String → Result ValidationError (Unit {0})
validate_source_size source =
    let len = byte_len source in
    if ltb len min_source_bytes
    then refuse "EMPTY_SOURCE" "Source code cannot be empty"
    else if ltb max_source_bytes len
    then refuse "SOURCE_TOO_LARGE" (too_large len)
    else ok tt

pub null_byte : String
null_byte =
    "Source code contains null bytes, which are not valid in Rust source and may indicate a binary file or injection attempt."

pub validate_no_null_bytes : String → Result ValidationError (Unit {0})
validate_no_null_bytes source =
    if contains_code 0 source then refuse "NULL_BYTE_DETECTED" null_byte else ok tt

-- Whether one of the components of a path is `..`: on Unix, components are what stands between slashes.
abbrev pub has_parent_dir : List String → Bool
has_parent_dir [] = false
has_parent_dir (component ∷ components) =
    if str_eq component ".." then true else has_parent_dir components

pub traversal : String → String
traversal path = str_append "Path '" (
    str_append path
      "' contains a parent-directory traversal component ('..'), which is not permitted for workspace file discovery.")

pub validate_path : String → Result ValidationError (Unit {0})
validate_path path =
    if has_parent_dir (split_on b'/' path) then refuse "PATH_TRAVERSAL" (traversal path) else ok tt

pub validate_source_all : String → Result ValidationError (Unit {0})
validate_source_all source = do
  _ ← validate_source_size source
  _ ← validate_no_null_bytes source
  ok tt
