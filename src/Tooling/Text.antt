-- ===== src/Tooling/Text.antt =====
-- What the code under tooling uses of Rust's strings.
use Prim.Native.Char.{code, len_utf8}
use Prim.Native.String.{String, ◌++◌ as str_append}
use text.Mathlib.Text.{◌==◌ as str_eq}
use sanctifier.Base.{
  ℕ, zero, suc, ◌+◌, ◌-◌, ◌*◌, ◌/◌, ◌%◌, Bool, true, false, ◌&&◌, ◌||◌, Option, none, some, List,
  [], ◌∷◌, ltb, leb, ◌==◌, if◌then◌else◌,
}

abbrev pub digit : ℕ → String
digit n =
    if n == 0
    then "0"
    else if n == 1
    then "1"
    else if n == 2
    then "2"
    else if n == 3
    then "3"
    else if n == 4
    then "4"
    else if n == 5
    then "5"
    else if n == 6
    then "6"
    else if n == 7
    then "7"
    else if n == 8
    then "8"
    else "9"

-- `format!("{}", n)`, for a number of at most as many digits as the fuel.
abbrev pub decimal_digits : ℕ → ℕ → String
decimal_digits zero n = ""
decimal_digits (suc fuel) n =
    let front = decimal_digits fuel (n / 10) in
    if ltb n 10 then digit n else str_append front (digit (n % 10))

-- A `usize` has at most twenty digits.
abbrev pub decimal : ℕ → String
decimal n = decimal_digits 20 n

-- `s.len()`
abbrev pub byte_len : String → ℕ
byte_len String.[] = 0
byte_len (String.◌∷◌ c s) = len_utf8 c + byte_len s

-- `s.contains(c)`, for a character by its code.
abbrev pub contains_code : ℕ → String → Bool
contains_code n String.[] = false
contains_code n (String.◌∷◌ c s) = code c == n || contains_code n s

-- `s.split(c)`: the pieces between the separators, which may be empty.
abbrev pub split_on : ℕ → String → List String
split_on n String.[] = "" ∷ []
split_on n (String.◌∷◌ c s) =
    let rest = split_on n s in
    if code c == n
    then "" ∷ rest
    else elim rest [ [] ↦ String.◌∷◌ c "" ∷ [] | piece ∷ pieces ↦ String.◌∷◌ c piece ∷ pieces ]

-- `s.starts_with(prefix)`
abbrev pub starts_with : String → String → Bool
starts_with s String.[] = true
starts_with String.[] (String.◌∷◌ d p) = false
starts_with (String.◌∷◌ c s) (String.◌∷◌ d p) = code c == code d && starts_with s p

-- `char::is_whitespace`
abbrev pub is_whitespace : ℕ → Bool
is_whitespace n =
    (leb 9 n && leb n 13)
    || (leb 8192 n && leb n 8202)
    || n == 32
    || n == 133
    || n == 160
    || n == 5760
    || n == 8232
    || n == 8233
    || n == 8239
    || n == 8287
    || n == 12288

abbrev pub is_empty : String → Bool
is_empty String.[] = true
is_empty (String.◌∷◌ c s) = false

abbrev pub trim_start : String → String
trim_start String.[] = ""
trim_start (String.◌∷◌ c s) = if is_whitespace (code c) then trim_start s else String.◌∷◌ c s

abbrev pub trim_end : String → String
trim_end String.[] = ""
trim_end (String.◌∷◌ c s) =
    let rest = trim_end s in
    if is_empty rest && is_whitespace (code c) then "" else String.◌∷◌ c rest

-- `s.trim()`
abbrev pub trim : String → String
trim s = trim_end (trim_start s)

-- The text before the first such character, and the one after it.
abbrev pub split_first : ℕ → String → Option (String × String)
split_first n String.[] = none
split_first n (String.◌∷◌ c s) =
    let rest = split_first n s in
    if code c == n
    then some ("", s)
    else elim rest [ none ↦ none | some (head, tail) ↦ some (String.◌∷◌ c head, tail) ]

-- The value of a text of ASCII digits.
abbrev pub digits_from : ℕ → String → Option ℕ
digits_from n String.[] = some n
digits_from n (String.◌∷◌ c s) =
    if leb b'0' (code c) && leb (code c) b'9'
    then digits_from (n * 10 + (code c - b'0')) s
    else none

abbrev pub in_range : ℕ → Option ℕ → Option ℕ
in_range bound none = none
in_range bound (some n) = if ltb n bound then some n else none

-- `s.parse::<u32>().ok()`: digits, after a `+` at most, below the bound of the type.
abbrev pub parse_unsigned : ℕ → String → Option ℕ
parse_unsigned bound String.[] = none
parse_unsigned bound (String.◌∷◌ c s) =
    if code c == b'+'
    then (if is_empty s then none else in_range bound (digits_from 0 s))
    else in_range bound (digits_from 0 (String.◌∷◌ c s))

-- `s.ends_with(suffix)`
abbrev pub ends_with : String → String → Bool
ends_with String.[] p = is_empty p
ends_with (String.◌∷◌ c s) p = str_eq (String.◌∷◌ c s) p || ends_with s p

-- `s.contains(t)`
abbrev pub contains_text : String → String → Bool
contains_text String.[] p = is_empty p
contains_text (String.◌∷◌ c s) p = starts_with (String.◌∷◌ c s) p || contains_text s p

-- `s.trim_matches(c)`
abbrev pub trim_matches_start : ℕ → String → String
trim_matches_start n String.[] = ""
trim_matches_start n (String.◌∷◌ c s) =
    if code c == n then trim_matches_start n s else String.◌∷◌ c s

abbrev pub trim_matches_end : ℕ → String → String
trim_matches_end n String.[] = ""
trim_matches_end n (String.◌∷◌ c s) =
    let rest = trim_matches_end n s in
    if is_empty rest && code c == n then "" else String.◌∷◌ c rest

abbrev pub trim_matches : ℕ → String → String
trim_matches n s = trim_matches_end n (trim_matches_start n s)

-- `s.lines()`, of the pieces between the line feeds: a carriage return before a line feed goes with it,
-- and no line follows the last line feed.
abbrev pub strip_return : String → String
strip_return String.[] = ""
strip_return (String.◌∷◌ c s) =
    let rest = strip_return s in if is_empty s && code c == b'\r' then "" else String.◌∷◌ c rest

abbrev pub lines_of : List String → List String
lines_of [] = []
lines_of (piece ∷ []) = if is_empty piece then [] else piece ∷ []
lines_of (piece ∷ next ∷ pieces) = let rest = lines_of (next ∷ pieces) in strip_return piece ∷ rest

abbrev pub lines : String → List String
lines s = lines_of (split_on b'\n' s)
