-- ===== src/Tooling/Patcher.antt =====
-- tooling/sanctifier-core/src/patcher.rs: the byte offsets of a patch, and the application of patches.
pub mod Offsets
pub mod Applied
pub mod Order
mod Tests
use Prim.Native.Char.{Char, code, len_utf8}
use Prim.Native.String.{String, ◌++◌ as str_append}
use sanctifier.Base.{
  ℕ, zero, suc, ◌+◌, ◌-◌, Bool, true, false, not, ◌&&◌, ◌||◌, Option, none, some, List, [], ◌∷◌,
  ltb, leb, ◌==◌, if◌then◌else◌,
}
use sanctifier.Host.{bind, is_some}
use sanctifier.Tooling.Issues.{Patch}
use sanctifier.Tooling.Text.{byte_len}

-- The loop over the characters of a line: the offset `j` of the one at the column, if the line reaches it.
abbrev pub find_column : ℕ → ℕ → ℕ → String → Option ℕ
find_column column col_counter j String.[] = none
find_column column col_counter j (String.◌∷◌ c s) =
    let rest = find_column column (suc col_counter) (j + len_utf8 c) s in
    if col_counter == column then some j else if code c == b'\n' then none else rest

abbrev pub plus : ℕ → Option ℕ → Option ℕ
plus n none = none
plus n (some j) = some (n + j)

-- One of the two searches at one character: `line_text` is `&source[current_offset..]`.
abbrev pub look : ℕ → ℕ → ℕ → ℕ → String → Option ℕ → Option ℕ
look line column current_line current_offset line_text (some o) = some o
look line column current_line current_offset line_text none =
    if current_line == line then plus current_offset (find_column column 0 0 line_text) else none

-- What the loop over the source changes.
pub record Progress : Type 0 where
  pub start_offset : Option ℕ
  pub end_offset : Option ℕ
  pub current_offset : ℕ
  pub current_line : ℕ
  pub line_text : String

-- The loop over the source, from the character at offset `i`.
abbrev pub walk : Patch → ℕ → String → Progress → Progress
walk patch i String.[] p = p
walk patch i (String.◌∷◌ c s) p =
    let start =
      look patch.start_line patch.start_column p.current_line p.current_offset p.line_text
        p.start_offset in
    let end =
      look patch.end_line patch.end_column p.current_line p.current_offset p.line_text
        p.end_offset in
    let next = walk patch (i + len_utf8 c) s record {
      start_offset = start;
      end_offset = end;
      current_offset = i + 1;
      current_line = p.current_line + 1;
      line_text = s;
    } in
    let here = walk patch (i + len_utf8 c) s record p { start_offset = start; end_offset = end } in
    if code c == b'\n' then next else here

-- `text.chars().count()`
abbrev pub char_count : String → ℕ
char_count String.[] = 0
char_count (String.◌∷◌ c s) = suc (char_count s)

-- `text.char_indices().nth(n).map(|(i, _)| i).unwrap_or(text.len())`
abbrev pub nth_or_len : ℕ → String → ℕ
nth_or_len n String.[] = 0
nth_or_len zero (String.◌∷◌ c s) = 0
nth_or_len (suc n) (String.◌∷◌ c s) = len_utf8 c + nth_or_len n s

-- The end of file case of one of the two searches.
abbrev pub at_end : ℕ → ℕ → ℕ → ℕ → String → Option ℕ → Option ℕ
at_end line column current_line current_offset line_text (some o) = some o
at_end line column current_line current_offset line_text none =
    if current_line == line && leb column (char_count line_text)
    then some (current_offset + nth_or_len column line_text)
    else none

abbrev pub finish : Patch → Progress → Option (ℕ × ℕ)
finish patch p =
    let start =
      at_end patch.start_line patch.start_column p.current_line p.current_offset p.line_text
        p.start_offset in
    let end =
      at_end patch.end_line patch.end_column p.current_line p.current_offset p.line_text
        p.end_offset in
    bind start λ s. bind end λ e. some (s, e)

abbrev pub at_start : String → Progress
at_start source = record {
  start_offset = none;
  end_offset = none;
  current_offset = 0;
  current_line = 1;
  line_text = source;
}

pub calculate_offsets : String → Patch → Option (ℕ × ℕ)
calculate_offsets source patch = finish patch (walk patch 0 source (at_start source))

-- A character before a split of the rest, unless the offset lies within the character.
abbrev pub cut : Char → Bool → Option (String × String) → Option (String × String)
cut c within none = none
cut c true (some p) = none
cut c false (some p) = some (String.◌∷◌ c p.0, p.1)

-- The text before a byte offset and the one after it; `none` is a panic, off a character's bounds or out of range.
abbrev pub split_at : ℕ → String → Option (String × String)
split_at zero s = some ("", s)
split_at (suc n) String.[] = none
split_at (suc n) (String.◌∷◌ c s) =
    cut c (ltb (suc n) (len_utf8 c)) (split_at (suc n - len_utf8 c) s)

-- `text.replace_range(start..end, replacement)`
pub replace_range : ℕ → ℕ → String → String → Option String
replace_range start end replacement text =
    if ltb end start
    then none
    else bind (split_at start text)
        λ p. bind (split_at end text) λ q. some (str_append p.0 (str_append replacement q.1))

-- Whether `a` comes strictly before `b` in the order of application: the patches from the end of the text to its start.
abbrev pub applies_before : Patch → Patch → Bool
applies_before a b =
    if a.start_line == b.start_line
    then ltb b.start_column a.start_column
    else ltb b.start_line a.start_line

-- A stable sort.
abbrev pub insert_patch : Patch → List Patch → List Patch
insert_patch p [] = p ∷ []
insert_patch p (q ∷ qs) =
    let rest = insert_patch p qs in if applies_before q p then q ∷ rest else p ∷ q ∷ qs

abbrev pub sort_patches : List Patch → List Patch
sort_patches [] = []
sort_patches (p ∷ ps) = insert_patch p (sort_patches ps)

-- The loop over the sorted patches: a patch without offsets is left out.
abbrev pub apply_at : Patch → String → Option (ℕ × ℕ) → Option String
apply_at patch result none = some result
apply_at patch result (some (s, e)) = replace_range s e patch.replacement result

abbrev pub apply_one : Patch → String → Option String
apply_one patch result = apply_at patch result (calculate_offsets result patch)

abbrev pub apply_sorted : List Patch → String → Option String
apply_sorted [] result = some result
apply_sorted (p ∷ ps) result = bind (apply_one p result) λ r. apply_sorted ps r

pub apply_patches : String → List Patch → Option String
apply_patches source [] = some source
apply_patches source (p ∷ ps) = apply_sorted (sort_patches (p ∷ ps)) source
