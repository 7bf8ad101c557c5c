-- ===== src/Tooling/Patcher/Offsets.antt =====
-- The offsets of tooling/sanctifier-core/src/patcher.rs, next to an independent description of a position.
use Prim.Native.Char.{Char, code, len_utf8, len_utf8_def}
use Prim.Native.String.{String}
use sanctifier.Base.{
  ℕ, zero, suc, ◌+◌, ◌<◌, ◌≡◌, refl, sym, ◌∙◌, true, false, Option, none, some, leb, ◌==◌,
  if◌then◌else◌, arith, Bool-cases, Option-cases, inl, inr,
}
use sanctifier.Host.{bind}
use sanctifier.Tooling.Issues.{Patch}
use sanctifier.Tooling.Text.{contains_code}
use sanctifier.Tooling.Patcher.{
  find_column, plus, look, Progress, walk, char_count, nth_or_len, at_end, finish, at_start,
  calculate_offsets,
}

-- The offset of a column within a line: the sum of the lengths of the characters before it, none of which ends the line.
abbrev pub column_offset : ℕ → String → Option ℕ
column_offset zero s = some 0
column_offset (suc n) String.[] = none
column_offset (suc n) (String.◌∷◌ c s) =
    let rest = column_offset n s in if code c == b'\n' then none else plus (len_utf8 c) rest

-- The offset of a column after so many line ends.
abbrev pub line_offset : ℕ → ℕ → String → Option ℕ
line_offset zero column s = column_offset column s
line_offset (suc n) column String.[] = none
line_offset (suc n) column (String.◌∷◌ c s) =
    let next = line_offset n column s in
    let here = line_offset (suc n) column s in
    plus (len_utf8 c) (if code c == b'\n' then next else here)

-- The offset of a line, counted from 1, and a column, counted from 0.
abbrev pub position : ℕ → ℕ → String → Option ℕ
position zero column s = none
position (suc n) column s = line_offset n column s

eq_of_test : (n m : ℕ) → (n == m) ≡ true → n ≡ m
eq_of_test n m h = ground arith

newline_len : (c : Char) → (code c == b'\n') ≡ true → len_utf8 c ≡ 1
newline_len c h = len_utf8_def c ∙ (rw (eq_of_test (code c) b'\n' h) refl)

plus-plus : (a b : ℕ) (o : Option ℕ) → plus a (plus b o) ≡ plus (a + b) o
plus-plus a b none = refl
plus-plus a b (some j) = ground arith

plus_zero : (o : Option ℕ) → plus 0 o ≡ o
plus_zero none = refl
plus_zero (some j) = ground arith

-- One of the two searches, followed through the source: its result at the end of the loop and after it.
abbrev pub search : ℕ → ℕ → ℕ → String → ℕ → ℕ → String → Option ℕ → Option ℕ
search line column i String.[] offset current text o = at_end line column current offset text o
search line column i (String.◌∷◌ c s) offset current text o =
    let found = look line column current offset text o in
    let next = search line column (i + len_utf8 c) s (i + 1) (current + 1) s found in
    let here = search line column (i + len_utf8 c) s offset current text found in
    if code c == b'\n' then next else here

-- The loop is the two searches side by side.
finish-walk :
    (patch : Patch) (i : ℕ) (s : String) (p : Progress)
    → finish patch (walk patch i s p)
      ≡ bind
          (search patch.start_line patch.start_column i s p.current_offset p.current_line
            p.line_text p.start_offset)
          λ a.
            bind
              (search patch.end_line patch.end_column i s p.current_offset p.current_line
                p.line_text p.end_offset)
              λ b. some (a, b)
finish-walk patch i String.[] p = refl
finish-walk patch i (String.◌∷◌ c s) p =
    let start =
      look patch.start_line patch.start_column p.current_line p.current_offset p.line_text
        p.start_offset in
    let end =
      look patch.end_line patch.end_column p.current_line p.current_offset p.line_text
        p.end_offset in
    let next : Progress = record {
      start_offset = start;
      end_offset = end;
      current_offset = i + 1;
      current_line = p.current_line + 1;
      line_text = s;
    } in
    let here : Progress = record p { start_offset = start; end_offset = end } in
    elim (Bool-cases (code c == b'\n')) [
      | inl newline ↦ rw newline (finish-walk patch (i + len_utf8 c) s next)
      | inr other ↦ rw other (finish-walk patch (i + len_utf8 c) s here)
    ]

-- What is found stays.
search_found :
    (line column i : ℕ) (s : String) (offset current : ℕ) (text : String) (o : ℕ)
    → search line column i s offset current text (some o) ≡ some o
search_found line column i String.[] offset current text o = refl
search_found line column i (String.◌∷◌ c s) offset current text o = ground (
  arith,
  search_found line column (i + len_utf8 c) s (i + 1) (current + 1) s o,
  search_found line column (i + len_utf8 c) s offset current text o,
)

-- Past the line nothing is found.
search_past :
    (line column i : ℕ) (s : String) (offset current : ℕ) (text : String)
    → line < current
    → search line column i s offset current text none ≡ none
search_past line column i String.[] offset current text past = ground arith
search_past line column i (String.◌∷◌ c s) offset current text past = ground (
  arith,
  search_past line column (i + len_utf8 c) s (i + 1) (current + 1) s,
  search_past line column (i + len_utf8 c) s offset current text,
)

-- What the loop over a line finds is the offset of the column.
find_column-some :
    (n k j : ℕ) (s : String) (o : ℕ)
    → find_column (k + n) k j s ≡ some o
    → plus j (column_offset n s) ≡ some o
find_column-some n k j String.[] o h = absurd (ground arith)
find_column-some zero k j (String.◌∷◌ c s) o h = ground arith
find_column-some (suc n) k j (String.◌∷◌ c s) o h =
    let step : suc k + n ≡ k + suc n = omega arith in
    let ih : find_column (k + suc n) (suc k) (j + len_utf8 c) s ≡ some o
        → plus (j + len_utf8 c) (column_offset n s) ≡ some o =
      rw (sym step) (find_column-some n (suc k) (j + len_utf8 c) s o) in
    ground (arith, ih, plus-plus j (len_utf8 c) (column_offset n s))

-- Where it finds nothing before a line end, the line has no such column.
find_column-none :
    (n k j : ℕ) (s : String)
    → find_column (k + n) k j s ≡ none
    → contains_code b'\n' s ≡ true
    → column_offset n s ≡ none
find_column-none n k j String.[] h e = absurd (ground arith)
find_column-none zero k j (String.◌∷◌ c s) h e = absurd (ground arith)
find_column-none (suc n) k j (String.◌∷◌ c s) h e =
    let step : suc k + n ≡ k + suc n = omega arith in
    let ih : find_column (k + suc n) (suc k) (j + len_utf8 c) s ≡ none
        → contains_code b'\n' s ≡ true
        → column_offset n s ≡ none =
      rw (sym step) (find_column-none n (suc k) (j + len_utf8 c) s) in
    ground (arith, ih)

-- A last line has the columns up to its end.
column_offset-last :
    (n : ℕ) (s : String)
    → contains_code b'\n' s ≡ false
    → column_offset n s ≡ (if leb n (char_count s) then some (nth_or_len n s) else none)
column_offset-last zero String.[] h = ground arith
column_offset-last zero (String.◌∷◌ c s) h = ground arith
column_offset-last (suc n) String.[] h = ground arith
column_offset-last (suc n) (String.◌∷◌ c s) h = ground (arith, column_offset-last n s)

found-column :
    (n : ℕ) (s : String) (o : ℕ) → find_column n 0 0 s ≡ some o → column_offset n s ≡ some o
found-column n s o h =
    let step : 0 + n ≡ n = omega arith in
    let h0 : find_column (0 + n) 0 0 s ≡ some o = rw step h in
    sym (plus_zero (column_offset n s)) ∙ find_column-some n 0 0 s o h0

missing-column :
    (n : ℕ) (s : String)
    → find_column n 0 0 s ≡ none
    → contains_code b'\n' s ≡ true
    → column_offset n s ≡ none
missing-column n s h k =
    let step : 0 + n ≡ n = omega arith in
    let h0 : find_column (0 + n) 0 0 s ≡ none = rw step h in find_column-none n 0 0 s h0 k

-- On its line a search finds the column.
search_here :
    (line column i : ℕ) (s : String) (offset : ℕ) (text : String)
    → contains_code b'\n' text ≡ contains_code b'\n' s
    → search line column i s offset line text none ≡ plus offset (column_offset column text)
search_here line column i String.[] offset text h = ground (arith, column_offset-last column text h)
search_here line column i (String.◌∷◌ c s) offset text h =
    elim (Option-cases (find_column column 0 0 text)) [
      | inr (o, found) ↦ ground (
        arith,
        found-column column text o found,
        search_found line column (i + len_utf8 c) s (i + 1) (line + 1) s (offset + o),
        search_found line column (i + len_utf8 c) s offset line text (offset + o),
      )
      | inl missing ↦ ground (
        arith,
        missing-column column text missing,
        search_past line column (i + len_utf8 c) s (i + 1) (line + 1) s,
        search_here line column (i + len_utf8 c) s offset text,
      )
    ]

-- Before its line a search goes on to the next line.
search_before :
    (k line column i : ℕ) (s : String) (offset current : ℕ) (text : String)
    → line ≡ current + suc k
    → search line column i s offset current text none ≡ plus i (line_offset (suc k) column s)
search_before k line column i String.[] offset current text h = ground arith
search_before zero line column i (String.◌∷◌ c s) offset current text h =
    let next : current + 1 ≡ line = omega arith in
    let there : search line column (i + len_utf8 c) s (i + 1) (current + 1) s none
        ≡ plus (i + 1) (column_offset column s) =
      rw next (search_here line column (i + len_utf8 c) s (i + 1) s refl) in
    ground (
      arith,
      there,
      newline_len c,
      plus-plus i (len_utf8 c) (column_offset column s),
      plus-plus i (len_utf8 c) (line_offset 1 column s),
      search_before zero line column (i + len_utf8 c) s offset current text h,
    )
search_before (suc k) line column i (String.◌∷◌ c s) offset current text h = ground (
  arith,
  plus-plus i (len_utf8 c) (line_offset (suc k) column s),
  plus-plus i (len_utf8 c) (line_offset (suc (suc k)) column s),
  search_before k line column (i + len_utf8 c) s (i + 1) (current + 1) s (omega arith),
  search_before (suc k) line column (i + len_utf8 c) s offset current text h,
)

search-position :
    (line column : ℕ) (source : String)
    → search line column 0 source 0 1 source none ≡ position line column source
search-position zero column source = search_past 0 column 0 source 0 1 source (omega arith)
search-position (suc zero) column source =
    search_here 1 column 0 source 0 source refl ∙ plus_zero (column_offset column source)
search-position (suc (suc k)) column source =
    search_before k (suc (suc k)) column 0 source 0 1 source (omega arith)
    ∙ plus_zero (line_offset (suc k) column source)

-- The offsets of a patch are the positions of its start and of its end: the lengths in bytes of the lines before the
-- line, counted from 1, and of the characters before the column. A patch whose start or end lies in no line, or beyond
-- the end of its line, has none.
pub offsets-position :
    (source : String) (patch : Patch)
    → calculate_offsets source patch
      ≡ bind
          (position patch.start_line patch.start_column source)
          λ a. bind (position patch.end_line patch.end_column source) λ b. some (a, b)
unfolding calculate_offsets
offsets-position source patch =
    finish-walk patch 0 source (at_start source)
    ∙ rw
        (
          search-position patch.start_line patch.start_column source,
          search-position patch.end_line patch.end_column source,
        )
        refl
