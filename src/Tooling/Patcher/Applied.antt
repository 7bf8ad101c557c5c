-- ===== src/Tooling/Patcher/Applied.antt =====
-- What the application of a patch by tooling/sanctifier-core/src/patcher.rs leaves as it was.
use Prim.Native.Nat.{compare, Ordering}
use Prim.Native.Char.{Char, code, len_utf8, len_utf8_def, width}
use Prim.Native.String.append
use Prim.Native.String.{String, ◌++◌ as str_append}
use sanctifier.Base.{
  ℕ, zero, suc, ◌+◌, ◌-◌, ◌≤◌, ◌≡◌, refl, sym, ap, ◌∙◌, true, false, none, some, ltb, ◌==◌,
  if◌then◌else◌, arith, Option-cases, inl, inr,
}
use sanctifier.Host.{is_some}
use sanctifier.Tooling.Issues.{Patch}
use sanctifier.Tooling.Text.{byte_len}
use sanctifier.Tooling.Patcher.{calculate_offsets, split_at, replace_range, apply_one}
use sanctifier.Tooling.Patcher.Offsets.{column_offset, line_offset, position, offsets-position}

width_pos : (a b c : Ordering) → 1 ≤ width a b c
width_pos Ordering.lt b c = omega arith
width_pos Ordering.eq Ordering.lt c = omega arith
width_pos Ordering.eq Ordering.eq c = ground arith
width_pos Ordering.eq Ordering.gt c = ground arith
width_pos Ordering.gt Ordering.lt c = omega arith
width_pos Ordering.gt Ordering.eq c = ground arith
width_pos Ordering.gt Ordering.gt c = ground arith

pub len_utf8_pos : (c : Char) → 1 ≤ len_utf8 c
len_utf8_pos c =
    let w : 1 ≤ width (compare (code c) 128) (compare (code c) 2048) (compare (code c) 65536) =
      width_pos _ _ _ in
    rw (len_utf8_def c) w

none_not_some : {A : Type 0} {a : A} → none ≡ some a → ⊥
none_not_some h = ground arith

-- A split gives back the text, and its first part has the length.
split_at_lem :
    (n : ℕ) (s head tail : String)
    → split_at n s ≡ some (head, tail)
    → (str_append head tail ≡ s) × (byte_len head ≡ n)
split_at_lem zero s head tail h =
    let eh : head ≡ "" = ground arith in
    let et : tail ≡ s = ground arith in rw (eh, et) (append.nil s, refl)
split_at_lem (suc n) String.[] head tail h = absurd (ground arith)
split_at_lem (suc n) (String.◌∷◌ c s) head tail h =
    elim (Option-cases (split_at (suc n - len_utf8 c) s)) [
      | inl missing ↦ absurd (ground arith)
      | inr (parts, found) ↦
          let eh : head ≡ String.◌∷◌ c parts.0 = ground arith in
          let et : tail ≡ parts.1 = ground arith in
          let ih = split_at_lem (suc n - len_utf8 c) s parts.0 parts.1 found in
          let fits : len_utf8 c ≤ suc n = ground arith in
          rw (eh, et) (append.cons c parts.0 parts.1 ∙ ap (String.◌∷◌ c) ih.0, omega (arith, ih.1))
    ]

column_pos : (n m : ℕ) (s : String) → column_offset (suc n) s ≡ some m → 1 ≤ m
column_pos n m String.[] h = absurd (ground arith)
column_pos n m (String.◌∷◌ c s) h = ground (arith, len_utf8_pos c)

line_pos : (k n m : ℕ) (s : String) → line_offset (suc k) n s ≡ some m → 1 ≤ m
line_pos k n m String.[] h = absurd (ground arith)
line_pos k n m (String.◌∷◌ c s) h = ground (arith, len_utf8_pos c)

-- A column after the first character is one of the rest.
column_cons :
    (n m : ℕ) (c : Char) (s : String)
    → column_offset (suc n) (String.◌∷◌ c s) ≡ some m
    → (j : ℕ) × (column_offset n s ≡ some j) × (m ≡ len_utf8 c + j) × ((code c == b'\n') ≡ false)
column_cons n m c s h = elim (Option-cases (column_offset n s)) [
  | inl missing ↦ absurd (ground arith)
  | inr (j, found) ↦ (j, found, ground arith, ground arith)
]

-- What a text starts with decides the columns and the lines that end within it.
column_offset-prefix :
    (n m : ℕ) (head s t : String)
    → column_offset n (str_append head s) ≡ some m
    → m ≤ byte_len head
    → column_offset n (str_append head t) ≡ some m
column_offset-prefix zero m head s t h le = ground arith
column_offset-prefix (suc n) m String.[] s t h le =
    absurd (omega (arith, column_pos n m (str_append "" s) h))
column_offset-prefix (suc n) m (String.◌∷◌ c head) s t h le =
    let h1 : column_offset (suc n) (String.◌∷◌ c (str_append head s)) ≡ some m =
      rw (append.cons c head s) at h in
    let (j, found, sum, other) = column_cons n m c (str_append head s) h1 in
    let ih = column_offset-prefix n j head s t found (omega arith) in
    rw (append.cons c head t) (ground (arith, ih))

line_cons :
    (k n m : ℕ) (c : Char) (s : String)
    → line_offset (suc k) n (String.◌∷◌ c s) ≡ some m
    → (j : ℕ) × ((if code c == b'\n' then line_offset k n s else line_offset (suc k) n s) ≡ some j)
      × (m ≡ len_utf8 c + j)
line_cons k n m c s h =
    elim (Option-cases (if code c == b'\n' then line_offset k n s else line_offset (suc k) n s)) [
      | inl missing ↦ absurd (ground arith)
      | inr (j, found) ↦ (j, found, ground arith)
    ]

line_offset-prefix :
    (k n m : ℕ) (head s t : String)
    → line_offset k n (str_append head s) ≡ some m
    → m ≤ byte_len head
    → line_offset k n (str_append head t) ≡ some m
line_offset-prefix zero n m head s t h le = column_offset-prefix n m head s t h le
line_offset-prefix (suc k) n m String.[] s t h le =
    absurd (omega (arith, line_pos k n m (str_append "" s) h))
line_offset-prefix (suc k) n m (String.◌∷◌ c head) s t h le =
    let h1 : line_offset (suc k) n (String.◌∷◌ c (str_append head s)) ≡ some m =
      rw (append.cons c head s) at h in
    let (j, found, sum) = line_cons k n m c (str_append head s) h1 in
    rw (append.cons c head t)
      (ground (arith, line_offset-prefix k n j head s t, line_offset-prefix (suc k) n j head s t))

pub position-prefix :
    (l n m : ℕ) (head s t : String)
    → position l n (str_append head s) ≡ some m
    → m ≤ byte_len head
    → position l n (str_append head t) ≡ some m
position-prefix zero n m head s t h le = absurd (none_not_some h)
position-prefix (suc k) n m head s t h le = line_offset-prefix k n m head s t h le

-- A text can be split wherever a position lies.
split_cons :
    (j : ℕ) (c : Char) (s : String)
    → is_some (split_at j s) ≡ true
    → is_some (split_at (len_utf8 c + j) (String.◌∷◌ c s)) ≡ true
split_cons j c s h =
    let r = len_utf8 c + j - 1 in
    let e : len_utf8 c + j ≡ suc r = omega (arith, len_utf8_pos c) in
    let back : suc r - len_utf8 c ≡ j = omega (arith, len_utf8_pos c) in
    let fits : ltb (suc r) (len_utf8 c) ≡ false = ground (arith, e) in
    elim (Option-cases (split_at j s)) [
      | inl missing ↦ absurd (ground arith)
      | inr (parts, found) ↦ rw (e, back, found, fits) refl
    ]

column-split : (n m : ℕ) (s : String) → column_offset n s ≡ some m → is_some (split_at m s) ≡ true
column-split zero m s h = let e : m ≡ 0 = ground arith in rw e refl
column-split (suc n) m String.[] h = absurd (none_not_some h)
column-split (suc n) m (String.◌∷◌ c s) h =
    let (j, found, sum, other) = column_cons n m c s h in
    rw sum (split_cons j c s (column-split n j s found))

line-split : (k n m : ℕ) (s : String) → line_offset k n s ≡ some m → is_some (split_at m s) ≡ true
line-split zero n m s h = column-split n m s h
line-split (suc k) n m String.[] h = absurd (none_not_some h)
line-split (suc k) n m (String.◌∷◌ c s) h =
    let (j, found, sum) = line_cons k n m c s h in
    rw sum (split_cons j c s (ground (arith, line-split k n j s, line-split (suc k) n j s)))

position-split : (l n m : ℕ) (s : String) → position l n s ≡ some m → is_some (split_at m s) ≡ true
position-split zero n m s h = absurd (none_not_some h)
position-split (suc k) n m s h = line-split k n m s h

-- The offsets of a patch are the positions of its two ends.
pub ends :
    (source : String) (p : Patch) (a b : ℕ)
    → calculate_offsets source p ≡ some (a, b)
    → (position p.start_line p.start_column source ≡ some a)
      × (position p.end_line p.end_column source ≡ some b)
ends source p a b h =
    let e = sym (offsets-position source p) ∙ h in
    elim (Option-cases (position p.start_line p.start_column source)) [
      | inl missing ↦ absurd (ground arith)
      | inr (x, found) ↦ elim (Option-cases (position p.end_line p.end_column source)) [
        | inl missing ↦ absurd (ground arith)
        | inr (y, found') ↦ (ground arith, ground arith)
      ]
    ]

-- A patch whose start is not after its end is applied without a panic: what stands before its start and what stands
-- after its end is kept, and the replacement stands between.
pub apply_one-parts :
    (source : String) (p : Patch) (a b : ℕ)
    → calculate_offsets source p ≡ some (a, b)
    → a ≤ b
    → (before : String) × (rest : String) × (removed : String) × (after : String) × (apply_one p
          source
        ≡ some (str_append before (str_append p.replacement after)))
      × (str_append before rest ≡ source)
      × (byte_len before ≡ a)
      × (str_append removed after ≡ source)
      × (byte_len removed ≡ b)
unfolding replace_range
apply_one-parts source p a b h le =
    let e = ends source p a b h in
    elim (Option-cases (split_at a source)) [
      | inl missing ↦
          absurd (ground (arith, position-split p.start_line p.start_column a source e.0))
      | inr (x, fx) ↦ elim (Option-cases (split_at b source)) [
        | inl missing ↦ absurd (ground (arith, position-split p.end_line p.end_column b source e.1))
        | inr (y, fy) ↦
            let sx = split_at_lem a source x.0 x.1 fx in
            let sy = split_at_lem b source y.0 y.1 fy in
            let order : ltb b a ≡ false = ground arith in
            (x.0, x.1, y.0, y.1, rw (h, order, fx, fy) refl, sx.0, sx.1, sy.0, sy.1)
      ]
    ]
