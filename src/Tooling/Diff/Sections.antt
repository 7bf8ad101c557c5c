-- ===== src/Tooling/Diff/Sections.antt =====
-- The fingerprints that one comparison of tooling/sanctifier-cli/src/commands/diff.rs looks up.
use Prim.Native.String.{String}
use text.Mathlib.TextEquality.{eq_iff}
use text.Mathlib.TextPositions.{eq_refl}
use sanctifier.Base.{
  ℕ, ◌+◌, ◌≤◌, ◌≡◌, refl, true, ◌||◌, Option, none, some, List, [], ◌∷◌, ◌++◌, length, map,
  if◌then◌else◌, arith, Option-cases, inl, inr,
}
use sanctifier.Host.{is_some}
use sanctifier.Tooling.Json.{
  Value, Fields, object, array, field, end, items-items_of, find, insert, get_array, get_str,
}
use sanctifier.Tooling.Diff.{
  is_new, contains, filter_new, filter_array, array_of, with_findings, new_upgrades_of,
  new_upgrades, sum_findings, upgrade_fp, upgrade_fps_of, named_fp, named_fp?, section_fps, somes,
  auth_gap_fp, auth_gap_fps, upgrade_fps, fingerprint_finding,
}

-- How many of the fingerprints are new.
abbrev pub count_absent : List String → List (Option String) → ℕ
count_absent b [] = 0
count_absent b (o ∷ os) = (if is_new b o then 1 else 0) + count_absent b os

pub count_absent-append :
    (b : List String) (os ps : List (Option String))
    → count_absent b (os ++ ps) ≡ count_absent b os + count_absent b ps
count_absent-append b [] ps = omega arith
count_absent-append b (o ∷ os) ps = omega (arith, count_absent-append b os ps)

contains-append :
    (b c : List String) (fp : String) → contains (b ++ c) fp ≡ (contains b fp || contains c fp)
contains-append [] c fp = refl
contains-append (x ∷ b) c fp = ground (arith, contains-append b c fp)

-- A larger baseline leaves less that is new.
count_absent_le_left :
    (b c : List String) (os : List (Option String)) → count_absent (b ++ c) os ≤ count_absent b os
count_absent_le_left b c [] = omega arith
count_absent_le_left b c (none ∷ os) = omega (arith, count_absent_le_left b c os)
count_absent_le_left b c (some fp ∷ os) =
    ground (arith, count_absent_le_left b c os, contains-append b c fp)

count_absent_le_right :
    (b c : List String) (os : List (Option String)) → count_absent (b ++ c) os ≤ count_absent c os
count_absent_le_right b c [] = omega arith
count_absent_le_right b c (none ∷ os) = omega (arith, count_absent_le_right b c os)
count_absent_le_right b c (some fp ∷ os) =
    ground (arith, count_absent_le_right b c os, contains-append b c fp)

pub both_known :
    (b c : List String) (os ps : List (Option String))
    → count_absent b os ≡ 0
    → count_absent c ps ≡ 0
    → count_absent (b ++ c) (os ++ ps) ≡ 0
both_known b c os ps h k = omega (
  arith,
  count_absent-append (b ++ c) os ps,
  count_absent_le_left b c os,
  count_absent_le_right b c ps,
)

-- The fingerprints of a section, where the comparison finds them.
abbrev pub section_opts : String → (Value → Option String) → Value → List (Option String)
section_opts key fp report = elim (get_array key report) [ none ↦ [] | some arr ↦ map fp arr ]

abbrev pub upgrade_opts_of : List Value → List (Option String)
upgrade_opts_of [] = []
upgrade_opts_of (rpt ∷ rpts) =
    section_opts "findings" (λ v. some (upgrade_fp v)) rpt ++ upgrade_opts_of rpts

abbrev pub upgrade_opts : Value → List (Option String)
upgrade_opts report = elim (get_array "upgrade_reports" report) [
  | none ↦ []
  | some arr ↦ upgrade_opts_of arr
]

length-filter_new :
    (fp : Value → Option String) (b : List String) (vs : List Value)
    → length (filter_new fp b vs) ≡ count_absent b (map fp vs)
length-filter_new fp b [] = refl
length-filter_new fp b (v ∷ vs) = ground (arith, length-filter_new fp b vs)

pub length-filter_array :
    (c : Value) (key : String) (fp : Value → Option String) (b : List String)
    → length (filter_array c key fp b) ≡ count_absent b (section_opts key fp c)
unfolding filter_array
length-filter_array c key fp b = elim (Option-cases (get_array key c)) [
  | inl missing ↦ ground arith
  | inr (arr, found) ↦ ground (arith, length-filter_new fp b arr)
]

find-insert : (k : String) (v : Value) (fs : Fields) → find k (insert k v fs) ≡ some v
find-insert k v end = ground (arith, eq_refl k)
find-insert k v (field j w fs) = ground (arith, eq_refl k, eq_iff j k, find-insert k v fs)

-- A report keeps what is put in place of its findings.
findings-with_findings :
    (vs old : List Value) (rpt : Value)
    → get_array "findings" rpt ≡ some old
    → get_array "findings" (with_findings vs rpt) ≡ some vs
findings-with_findings vs old (object fs) h =
    ground (arith, find-insert "findings" (array_of vs) fs, items-items_of vs)
findings-with_findings vs old Value.null h = absurd (ground arith)
findings-with_findings vs old (Value.bool b) h = absurd (ground arith)
findings-with_findings vs old (Value.number n) h = absurd (ground arith)
findings-with_findings vs old (Value.string t) h = absurd (ground arith)
findings-with_findings vs old (array ws) h = absurd (ground arith)

sum_findings-new_upgrades_of :
    (b : List String) (rpts : List Value)
    → sum_findings (new_upgrades_of b rpts) ≡ count_absent b (upgrade_opts_of rpts)
sum_findings-new_upgrades_of b [] = refl
sum_findings-new_upgrades_of b (rpt ∷ rpts) = elim (Option-cases (get_array "findings" rpt)) [
  | inl missing ↦ ground (arith, sum_findings-new_upgrades_of b rpts)
  | inr (arr, found) ↦
      let fp : Value → Option String = λ v. some (upgrade_fp v) in
      let kept = filter_new fp b arr in
      ground (
        arith,
        sum_findings-new_upgrades_of b rpts,
        length-filter_new fp b arr,
        findings-with_findings kept arr rpt found,
        count_absent-append b (map fp arr) (upgrade_opts_of rpts),
      )
]

pub sum_findings-new_upgrades :
    (b : List String) (c : Value)
    → sum_findings (new_upgrades c b) ≡ count_absent b (upgrade_opts c)
sum_findings-new_upgrades b c = elim (Option-cases (get_array "upgrade_reports" c)) [
  | inl missing ↦ ground arith
  | inr (rpts, found) ↦ ground (arith, sum_findings-new_upgrades_of b rpts)
]

-- The items of a section are known to the fingerprints that the section gives.
map_known :
    (fp : Value → String) (vs : List Value)
    → count_absent (map fp vs) (map (λ v. some (fp v)) vs) ≡ 0
map_known fp [] = refl
map_known fp (v ∷ vs) = ground (
  arith,
  map_known fp vs,
  eq_refl (fp v),
  count_absent_le_right (fp v ∷ []) (map fp vs) (map (λ w. some (fp w)) vs),
)

pub section_known :
    (key : String) (fp : Value → String) (r : Value)
    → count_absent (section_fps key fp r) (section_opts key (λ v. some (fp v)) r) ≡ 0
section_known key fp r = elim (Option-cases (get_array key r)) [
  | inl missing ↦ ground arith
  | inr (arr, found) ↦ ground (arith, map_known fp arr)
]

upgrade_known_of :
    (rpts : List Value) → count_absent (upgrade_fps_of rpts) (upgrade_opts_of rpts) ≡ 0
upgrade_known_of [] = refl
upgrade_known_of (rpt ∷ rpts) =
    both_known (section_fps "findings" upgrade_fp rpt) (upgrade_fps_of rpts)
      (section_opts "findings" (λ v. some (upgrade_fp v)) rpt) (upgrade_opts_of rpts)
      (section_known "findings" upgrade_fp rpt) (upgrade_known_of rpts)

pub upgrade_known : (r : Value) → count_absent (upgrade_fps r) (upgrade_opts r) ≡ 0
upgrade_known r = elim (Option-cases (get_array "upgrade_reports" r)) [
  | inl missing ↦ ground arith
  | inr (rpts, found) ↦ ground (arith, upgrade_known_of rpts)
]

-- Every item has a text under the key.
abbrev pub AllHave : String → List Value → Type 0
AllHave key [] = Unit
AllHave key (v ∷ vs) = (is_some (get_str key v) ≡ true) × AllHave key vs

abbrev pub AllHaveIn : String → Option (List Value) → Type 0
AllHaveIn key none = Unit
AllHaveIn key (some arr) = AllHave key arr

abbrev pub SectionHas : String → String → Value → Type 0
SectionHas section key r = AllHaveIn key (get_array section r)

auth_gap_known_of :
    (vs : List Value)
    → AllHave "function_name" vs
    → count_absent (somes (map auth_gap_fp vs)) (map auth_gap_fp vs) ≡ 0
unfolding auth_gap_fp
auth_gap_known_of [] h = refl
auth_gap_known_of (v ∷ vs) h = elim (Option-cases (get_str "function_name" v)) [
  | inl missing ↦ absurd (ground arith)
  | inr (name, found) ↦
      let fp = fingerprint_finding "auth_gap" name in
      ground (
        arith,
        auth_gap_known_of vs h.1,
        eq_refl fp,
        count_absent_le_right (fp ∷ []) (somes (map auth_gap_fp vs)) (map auth_gap_fp vs),
      )
]

pub auth_gap_known :
    (r : Value)
    → SectionHas "auth_gaps" "function_name" r
    → count_absent (auth_gap_fps r) (section_opts "auth_gaps" auth_gap_fp r) ≡ 0
auth_gap_known r h = elim (Option-cases (get_array "auth_gaps" r)) [
  | inl missing ↦ ground arith
  | inr (arr, found) ↦ ground (arith, auth_gap_known_of arr (rw found at h))
]

named_known_of :
    (category key : String) (vs : List Value)
    → AllHave key vs
    → count_absent (map (named_fp category key) vs) (map (named_fp? category key) vs) ≡ 0
named_known_of category key [] h = refl
named_known_of category key (v ∷ vs) h = elim (Option-cases (get_str key v)) [
  | inl missing ↦ absurd (ground arith)
  | inr (name, found) ↦
      let fp = fingerprint_finding category name in
      ground (
        arith,
        named_known_of category key vs h.1,
        eq_refl fp,
        count_absent_le_right (fp ∷ []) (map (named_fp category key) vs)
            (map (named_fp? category key) vs),
      )
]

pub named_known :
    (section category key : String) (r : Value)
    → SectionHas section key r
    → count_absent
        (section_fps section (named_fp category key) r)
        (section_opts section (named_fp? category key) r)
      ≡ 0
named_known section category key r h = elim (Option-cases (get_array section r)) [
  | inl missing ↦ ground arith
  | inr (arr, found) ↦ ground (arith, named_known_of category key arr (rw found at h))
]
