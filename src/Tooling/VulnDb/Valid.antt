-- ===== src/Tooling/VulnDb/Valid.antt =====
-- What the databases that tooling/sanctifier-cli/src/vulndb.rs lets pass are like.
use sanctifier.Base.{
  ℕ, suc, ◌≡◌, ◌≢◌, refl, Bool, true, false, not, ◌&&◌, List, [], ◌∷◌, ◌++◌, map, arith,
  if◌then◌else◌,
}
use sanctifier.Base.Results.{Result, ok, err}
use sanctifier.Tooling.Text.{trim}
use sanctifier.Tooling.VulnDb.{
  VulnEntry, VulnDatabase, Error, Regex, ascii_lowercase, has_key, is_id, allowed_severities,
  is_blank, error_if, severity_errors, id_errors, field_errors, id_key, name_key, signature,
  entry_errors, bail_on, validate_entries, validate,
}

-- None of the keys is one of those seen, and no two are the same.
abbrev pub IsFresh : List (List ℕ) → List (List ℕ) → Type 0
IsFresh seen [] = Unit
IsFresh seen (k ∷ ks) = (has_key k seen ≡ false) × IsFresh (k ∷ seen) ks

-- An entry's own texts.
abbrev pub IsEntry : Regex → VulnEntry → Type 0
IsEntry re v =
    (is_id (trim v.id) ≡ true)
    × (is_blank v.name ≡ false)
    × (is_blank v.description ≡ false)
    × (is_blank v.recommendation ≡ false)
    × (has_key (ascii_lowercase (trim v.severity)) allowed_severities ≡ true)
    × (is_blank v.category ≡ false)
    × (is_blank v.pattern ≡ false)
    × (re.is_pattern v.pattern ≡ true)

abbrev pub AllEntries : Regex → List VulnEntry → Type 0
AllEntries re [] = Unit
AllEntries re (v ∷ vs) = IsEntry re v × AllEntries re vs

append_nil : {A : Type 0} (xs ys : List A) → xs ++ ys ≡ [] → (xs ≡ []) × (ys ≡ [])
append_nil [] ys h = (refl, h)
append_nil (x ∷ xs) ys h = absurd (ground arith)

error_if_nil : (b : Bool) (e : Error) → error_if b e ≡ [] → b ≡ false
error_if_nil true e h = absurd (ground arith)
error_if_nil false e h = refl

-- No error for an empty text, and none for a text that fails its test.
checked_nil :
    (blank good : Bool) (e f : Error)
    → (if blank then e ∷ [] else error_if (not good) f) ≡ []
    → (blank ≡ false) × (good ≡ true)
checked_nil true good e f h = absurd (ground arith)
checked_nil false true e f h = (refl, refl)
checked_nil false false e f h = absurd (ground arith)

field_errors-IsEntry :
    (re : Regex) (i : ℕ) (v : VulnEntry) → field_errors re i v ≡ [] → IsEntry re v
unfolding field_errors
field_errors-IsEntry re i v h =
    let a = append_nil (id_errors i v) _ h in
    let b = append_nil (error_if (is_blank v.name) (Error.empty_name i)) _ a.1 in
    let c =
      append_nil (error_if (is_blank v.description) (Error.empty_entry_description i)) _ b.1 in
    let d =
      append_nil (error_if (is_blank v.recommendation) (Error.empty_recommendation i)) _ c.1 in
    let e = append_nil (severity_errors i v) _ d.1 in
    let f = append_nil (error_if (is_blank v.category) (Error.empty_category i)) _ e.1 in
    let severity =
      checked_nil (is_blank v.severity)
        (has_key (ascii_lowercase (trim v.severity)) allowed_severities) _ _ e.0 in
    let pattern = checked_nil (is_blank v.pattern) (re.is_pattern v.pattern) _ _ f.1 in
    (
      (checked_nil (is_blank v.id) (is_id (trim v.id)) _ _ a.0).1,
      error_if_nil _ _ b.0,
      error_if_nil _ _ c.0,
      error_if_nil _ _ d.0,
      severity.1,
      error_if_nil _ _ f.0,
      pattern.0,
      pattern.1,
    )

-- What holds of the entries that the loop lets pass, with the keys that it has seen.
abbrev pub AllGood : Regex → List (List ℕ) → List (List ℕ) → List (List ℕ) → List VulnEntry → Type 0
AllGood re ids names signatures vs =
    AllEntries re vs
    × IsFresh ids (map id_key vs)
    × IsFresh names (map name_key vs)
    × IsFresh signatures (map signature vs)

kept :
    (blank seen : Bool) (e : Error)
    → blank ≡ false
    → error_if (not blank && seen) e ≡ []
    → seen ≡ false
kept blank seen e b h = ground arith

entry_errors-AllGood :
    (re : Regex) (i : ℕ) (ids names signatures : List (List ℕ)) (vs : List VulnEntry)
    → entry_errors re i ids names signatures vs ≡ []
    → AllGood re ids names signatures vs
unfolding entry_errors
entry_errors-AllGood re i ids names signatures [] h = (tt, tt, tt, tt)
entry_errors-AllGood re i ids names signatures (v ∷ vs) h =
    let a = append_nil (field_errors re i v) _ h in
    let b = append_nil (error_if (has_key (id_key v) ids) (Error.duplicate_id i)) _ a.1 in
    let c =
      append_nil
        (error_if (not (is_blank v.name) && has_key (name_key v) names) (Error.duplicate_name i)) _
        b.1 in
    let d =
      append_nil
        (error_if (not (is_blank v.pattern) && has_key (signature v) signatures)
          (Error.overlapping_signature i))
        _ c.1 in
    let entry : IsEntry re v = field_errors-IsEntry re i v a.0 in
    let rest : AllGood re (id_key v ∷ ids) (name_key v ∷ names) (signature v ∷ signatures) vs =
      entry_errors-AllGood re (suc i) (id_key v ∷ ids) (name_key v ∷ names)
        (signature v ∷ signatures) vs (rw (entry.1, entry.6) at d.1) in
    (
      (entry, rest.0),
      (error_if_nil _ _ b.0, rest.1),
      (kept (is_blank v.name) _ _ entry.1 c.0, rest.2),
      (kept (is_blank v.pattern) _ _ entry.6 d.0, rest.3),
    )

bail_on_ok : (es : List Error) → bail_on es ≡ ok tt → es ≡ []
bail_on_ok [] h = refl
bail_on_ok (e ∷ es) h = absurd (ground arith)

header_ok :
    (a b c : Bool) (e f g : List Error) (m : Result (List Error) (Unit {0}))
    → (if a then err e else if b then err f else if c then err g else m) ≡ ok tt
    → (a ≡ false) × (b ≡ false) × (c ≡ false) × (m ≡ ok tt)
header_ok a b c e f g m h = ground arith

entries_ok :
    (re : Regex) (vs : List VulnEntry)
    → validate_entries re vs ≡ ok tt
    → (vs ≢ []) × AllGood re [] [] [] vs
entries_ok re [] h = absurd (ground arith)
entries_ok re (v ∷ vs) h = (
  λ e. ground arith,
  entry_errors-AllGood re 0 [] [] [] (v ∷ vs) (bail_on_ok (entry_errors re 0 [] [] [] (v ∷ vs)) h),
)

-- A database that passes validation has a version, a date, a description and an entry. Each of its entries has a
-- well-formed identifier, a known severity, a valid pattern and no empty text, and no two have the same identifier,
-- the same name, up to ASCII case and outer blanks, or the same category, severity and pattern.
pub validate-AllGood :
    (re : Regex) (db : VulnDatabase)
    → validate re db ≡ ok tt
    → (is_blank db.version ≡ false)
      × (is_blank db.last_updated ≡ false)
      × (is_blank db.description ≡ false)
      × (db.vulnerabilities ≢ [])
      × AllGood re [] [] [] db.vulnerabilities
unfolding validate
validate-AllGood re db h =
    let c =
      header_ok (is_blank db.version) (is_blank db.last_updated) (is_blank db.description) _ _ _ _
        h in
    let e = entries_ok re db.vulnerabilities c.3 in (c.0, c.1, c.2, e.0, e.1)
