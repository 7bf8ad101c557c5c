-- ===== src/Tooling/VulnDb/Matches.antt =====
-- Where the matches of tooling/sanctifier-cli/src/vulndb.rs lie in the source.
use Prim.Native.String.append
use Prim.Native.String.{String, ◌++◌ as str_append}
use sanctifier.Base.{◌+◌, ◌≤◌, ◌≡◌, refl, ap, List, [], ◌∷◌, ◌++◌, arith, Bool-cases, inl, inr}
use sanctifier.Tooling.Issues.{VulnMatch}
use sanctifier.Tooling.VulnDb.{
  VulnEntry, VulnDatabase, Regex, newlines, matches_of, scan_entries, scan,
}

-- The three parts of a match make up the source.
abbrev pub AllParts : String → List (String × String × String) → Type 0
AllParts source [] = Unit
AllParts source ((before, text, after) ∷ ms) =
    (str_append before (str_append text after) ≡ source) × AllParts source ms

-- Each match is on a line of the source, and names the file.
abbrev pub AllOnLines : String → String → List VulnMatch → Type 0
AllOnLines source file [] = Unit
AllOnLines source file (m ∷ ms) =
    (1 ≤ m.line) × (m.line ≤ newlines source + 1) × (m.file ≡ file) × AllOnLines source file ms

newlines-append : (s t : String) → newlines (str_append s t) ≡ newlines s + newlines t
newlines-append String.[] t = rw (append.nil t) (omega arith)
newlines-append (String.◌∷◌ c s) t = rw (append.cons c s t) (ground (arith, newlines-append s t))

AllOnLines-append :
    (source file : String) (ms ns : List VulnMatch)
    → AllOnLines source file ms
    → AllOnLines source file ns
    → AllOnLines source file (ms ++ ns)
AllOnLines-append source file [] ns h k = k
AllOnLines-append source file (m ∷ ms) ns h k =
    (h.0, h.1, h.2, AllOnLines-append source file ms ns h.3 k)

matches_of-AllOnLines :
    (v : VulnEntry) (source file : String) (ms : List (String × String × String))
    → AllParts source ms
    → AllOnLines source file (matches_of v file ms)
matches_of-AllOnLines v source file [] h = tt
matches_of-AllOnLines v source file ((before, text, after) ∷ ms) h =
    let n = ap newlines h.0 in
    (
      omega arith,
      omega (arith, n, newlines-append before (str_append text after)),
      refl,
      matches_of-AllOnLines v source file ms h.1,
    )

scan_entries-AllOnLines :
    (re : Regex) (source file : String) (vs : List VulnEntry)
    → ((pattern : String) → AllParts source (re.find_iter pattern source))
    → AllOnLines source file (scan_entries re source file vs)
scan_entries-AllOnLines re source file [] h = tt
scan_entries-AllOnLines re source file (v ∷ vs) h =
    let rest = scan_entries-AllOnLines re source file vs h in
    elim (Bool-cases (re.is_pattern v.pattern)) [
      | inl valid ↦ rw valid (
          AllOnLines-append source file (matches_of v file (re.find_iter v.pattern source)) _
            (matches_of-AllOnLines v source file (re.find_iter v.pattern source) (h v.pattern))
            rest)
      | inr invalid ↦ rw invalid rest
    ]

-- When the parts of each match that the regular expressions find make up the source, each match that a scan reports
-- names the scanned file and a line of the source, counted from 1.
pub scan-AllOnLines :
    (re : Regex) (db : VulnDatabase) (source file : String)
    → ((pattern : String) → AllParts source (re.find_iter pattern source))
    → AllOnLines source file (scan re db source file)
unfolding scan
scan-AllOnLines re db source file h = scan_entries-AllOnLines re source file db.vulnerabilities h
