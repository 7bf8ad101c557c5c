-- ===== src/Tooling/Badge.antt =====
-- tooling/sanctifier-cli/src/commands/badge.rs: the status that a badge shows, and the widths of the badge.
pub mod Status
mod Tests
use Prim.Native.String.{String}
use sanctifier.Base.{ℕ, suc, ◌+◌, ◌*◌, ◌/◌, Bool, true, false, ◌||◌, ltb, leb, if◌then◌else◌}

pub record AnalyzeSummary : Type 0 where
  pub total_findings : ℕ
  pub has_critical : Bool
  pub has_high : Bool

pub data SecurityStatus : Type 0 where
  secure warning critical : SecurityStatus

abbrev pub text : SecurityStatus → String
text secure = "Secure"
text warning = "Warning"
text critical = "Critical"

abbrev pub color : SecurityStatus → String
color secure = "#2ea043"
color warning = "#fb8c00"
color critical = "#d73a49"

pub derive_status : AnalyzeSummary → SecurityStatus
derive_status s =
    if s.has_critical
    then critical
    else if s.has_high || ltb 0 s.total_findings
    then warning
    else secure

-- `text.chars().count()`
abbrev pub char_count : String → ℕ
char_count String.[] = 0
char_count (String.◌∷◌ c s) = suc (char_count s)

pub text_width : String → ℕ
text_width t = let padded = char_count t * 7 + 10 in if leb 28 padded then padded else 28

-- The numbers of `generate_badge_svg`: the rectangles and the middles of the two texts.
pub record Layout : Type 0 where
  pub label_width : ℕ
  pub status_width : ℕ
  pub total_width : ℕ
  pub status_x : ℕ
  pub label_text_x : ℕ
  pub status_text_x : ℕ

pub layout : String → String → Layout
layout label status =
    let label_width = text_width label in
    let status_width = text_width status in
    record {
      label_width = label_width;
      status_width = status_width;
      total_width = label_width + status_width;
      status_x = label_width;
      label_text_x = label_width / 2;
      status_text_x = label_width + status_width / 2;
    }
