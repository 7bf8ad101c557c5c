-- ===== src/Tooling/Patcher/Order.antt =====
-- Why tooling/sanctifier-core/src/patcher.rs applies patches from the end of the text to its start.
use Prim.Native.Char.{Char, len_utf8}
use Prim.Native.String.append
use Prim.Native.String.{String, ◌++◌ as str_append}
use mathlib.Core.Path.{subst}
use text.Mathlib.TextLemmas.{append_assoc, append-nil}
use sanctifier.Base.{ℕ, ◌≤◌, ◌≡◌, refl, sym, ap, ◌∙◌, true, Option, some, List, [], ◌∷◌, arith}
use sanctifier.Host.{bind, is_some}
use sanctifier.Tooling.Issues.{Patch}
use sanctifier.Tooling.Text.{byte_len}
use sanctifier.Tooling.Patcher.{calculate_offsets, apply_at, apply_one, apply_sorted}
use sanctifier.Tooling.Patcher.Offsets.{position, offsets-position}
use sanctifier.Tooling.Patcher.Applied.{len_utf8_pos, ends, position-prefix, apply_one-parts}

-- The two texts start with the same text of that length.
abbrev pub AgreeTo : ℕ → String → String → Type 0
AgreeTo n s t =
    (head : String) × (u : String) × (v : String) × (str_append head u ≡ s)
    × (str_append head v ≡ t)
    × (byte_len head ≡ n)

-- A patch that lies before the place where two texts differ has the same offsets in both.
offsets-AgreeTo :
    (n : ℕ) (s t : String) (p : Patch) (a b : ℕ)
    → AgreeTo n s t
    → calculate_offsets s p ≡ some (a, b)
    → a ≤ n
    → b ≤ n
    → calculate_offsets t p ≡ some (a, b)
offsets-AgreeTo n s t p a b (head, u, v, es, et, len) h le le' =
    let e = ends s p a b h in
    let x : position p.start_line p.start_column (str_append head u) ≡ some a = rw es e.0 in
    let y : position p.end_line p.end_column (str_append head u) ≡ some b = rw es e.1 in
    let x' = position-prefix p.start_line p.start_column a head u v x (omega (arith, len)) in
    let y' = position-prefix p.end_line p.end_column b head u v y (omega (arith, len)) in
    offsets-position t p ∙ rw (sym et, x', y') refl

cons_eq : (c d : Char) (s t : String) → String.◌∷◌ c s ≡ String.◌∷◌ d t → (c ≡ d) × (s ≡ t)
cons_eq c d s t h = (ground arith, ground arith)

-- Of two texts that start one text, the shorter starts the longer.
starts :
    (x y u v : String)
    → str_append x u ≡ str_append y v
    → byte_len x ≤ byte_len y
    → (z : String) × (y ≡ str_append x z)
starts String.[] y u v h le = (y, sym (append.nil y))
starts (String.◌∷◌ c x) String.[] u v h le = absurd (omega (arith, len_utf8_pos c))
starts (String.◌∷◌ c x) (String.◌∷◌ d y) u v h le =
    let e : String.◌∷◌ c (str_append x u) ≡ String.◌∷◌ d (str_append y v) =
      sym (append.cons c x u) ∙ h ∙ append.cons d y v in
    let (same, rest) = cons_eq c d (str_append x u) (str_append y v) e in
    let le' : byte_len x ≤ byte_len y = omega (arith, ap len_utf8 same) in
    let (z, ez) = starts x y u v rest le' in
    (z, ap (λ e. String.◌∷◌ e y) (sym same) ∙ ap (String.◌∷◌ c) ez ∙ sym (append.cons c x z))

-- After a patch the text agrees with the source up to the patch's start.
AgreeTo-apply :
    (n : ℕ) (s t before rest after : String)
    → AgreeTo n s t
    → str_append before rest ≡ t
    → byte_len before ≤ n
    → AgreeTo (byte_len before) s (str_append before after)
AgreeTo-apply n s t before rest after (head, u, v, es, et, len) h le =
    let (z, ez) = starts before head rest v (h ∙ sym et) (omega (arith, len)) in
    (before, str_append z u, after, sym (append_assoc before z u) ∙ (rw (sym ez) es), refl, refl)

-- The patches lie one before the other, each before the offset: the order of application.
abbrev pub AreDisjoint : String → ℕ → List Patch → Type 0
AreDisjoint source n [] = Unit
AreDisjoint source n (p ∷ ps) =
    (a : ℕ) × (b : ℕ) × (calculate_offsets source p ≡ some (a, b))
    × (a ≤ b)
    × (b ≤ n)
    × AreDisjoint source a ps

-- The patches applied at the offsets that they have in the source.
abbrev pub apply_planned : String → List Patch → String → Option String
apply_planned source [] text = some text
apply_planned source (p ∷ ps) text =
    bind (apply_at p text (calculate_offsets source p)) λ r. apply_planned source ps r

-- One patch that has the offsets of the source, before the others.
planned_step :
    (source text next : String) (p : Patch) (ps : List Patch) (o : ℕ × ℕ)
    → calculate_offsets source p ≡ some o
    → calculate_offsets text p ≡ some o
    → apply_one p text ≡ some next
    → (apply_sorted ps next ≡ apply_planned source ps next)
      × (is_some (apply_sorted ps next) ≡ true)
    → (apply_sorted (p ∷ ps) text ≡ apply_planned source (p ∷ ps) text)
      × (is_some (apply_sorted (p ∷ ps) text) ≡ true)
planned_step source text next p ps o h h' applied ih =
    let same : apply_at p text (calculate_offsets source p) ≡ some next =
      ap (apply_at p text) (h ∙ sym h') ∙ applied in
    rw (applied, same) ih

apply_sorted-planned :
    (source : String) (n : ℕ) (ps : List Patch) (text : String)
    → AgreeTo n source text
    → AreDisjoint source n ps
    → (apply_sorted ps text ≡ apply_planned source ps text)
      × (is_some (apply_sorted ps text) ≡ true)
apply_sorted-planned source n [] text agree disjoint = (refl, refl)
apply_sorted-planned source n (p ∷ ps) text agree (a, b, h, le, within, rest) =
    let h' : calculate_offsets text p ≡ some (a, b) =
      offsets-AgreeTo n source text p a b agree h (omega arith) within in
    let (before, tail, removed, after, applied, whole, len, _, _) =
      apply_one-parts text p a b h' le in
    let next = str_append before (str_append p.replacement after) in
    let agree' : AgreeTo a source next =
      subst (λ k. AgreeTo k source next) len
        (AgreeTo-apply n source text before tail (str_append p.replacement after) agree whole
          (omega (arith, len))) in
    planned_step source text next p ps (a, b) h h' applied
      (apply_sorted-planned source a ps next agree' rest)

-- Patches in the order of application that lie one before the other are all applied at the offsets that they have in
-- the source, whatever the patches before them did to the text, and without a panic.
pub apply_sorted-source :
    (source : String) (ps : List Patch)
    → AreDisjoint source (byte_len source) ps
    → (apply_sorted ps source ≡ apply_planned source ps source)
      × (is_some (apply_sorted ps source) ≡ true)
apply_sorted-source source ps disjoint =
    apply_sorted-planned source (byte_len source) ps source
      (source, "", "", append-nil source, append-nil source, refl) disjoint
