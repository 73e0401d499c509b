-- ===== src/Yml/Total.antt =====
-- `Parse` of internal/yml/parser.go always ends: the literal blocks, the lines, and the whole.
use gopherd.Prelude.{
  codes, ℕ, zero, suc, ◌≤◌, Text, ◌==◌, Bool, true, false, ◌||◌, Option, none, some, List, [], ◌∷◌,
  ◌++◌, if◌then◌else◌, length, arith,
}
use gopherd.Prelude.Strings.{split_on, drop}
use gopherd.Yml.Lines.{
  clip, strip, keep, on_kind, numbered, drop_last_empty, RawLine, split_lines, lines_from,
  line_kind, LineKind, skipped, tabbed, plain, block, collect_literal_block, collect_body,
  indent_of, chomp_of,
}
use gopherd.Yml.Result.{
  Result, folded_block, unknown_indicator, ok, err, at_line, Yields, Yields-bind, Yields-at_line,
}
use gopherd.Yml.Blocks.{strip_bom, all_used, parse_block, normalize, parse, max_parse_depth}
use gopherd.Yml.WellFormed.{IsWellFormed}
use gopherd.Yml.Descent.{Level-Good, parse_block-Good, all_used-IsWellFormed}

collect_body-le :
    (header : ℕ) (base : Option ℕ) (body : List Text) (raw : List (ℕ × Text))
    → length (collect_body header base body raw).1 ≤ length raw
unfolding collect_body
collect_body-le header base body [] = omega arith
collect_body-le header none body ((num, line) ∷ raw) = ground (
  arith,
  collect_body-le header none (body ++ [] ∷ []) raw,
  collect_body-le header (some (indent_of line)) (body ++ drop (indent_of line) line ∷ []) raw,
)
collect_body-le header (some b) body ((num, line) ∷ raw) = ground (
  arith,
  collect_body-le header (some b) (body ++ [] ∷ []) raw,
  collect_body-le header (some b) (body ++ drop b line ∷ []) raw,
)

chomp_of_total : (s : Text) → Yields (λ c. Unit {0}) (chomp_of s)
unfolding chomp_of
chomp_of_total s =
    split (s == codes "|") (s == codes "|-") (s == codes "|+")
      (s == codes ">" || (s == codes ">-" || s == codes ">+"))
  where
    split :
        (a b c d : Bool)
        → Yields
            (λ x. Unit {0})
            (if a
              then ok clip
              else if b
              then ok strip
              else if c
              then ok keep
              else if d
              then err 0 folded_block
              else err 0 unknown_indicator)
    split true b c d = tt
    split false true c d = tt
    split false false true d = tt
    split false false false true = tt
    split false false false false = tt

collect_literal_block-le :
    (raw : List (ℕ × Text)) (header : ℕ) (ind : Text)
    → Yields
        (λ (p : Text × List (ℕ × Text)). length p.1 ≤ length raw)
        (collect_literal_block raw header ind)
unfolding collect_literal_block
collect_literal_block-le raw header ind =
    Yields-bind (λ c. Unit {0}) (λ (p : Text × List (ℕ × Text)). length p.1 ≤ length raw)
      (chomp_of ind) _ (chomp_of_total ind) (λ c w. collect_body-le header none [] raw)

abbrev AnyLines : List RawLine → Type 0
AnyLines ls = Unit

on_kind_total :
    (num : ℕ) (raw : List (ℕ × Text)) (more : List (ℕ × Text) → Result (List RawLine))
    (k : LineKind)
    → ((rest : List (ℕ × Text)) → length rest ≤ length raw → Yields AnyLines (more rest))
    → Yields AnyLines (on_kind num raw more k)
on_kind_total num raw more skipped m = m raw (omega arith)
on_kind_total num raw more tabbed m = tt
on_kind_total num raw more (plain l) m =
    Yields-bind AnyLines AnyLines (more raw) _ (m raw (omega arith)) (λ ls w. tt)
on_kind_total num raw more (block l ind) m =
    Yields-bind (λ (p : Text × List (ℕ × Text)). length p.1 ≤ length raw) AnyLines
      (at_line num (collect_literal_block raw l.indent ind)) _
      (Yields-at_line (λ (p : Text × List (ℕ × Text)). length p.1 ≤ length raw) num
        (collect_literal_block raw l.indent ind) (collect_literal_block-le raw l.indent ind))
      (λ p h. Yields-bind AnyLines AnyLines (more p.1) _ (m p.1 h) (λ ls w. tt))

lines_from_total :
    (fuel : ℕ) (raw : List (ℕ × Text)) → length raw ≤ fuel → Yields AnyLines (lines_from fuel raw)
unfolding lines_from
lines_from_total fuel [] h = tt
lines_from_total zero (l ∷ raw) h = absurd (omega arith)
lines_from_total (suc fuel) ((num, line) ∷ raw) h =
    on_kind_total num raw (lines_from fuel) (line_kind num line)
      (λ rest le. lines_from_total fuel rest (omega (arith, le, h)))

split_lines_total : (s : Text) → Yields AnyLines (split_lines s)
unfolding split_lines
split_lines_total s =
    lines_from_total _ (numbered 1 (drop_last_empty (split_on b'\n' s))) (omega arith)

-- Whatever a text is, parsing it ends in an error of the code or in a node whose mappings have
-- distinct keys and in which at most 66 mappings or sequences lie in one another: the loops never run
-- out of fuel.
pub parse-IsWellFormed : (s : Text) → Yields (IsWellFormed (suc (suc max_parse_depth))) (parse s)
unfolding parse
parse-IsWellFormed s =
    Yields-bind AnyLines (IsWellFormed _) (split_lines (normalize (strip_bom s))) _
      (split_lines_total (normalize (strip_bom s)))
      (λ ls w.
        Yields-bind (Level-Good (suc (suc max_parse_depth)) ls) (IsWellFormed _)
          (parse_block (suc max_parse_depth) ls 0) all_used
          (parse_block-Good (suc max_parse_depth) ls 0)
          (all_used-IsWellFormed (suc (suc max_parse_depth)) ls))
