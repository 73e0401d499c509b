-- ===== src/Yml/Samples.antt =====
-- Tests and samples for internal/yml: small texts that are parsed.
use gopherd.Prelude.{suc, Text, codes, ◌≡◌, refl}
use gopherd.Yml.Lines.{split_lines, lines_from, line_kind}
use gopherd.Yml.Node.{scalar, mapping, sequence, no_entry, entry, no_node, node}
use gopherd.Yml.Result.{Yields, ok, err, duplicate_key}
use gopherd.Yml.Blocks.{max_parse_depth, parse, parse_block, parse_scalar}
use gopherd.Yml.WellFormed.{IsWellFormed}
use gopherd.Yml.Total.{parse-IsWellFormed}

abbrev services : Text
services = codes "a: [x, y]\nb:\n  - 'z'\n  - {k: v}\n"

abbrev twice : Text
twice = codes "a: 1\na: 2"

parse-IsWellFormed_example : Yields (IsWellFormed (suc (suc max_parse_depth))) (parse services)
parse-IsWellFormed_example = parse-IsWellFormed services

parsed :
    parse services
    ≡ ok (
        mapping (
          entry
            (codes "a")
            (sequence (node (scalar (codes "x")) (node (scalar (codes "y")) no_node)))
            (entry
              (codes "b")
              (sequence (
                node
                  (scalar (codes "z"))
                  (node (mapping (entry (codes "k") (scalar (codes "v")) no_entry)) no_node)))
              no_entry)))
unfolding parse split_lines lines_from line_kind parse_block parse_scalar
parsed = refl

rejected : parse twice ≡ err 2 (duplicate_key (codes "a"))
unfolding parse split_lines lines_from line_kind parse_block parse_scalar
rejected = refl
