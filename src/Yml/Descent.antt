-- ===== src/Yml/Descent.antt =====
-- The loops over the lines in internal/yml/parser.go: what they return is well formed, and they never
-- give back more lines than they got.
use gopherd.Prelude.{
  ℕ, zero, suc, ◌+◌, ◌≤◌, eqb, Text, Bool, true, false, ◌&&◌, not, Option, none, some, List, [],
  ◌∷◌, if◌then◌else◌, length, ◌≡◌, refl, arith,
}
use gopherd.Prelude.Strings.{drop, take, trim_space}
use gopherd.Yml.{find_colon}
use gopherd.Yml.Lines.{RawLine}
use gopherd.Yml.Node.{Node, scalar, mapping, sequence, no_entry, no_node}
use gopherd.Yml.Result.{Result, ok, ◌>>=◌, at_line, Yields, Yields-bind, Yields-at_line}
use gopherd.Yml.Blocks.{
  Level, Parsed, entries_onto, nodes_onto, has_key, parse_scalar, entry_value, mapping_loop,
  stops_mapping, all_used, is_empty, goes_deeper, is_item, is_one_line, is_inline_seq_item,
  is_literal_item, literal_of, mapping_line, add_pair, span_deeper, item_value, sequence_loop,
  parse_block,
}
use gopherd.Yml.WellFormed.{
  IsWellFormed, AllWellFormed, AreWellFormed, GoodPairs, entries_onto-AreWellFormed, AllGood,
  nodes_onto-AllWellFormed, parse_scalar-IsWellFormed, Yields-weaken,
}

-- What a level returns: a well-formed node, and no more lines than it got.
abbrev pub Level-Good : ℕ → List RawLine → Parsed → Type 0
Level-Good n ls p = IsWellFormed n p.0 × (length p.1 ≤ length ls)

span_deeper-le :
    (indent : ℕ) (ls : List RawLine)
    → (length (span_deeper indent ls).0 ≤ length ls)
      × (length (span_deeper indent ls).1 ≤ length ls)
unfolding span_deeper
span_deeper-le indent [] = (omega arith, omega arith)
span_deeper-le indent (l ∷ ls) = ground (arith, span_deeper-le indent ls)

pub all_used-IsWellFormed :
    (n : ℕ) (ls : List RawLine) (p : Parsed)
    → Level-Good n ls p
    → Yields (IsWellFormed n) (all_used p)
all_used-IsWellFormed n ls (v, []) g = g.0
all_used-IsWellFormed n ls (v, bad ∷ rest) g = tt

module _ (n : ℕ) (level : Level) (values : (s : Text) → Yields (IsWellFormed n) (level.value s))
    (children : (ls : List RawLine) (floor : ℕ)
      → Yields (Level-Good n ls) (level.child ls floor)) where
  entry_value-Good :
      (line : RawLine) (rest : Text) (ls : List RawLine)
      → Yields (Level-Good n ls) (entry_value level line rest ls)
  unfolding entry_value IsWellFormed
  entry_value-Good line rest ls = split line.literal
    where
      split :
          (o : Option Text)
          → Yields (Level-Good n ls) (elim o [
            | some text ↦ ok (scalar text, ls)
            | none ↦
                if not (is_empty rest)
                then (at_line line.num (level.value rest) >>= (λ x. ok (x, ls)))
                else if goes_deeper line.indent ls
                then level.child ls (suc line.indent)
                else ok (scalar [], ls)
          ])
      split (some text) = (tt, omega arith)
      split none = inline (not (is_empty rest)) (goes_deeper line.indent ls)
        where
          inline :
              (b c : Bool)
              → Yields (Level-Good n ls) (
                  if b
                  then (at_line line.num (level.value rest) >>= (λ x. ok (x, ls)))
                  else if c
                  then level.child ls (suc line.indent)
                  else ok (scalar [], ls))
          inline true c =
              Yields-bind (IsWellFormed n) (Level-Good n ls) (at_line line.num (level.value rest))
                (λ x. ok (x, ls))
                (Yields-at_line (IsWellFormed n) line.num (level.value rest) (values rest))
                (λ x w. (w, omega arith))
          inline false true = children ls (suc line.indent)
          inline false false = (tt, omega arith)

  mapping_loop-Good :
      (fuel floor : ℕ) (base : Option ℕ) (ls : List RawLine) (acc : List (Text × Node))
      → length ls ≤ fuel
      → GoodPairs n acc
      → Yields (Level-Good (suc n) ls) (mapping_loop level fuel floor base ls acc)
  unfolding mapping_loop IsWellFormed AreWellFormed GoodPairs
  mapping_loop-Good fuel floor base [] acc h g =
      (entries_onto-AreWellFormed n acc no_entry g tt (λ key e. refl), omega arith)
  mapping_loop-Good zero floor base (line ∷ ls) acc h g = absurd (omega arith)
  mapping_loop-Good (suc fuel) floor base (line ∷ ls) acc h g =
      split (stops_mapping floor base line.indent) (find_colon line.text)
        (λ ms ps k q. mapping_loop-Good fuel line.indent (some line.indent) ms ps k q)
    where
      keyed :
          (key rest : Text) (b : Bool)
          → has_key key acc ≡ b
          → ((ms : List RawLine) (ps : List (Text × Node))
              → length ms ≤ fuel
              → GoodPairs n ps
              → Yields
                  (Level-Good (suc n) ms)
                  (mapping_loop level fuel line.indent (some line.indent) ms ps))
          → Yields (Level-Good (suc n) (line ∷ ls)) (
              add_pair level line rest key ls
                (mapping_loop level fuel line.indent (some line.indent))
                acc
                b)
      keyed key rest true e more = tt
      keyed key rest false e more =
          Yields-bind (Level-Good n ls) (Level-Good (suc n) (line ∷ ls))
            (entry_value level line rest ls)
            (λ r. mapping_loop level fuel line.indent (some line.indent) r.1 ((key, r.0) ∷ acc))
            (entry_value-Good line rest ls)
            (λ r w.
              Yields-weaken (Level-Good (suc n) r.1) (Level-Good (suc n) (line ∷ ls)) _
                (λ p q. (q.0, omega (arith, q.1, w.1)))
                (more r.1 ((key, r.0) ∷ acc) (omega (arith, w.1, h)) (w.0, e, g)))

      split :
          (b : Bool) (o : Option ℕ)
          → ((ms : List RawLine) (ps : List (Text × Node))
              → length ms ≤ fuel
              → GoodPairs n ps
              → Yields
                  (Level-Good (suc n) ms)
                  (mapping_loop level fuel line.indent (some line.indent) ms ps))
          → Yields (Level-Good (suc n) (line ∷ ls)) (
              if b
              then ok (mapping (entries_onto acc no_entry), line ∷ ls)
              else mapping_line level line ls
                  (mapping_loop level fuel line.indent (some line.indent))
                  acc
                  o)
      split true o more =
          (entries_onto-AreWellFormed n acc no_entry g tt (λ key e. refl), omega arith)
      split false none more = tt
      split false (some i) more = keyed (trim_space (take i line.text)) _ _ refl more

  item_value-IsWellFormed :
      (line : RawLine) (item : Text) (mine : List RawLine)
      → Yields (IsWellFormed n) (item_value level line item mine)
  unfolding item_value
  item_value-IsWellFormed line item mine = split (is_one_line mine && is_inline_seq_item item)
    where
      split :
          (b : Bool)
          → Yields (IsWellFormed n) (
              if b
              then at_line line.num (level.value item)
              else level.child
                  (record line { indent = line.indent + 2; text = item } ∷ mine)
                  (line.indent + 2)
                >>= all_used)
      split true = Yields-at_line (IsWellFormed n) line.num (level.value item) (values item)
      split false =
          let ls = record line { indent = line.indent + 2; text = item } ∷ mine in
          Yields-bind (Level-Good n ls) (IsWellFormed n) (level.child ls (line.indent + 2)) all_used
            (children ls (line.indent + 2)) (all_used-IsWellFormed n ls)

  sequence_loop-Good :
      (fuel indent : ℕ) (ls : List RawLine) (acc : List Node)
      → length ls ≤ fuel
      → AllGood n acc
      → Yields (Level-Good (suc n) ls) (sequence_loop level fuel indent ls acc)
  unfolding sequence_loop IsWellFormed AllWellFormed AllGood
  sequence_loop-Good fuel indent [] acc h g =
      (nodes_onto-AllWellFormed n acc no_node g tt, omega arith)
  sequence_loop-Good zero indent (line ∷ ls) acc h g = absurd (omega arith)
  sequence_loop-Good (suc fuel) indent (line ∷ ls) acc h g =
      let item = drop 2 line.text in
      let (mine, rest) = span_deeper indent ls in
      let short = span_deeper-le indent ls in
      split (not (eqb line.indent indent && is_item line.text)) (is_literal_item line item)
        (Yields-weaken (Level-Good (suc n) ls) (Level-Good (suc n) (line ∷ ls)) _
          (λ p q. (q.0, omega (arith, q.1)))
          (sequence_loop-Good fuel indent ls (scalar (literal_of line) ∷ acc) (omega (arith, h))
            (tt, g)))
        (Yields-bind (IsWellFormed n) (Level-Good (suc n) (line ∷ ls))
          (item_value level line item mine) (λ x. sequence_loop level fuel indent rest (x ∷ acc))
          (item_value-IsWellFormed line item mine)
          (λ x w.
            Yields-weaken (Level-Good (suc n) rest) (Level-Good (suc n) (line ∷ ls)) _
              (λ p q. (q.0, omega (arith, q.1, short.1)))
              (sequence_loop-Good fuel indent rest (x ∷ acc) (omega (arith, short.1, h)) (w, g))))
    where
      split :
          (b c : Bool)
          → Yields
              (Level-Good (suc n) (line ∷ ls))
              (sequence_loop level fuel indent ls (scalar (literal_of line) ∷ acc))
          → Yields (Level-Good (suc n) (line ∷ ls)) (
              item_value level line (drop 2 line.text) (span_deeper indent ls).0 >>= λ x.
              sequence_loop level fuel indent (span_deeper indent ls).1 (x ∷ acc))
          → Yields (Level-Good (suc n) (line ∷ ls)) (
              if b
              then ok (sequence (nodes_onto acc no_node), line ∷ ls)
              else if c
              then sequence_loop level fuel indent ls (scalar (literal_of line) ∷ acc)
              else (item_value level line (drop 2 line.text) (span_deeper indent ls).0
                  >>= (λ x. sequence_loop level fuel indent (span_deeper indent ls).1 (x ∷ acc))))
      split true c x y = (nodes_onto-AllWellFormed n acc no_node g tt, omega arith)
      split false true x y = x
      split false false x y = y

pub parse_block-Good :
    (room : ℕ) (ls : List RawLine) (floor : ℕ)
    → Yields (Level-Good (suc room) ls) (parse_block room ls floor)
unfolding parse_block IsWellFormed GoodPairs AllGood
parse_block-Good zero ls floor = tt
parse_block-Good (suc room) [] floor = (tt, omega arith)
parse_block-Good (suc room) (line ∷ ls) floor =
    let level : Level = record { value = parse_scalar (suc room); child = parse_block room } in
    split (is_item line.text) _ _
      (sequence_loop-Good (suc room) level (parse_scalar-IsWellFormed (suc room))
        (parse_block-Good room) (suc (length ls)) line.indent (line ∷ ls) [] (omega arith) tt)
      (mapping_loop-Good (suc room) level (parse_scalar-IsWellFormed (suc room))
        (parse_block-Good room) (suc (length ls)) floor none (line ∷ ls) [] (omega arith) tt)
  where
    split :
        (b : Bool) (x y : Result Parsed)
        → Yields (Level-Good (suc (suc room)) (line ∷ ls)) x
        → Yields (Level-Good (suc (suc room)) (line ∷ ls)) y
        → Yields (Level-Good (suc (suc room)) (line ∷ ls)) (if b then x else y)
    split true x y h k = h
    split false x y h k = k
