-- ===== src/Yml/WellFormed.antt =====
-- Nodes of internal/yml/parser.go whose keys are distinct and whose nesting is bounded: inline values
-- are such nodes.
use gopherd.Prelude.{
  ℕ, zero, suc, Text, ◌==◌, Bool, true, false, ◌||◌, Option, none, some, List, [], ◌∷◌,
  if◌then◌else◌, ◌≡◌, refl, arith,
}
use gopherd.Prelude.Strings.{trim_space}
use gopherd.Yml.{split_csv, unquote}
use gopherd.Yml.Node.{
  Node, scalar, mapping, sequence, Entries, no_entry, entry, Nodes, no_node, node,
}
use gopherd.Yml.Result.{
  Reason, Result, out_of_fuel, tab_indentation, folded_block, unknown_indicator, ok, err, ◌>>=◌,
  no_colon, duplicate_key, too_deep, unexpected_indentation, Yields, Yields-bind,
}
use gopherd.Yml.Blocks.{
  entries_onto, nodes_onto, has_key, items_of, inline_entries, parse_scalar, inline_entry,
  add_inline, split_entry, inner, bracketed,
}

-- A mapping has the key.
abbrev entry_of : Text → Entries → Bool
entry_of key no_entry = false
entry_of key (entry k n es) = k == key || entry_of key es

-- The keys of each mapping are distinct, and at most `n` mappings or sequences lie in one another.
unfoldable mutual
  pub IsWellFormed : ℕ → Node → Type 0
  IsWellFormed n (scalar t) = Unit
  IsWellFormed zero (mapping es) = ⊥
  IsWellFormed (suc n) (mapping es) = AreWellFormed n es
  IsWellFormed zero (sequence ns) = ⊥
  IsWellFormed (suc n) (sequence ns) = AllWellFormed n ns

  pub AreWellFormed : ℕ → Entries → Type 0
  AreWellFormed n no_entry = Unit
  AreWellFormed n (entry key v es) =
      IsWellFormed n v × (entry_of key es ≡ false) × AreWellFormed n es

  pub AllWellFormed : ℕ → Nodes → Type 0
  AllWellFormed n no_node = Unit
  AllWellFormed n (node v ns) = IsWellFormed n v × AllWellFormed n ns

-- The same of the entries that a loop has read so far.
unfoldable pub GoodPairs : ℕ → List (Text × Node) → Type 0
GoodPairs n [] = Unit
GoodPairs n ((key, v) ∷ ps) = IsWellFormed n v × (has_key key ps ≡ false) × GoodPairs n ps

pub entries_onto-AreWellFormed :
    (n : ℕ) (ps : List (Text × Node)) (es : Entries)
    → GoodPairs n ps
    → AreWellFormed n es
    → ((key : Text) → has_key key ps ≡ true → entry_of key es ≡ false)
    → AreWellFormed n (entries_onto ps es)
unfolding entries_onto AreWellFormed GoodPairs
entries_onto-AreWellFormed n [] es g w apart = w
entries_onto-AreWellFormed n ((k, v) ∷ ps) es g w apart =
    entries_onto-AreWellFormed n ps (entry k v es) g.2 (g.0, apart k (ground arith), w)
      (λ key h. ground (arith, apart key, g.1, h))

unfoldable pub AllGood : ℕ → List Node → Type 0
AllGood n [] = Unit
AllGood n (v ∷ vs) = IsWellFormed n v × AllGood n vs

pub nodes_onto-AllWellFormed :
    (n : ℕ) (vs : List Node) (ns : Nodes)
    → AllGood n vs
    → AllWellFormed n ns
    → AllWellFormed n (nodes_onto vs ns)
unfolding nodes_onto AllWellFormed AllGood
nodes_onto-AllWellFormed n [] ns g w = w
nodes_onto-AllWellFormed n (v ∷ vs) ns g w = nodes_onto-AllWellFormed n vs (node v ns) g.1 (g.0, w)

items_of-AllWellFormed : (n : ℕ) (items : List Text) → AllWellFormed n (items_of items)
unfolding items_of AllWellFormed IsWellFormed
items_of-AllWellFormed n [] = tt
items_of-AllWellFormed n (item ∷ items) = (tt, items_of-AllWellFormed n items)

inline_entry-IsWellFormed :
    (n : ℕ) (value : Text → Result Node) (more : List (Text × Node) → Result Node)
    (acc : List (Text × Node)) (text : Text)
    → ((s : Text) → Yields (IsWellFormed n) (value s))
    → ((ps : List (Text × Node)) → GoodPairs n ps → Yields (IsWellFormed (suc n)) (more ps))
    → GoodPairs n acc
    → Yields (IsWellFormed (suc n)) (inline_entry value more acc text)
unfolding GoodPairs
inline_entry-IsWellFormed n value more acc [] v m g = m acc g
inline_entry-IsWellFormed n value more acc (c ∷ t) v m g = split (split_entry (c ∷ t))
  where
    keyed :
        (key s : Text) (b : Bool)
        → has_key key acc ≡ b
        → Yields
            (IsWellFormed (suc n))
            (if b then err 0 (duplicate_key key) else (value s >>= (λ x. more ((key, x) ∷ acc))))
    keyed key s true e = tt
    keyed key s false e =
        Yields-bind (IsWellFormed n) (IsWellFormed (suc n)) (value s) (λ x. more ((key, x) ∷ acc))
          (v s) (λ x w. m ((key, x) ∷ acc) (w, e, g))

    split : (o : Option (Text × Text)) → Yields (IsWellFormed (suc n)) (add_inline value more acc o)
    split none = tt
    split (some (key, s)) = keyed key s (has_key key acc) refl

inline_entries-IsWellFormed :
    (n : ℕ) (value : Text → Result Node) (ss : List Text) (acc : List (Text × Node))
    → ((s : Text) → Yields (IsWellFormed n) (value s))
    → GoodPairs n acc
    → Yields (IsWellFormed (suc n)) (inline_entries value ss acc)
unfolding inline_entries IsWellFormed AreWellFormed
inline_entries-IsWellFormed n value [] acc v g =
    entries_onto-AreWellFormed n acc no_entry g tt (λ key h. refl)
inline_entries-IsWellFormed n value (s ∷ ss) acc v g =
    inline_entry-IsWellFormed n value (inline_entries value ss) acc (trim_space s) v
      (λ ps h. inline_entries-IsWellFormed n value ss ps v h) g

pub parse_scalar-IsWellFormed :
    (room : ℕ) (s : Text) → Yields (IsWellFormed room) (parse_scalar room s)
unfolding parse_scalar IsWellFormed GoodPairs
parse_scalar-IsWellFormed zero s = tt
parse_scalar-IsWellFormed (suc room) s = split (bracketed b'[' b']' s) (bracketed b'{' b'}' s) (
    inline_entries-IsWellFormed room (parse_scalar room) (split_csv (inner s)) []
      (parse_scalar-IsWellFormed room) tt)
  where
    split :
        (b c : Bool)
        → Yields
            (IsWellFormed (suc room))
            (inline_entries (parse_scalar room) (split_csv (inner s)) [])
        → Yields (IsWellFormed (suc room)) (
            if b
            then ok (sequence (items_of (split_csv (inner s))))
            else if c
            then inline_entries (parse_scalar room) (split_csv (inner s)) []
            else ok (scalar (unquote (trim_space s))))
    split true c h = items_of-AllWellFormed room (split_csv (inner s))
    split false true h = h
    split false false h = tt

pub Yields-weaken :
    {A : Type 0} (P Q : A → Type 0) (m : Result A) → ((a : A) → P a → Q a) → Yields P m → Yields Q m
Yields-weaken P Q (ok a) k h = k a h
Yields-weaken P Q (err l why) k h = weaken why h
  where
    weaken : (w : Reason) → Yields P (err l w) → Yields Q (err l w)
    weaken out_of_fuel h = h
    weaken tab_indentation h = tt
    weaken folded_block h = tt
    weaken unknown_indicator h = tt
    weaken no_colon h = tt
    weaken (duplicate_key key) h = tt
    weaken too_deep h = tt
    weaken unexpected_indentation h = tt
