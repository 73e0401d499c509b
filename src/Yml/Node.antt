-- ===== src/Yml/Node.antt =====
-- internal/yml/parser.go: the node tree, and how it is read.
use gopherd.Prelude.Int.{ℤ}
use gopherd.Prelude.Maps.{Map, insert}
use gopherd.Prelude.{
  ℕ, leb, ◌+◌, Text, codes, ◌==◌, text_discrete, Bool, ◌&&◌, ◌||◌, Option, none, some, List, [],
  ◌∷◌, map, if◌then◌else◌,
}

mutual
  pub data Node : Type 0 where
    scalar : (text : Text) → Node
    mapping : Entries → Node
    sequence : Nodes → Node

  pub data Entries : Type 0 where
    no_entry : Entries
    entry : (key : Text) → Node → Entries → Entries

  pub data Nodes : Type 0 where
    no_node : Nodes
    node : Node → Nodes → Nodes

-- A pointer to a node is nil for a key that is not there: `none`.
unfoldable pub find_entry : Text → Entries → Option Node
find_entry key no_entry = none
find_entry key (entry k n es) = if k == key then some n else find_entry key es

unfoldable pub get : Text → Option Node → Option Node
unfolding find_entry
get key (some (mapping es)) = find_entry key es
get key _ = none

unfoldable pub string : Option Node → Text
string (some (scalar text)) = text
string _ = []

-- strings.ToLower. Beyond ASCII no character has a lower case in the words that are compared.
abbrev lower : ℕ → ℕ
lower c = if leb b'A' c && leb c b'Z' then c + 32 else c

unfoldable pub bool : Option Node → Bool
unfolding string text_discrete
bool n = let s = map lower (string n) in s == codes "true" || s == codes "yes"

unfoldable pub bool_ptr : Option Node → Option Bool
unfolding string bool
bool_ptr n = if string n == [] then none else some (bool n)

abbrev scalars : Nodes → List Text
scalars no_node = []
scalars (node (scalar text) ns) = text ∷ scalars ns
scalars (node _ ns) = scalars ns

unfoldable pub strings : Option Node → List Text
strings (some (sequence ns)) = scalars ns
strings _ = []

-- A later entry replaces an earlier one.
abbrev scalar_entries : Entries → Map Text → Map Text
scalar_entries no_entry m = m
scalar_entries (entry key (scalar text) es) m = scalar_entries es (insert key text m)
scalar_entries (entry key _ es) m = scalar_entries es m

unfoldable pub string_map : Option Node → Map Text
unfolding insert
string_map (some (mapping es)) = scalar_entries es []
string_map _ = []

-- Entries and Items
abbrev pairs_of : Entries → List (Text × Node)
pairs_of no_entry = []
pairs_of (entry key n es) = (key, n) ∷ pairs_of es

unfoldable pub entries : Option Node → List (Text × Node)
entries (some (mapping es)) = pairs_of es
entries _ = []

abbrev list_of : Nodes → List Node
list_of no_node = []
list_of (node n ns) = n ∷ list_of ns

unfoldable pub items : Option Node → List Node
items (some (sequence ns)) = list_of ns
items _ = []

-- Int and IntPtr: `atoi` is strconv.Atoi, with `none` for its errors.
unfoldable pub int_ptr : (Text → Option ℤ) → Option Node → Option ℤ
unfolding string
int_ptr atoi n = if string n == [] then none else atoi (string n)
