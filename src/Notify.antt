-- ===== src/Notify.antt =====
-- internal/sdnotify/sdnotify.go: a datagram of a service, and who may send one. A line without its
-- surrounding blanks, bytes.TrimSpace, is a parameter.
use gopherd.Prelude.{
  ℕ, suc, eqb, Text, codes, ◌==◌, text_discrete, Bool, true, false, ◌&&◌, ◌||◌, not, Option, none,
  some, List, [], ◌∷◌, if◌then◌else◌, ◌≡◌, refl, arith,
}

pub record Listener : Type 0 where
  pub allowed_uid : ℕ
  pub ready : Bool
  -- How often the channel of WaitReady is closed.
  pub closes : ℕ
  pub stopping : Bool
  pub status : Text

-- The user of the sender, if the datagram carries one; `enabled` says whether the platform can tell.
unfoldable pub authorized : (enabled : Bool) → Option ℕ → Listener → Bool
authorized false sender l = true
authorized true none l = false
authorized true (some uid) l = eqb uid l.allowed_uid || eqb uid 0

-- The parts of a text between newlines: the first one, and the others.
unfoldable pub split_lines : Text → Text × List Text
split_lines [] = ([], [])
split_lines (c ∷ s) =
    let (line, rest) = split_lines s in if eqb c b'\n' then ([], line ∷ rest) else (c ∷ line, rest)

-- The key and the value around the first '='; a line without one, or that begins with one, has none.
unfoldable pub cut_equals : Text → Option (Text × Text)
cut_equals [] = none
cut_equals (c ∷ s) =
    let rest = cut_equals s in
    if eqb c b'='
    then some ([], s)
    else elim rest [ none ↦ none | some (key, value) ↦ some (c ∷ key, value) ]

unfoldable pub set_ready : Listener → Listener
set_ready l = if l.ready then l else record l { ready = true; closes = suc l.closes }

-- The switch over the key.
unfoldable pub apply_record : Text → Text → Listener → Listener
unfolding set_ready text_discrete
apply_record key value l =
    if key == codes "READY"
    then (if value == codes "1" then set_ready l else l)
    else if key == codes "STOPPING"
    then (if value == codes "1" then record l { stopping = true } else l)
    else if key == codes "STATUS"
    then record l { status = value }
    else l

abbrev on_record : Option (Text × Text) → Listener → Listener
on_record none l = l
on_record (some ([], value)) l = l
on_record (some (c ∷ key, value)) l = apply_record (c ∷ key) value l

unfoldable pub parse_lines : (Text → Text) → List Text → Listener → Listener
unfolding cut_equals apply_record
parse_lines trim [] l = l
parse_lines trim (line ∷ lines) l = parse_lines trim lines (on_record (cut_equals (trim line)) l)

unfoldable pub parse : (Text → Text) → Text → Listener → Listener
unfolding split_lines parse_lines
parse trim datagram l =
    let (line, lines) = split_lines datagram in parse_lines trim (line ∷ lines) l

-- What readLoop does with a datagram.
unfoldable pub receive : (Text → Text) → (enabled : Bool) → Option ℕ → Text → Listener → Listener
unfolding parse authorized
receive trim enabled sender datagram l =
    if authorized enabled sender l then parse trim datagram l else l

unfoldable pub receive_all : (Text → Text) → Bool → List (Option ℕ × Text) → Listener → Listener
unfolding receive
receive_all trim enabled [] l = l
receive_all trim enabled ((sender, datagram) ∷ rest) l =
    receive_all trim enabled rest (receive trim enabled sender datagram l)

-- The channel is closed once if the service is ready, and not before.
abbrev pub IsOnce : Listener → Type 0
IsOnce l = l.closes ≡ (if l.ready then 1 else 0)

apply_record-IsOnce :
    (key value : Text) (l : Listener) → IsOnce l → IsOnce (apply_record key value l)
unfolding apply_record set_ready
apply_record-IsOnce key value l h = ground arith

on_record-IsOnce : (o : Option (Text × Text)) (l : Listener) → IsOnce l → IsOnce (on_record o l)
on_record-IsOnce none l h = h
on_record-IsOnce (some ([], value)) l h = h
on_record-IsOnce (some (c ∷ key, value)) l h = apply_record-IsOnce (c ∷ key) value l h

parse_lines-IsOnce :
    (trim : Text → Text) (lines : List Text) (l : Listener)
    → IsOnce l
    → IsOnce (parse_lines trim lines l)
unfolding parse_lines
parse_lines-IsOnce trim [] l h = h
parse_lines-IsOnce trim (line ∷ lines) l h =
    parse_lines-IsOnce trim lines _ (on_record-IsOnce (cut_equals (trim line)) l h)

receive-IsOnce :
    (trim : Text → Text) (enabled : Bool) (sender : Option ℕ) (datagram : Text) (l : Listener)
    → IsOnce l
    → IsOnce (receive trim enabled sender datagram l)
unfolding receive parse
receive-IsOnce trim enabled sender datagram l h =
    ground
      (arith, parse_lines-IsOnce trim ((split_lines datagram).0 ∷ (split_lines datagram).1) l h)

-- If the channel of the waiters was closed once or not at all, as the service is ready or not, then
-- it is so after any datagrams, however often they announce readiness: it is never closed twice.
pub receive_all-IsOnce :
    (trim : Text → Text) (enabled : Bool) (datagrams : List (Option ℕ × Text)) (l : Listener)
    → IsOnce l
    → IsOnce (receive_all trim enabled datagrams l)
unfolding receive_all
receive_all-IsOnce trim enabled [] l h = h
receive_all-IsOnce trim enabled ((sender, datagram) ∷ rest) l h =
    receive_all-IsOnce trim enabled rest _ (receive-IsOnce trim enabled sender datagram l h)

-- Datagrams of senders that are neither the user of the service nor root, or that carry no sender.
abbrev pub foreign : ℕ → List (Option ℕ × Text) → Bool
foreign uid [] = true
foreign uid ((none, datagram) ∷ rest) = foreign uid rest
foreign uid ((some sender, datagram) ∷ rest) =
    not (eqb sender uid || eqb sender 0) && foreign uid rest

-- Where the platform tells the sender, datagrams of others than the user of the service and root, and
-- those without a sender, leave the listener as it is.
pub foreign_changes_nothing :
    (trim : Text → Text) (datagrams : List (Option ℕ × Text)) (l : Listener)
    → foreign l.allowed_uid datagrams ≡ true
    → receive_all trim true datagrams l ≡ l
unfolding receive_all receive authorized
foreign_changes_nothing trim [] l h = refl
foreign_changes_nothing trim ((none, datagram) ∷ rest) l h = foreign_changes_nothing trim rest l h
foreign_changes_nothing trim ((some sender, datagram) ∷ rest) l h =
    ground (arith, foreign_changes_nothing trim rest l)
