-- ===== src/Logger/Writer.antt =====
-- internal/logger/writer.go: the line buffer of PrefixWriter, its ring of recent lines, and its
-- subscribers. The buffers that it reuses are values here, but for the slots of a subscriber, which
-- its channel refers to by number.
use gopherd.Prelude.Strings.{take, drop, fields_from}
use gopherd.Prelude.{
  ℕ, zero, suc, ◌-◌, ltb, leb, eqb, Text, codes, ◌==◌, text_discrete, Bool, true, false, ◌&&◌, ◌||◌,
  not, Option, none, some, List, [], ◌∷◌, ◌++◌, if◌then◌else◌, length,
}
use gopherd.Logger.{sanitize_keep_colors, sanitize_seq}

abbrev pub default_ring_size : ℕ
default_ring_size = 200

abbrev pub max_buf_size : ℕ
max_buf_size = 1048576

abbrev pub sub_chan_cap : ℕ
sub_chan_cap = 256

abbrev pub sub_buf_ring_size : ℕ
sub_buf_ring_size = 520

pub data Part : Type 0 where
  timestamp service : Part

-- The tokens of a prefix; others are passed over.
unfoldable pub parts_of : List Text → List Part
unfolding text_discrete
parts_of [] = []
parts_of (tok ∷ toks) =
    if tok == codes "timestamp"
    then timestamp ∷ parts_of toks
    else if tok == codes "service"
    then service ∷ parts_of toks
    else parts_of toks

abbrev is_nothing : Text → Bool
is_nothing [] = true
is_nothing (c ∷ s) = false

unfoldable pub parse_prefix_parts : Text → List Part
unfolding parts_of fields_from text_discrete
parse_prefix_parts prefix =
    if prefix == codes "none" || is_nothing prefix then [] else parts_of (fields_from [] prefix)

-- A subscriber: the numbers of the slots that its channel holds, and the slots.
pub record Subscription : Type 0 where
  pub id : ℕ
  pub queued : List ℕ
  pub bufs : ℕ → Text
  pub buf_idx : ℕ

pub record PrefixWriter : Type 0 where
  pub name : Text
  pub parts : List Part
  pub buf : Text
  -- What was written to the destination and to each further target, in order.
  pub dest : List Text
  pub extra : List (ℕ × List Text)
  pub ring : ℕ → Text
  pub ring_pos : ℕ
  pub ring_full : Bool
  pub subs : List Subscription

-- NewPrefixWriter
unfoldable pub new_prefix_writer : (name prefix : Text) → PrefixWriter
unfolding parse_prefix_parts
new_prefix_writer name prefix = record {
  name = name;
  parts = parse_prefix_parts prefix;
  buf = [];
  dest = [];
  extra = [];
  ring = λ i. [];
  ring_pos = 0;
  ring_full = false;
  subs = [];
}

unfoldable pub add_target : ℕ → PrefixWriter → PrefixWriter
add_target id w = record w { extra = w.extra ++ (id, []) ∷ [] }

unfoldable pub clear_targets : PrefixWriter → PrefixWriter
clear_targets w = record w { extra = [] }

unfoldable pub subscribe : ℕ → PrefixWriter → PrefixWriter
subscribe id w = record w {
  subs = w.subs ++ record { id = id; queued = []; bufs = λ i. []; buf_idx = 0 } ∷ [];
}

abbrev drop_sub : ℕ → List Subscription → List Subscription
drop_sub id [] = []
drop_sub id (s ∷ ss) = if eqb s.id id then ss else s ∷ drop_sub id ss

unfoldable pub unsubscribe : ℕ → PrefixWriter → PrefixWriter
unsubscribe id w = record w { subs = drop_sub id w.subs }

-- The prefix in front of a line; `stamp` is the formatted time, with its space.
abbrev prefix_part : (name stamp : Text) → Part → Text
prefix_part name stamp timestamp = stamp
prefix_part name stamp service = b'[' ∷ name ++ b']' ∷ b' ' ∷ []

unfoldable pub prefix_parts : (name stamp : Text) → List Part → Text → Text
prefix_parts name stamp [] line = line
prefix_parts name stamp (p ∷ ps) line = prefix_part name stamp p ++ prefix_parts name stamp ps line

abbrev pub set_slot : (ℕ → Text) → ℕ → Text → ℕ → Text
set_slot ring i line j = if eqb j i then line else ring j

-- The ring, with a line in its next slot.
abbrev pub push_ring : Text → PrefixWriter → PrefixWriter
push_ring line w =
    if leb default_ring_size (suc w.ring_pos)
    then record w { ring = set_slot w.ring w.ring_pos line; ring_pos = 0; ring_full = true }
    else record w { ring = set_slot w.ring w.ring_pos line; ring_pos = suc w.ring_pos }

-- The send to a subscriber: a full channel drops the line, and its slot is taken again.
abbrev pub offer : Text → Subscription → Subscription
offer line s =
    if ltb (length s.queued) sub_chan_cap
    then record s {
      bufs = set_slot s.bufs s.buf_idx line;
      queued = s.queued ++ s.buf_idx ∷ [];
      buf_idx = if leb sub_buf_ring_size (suc s.buf_idx) then 0 else suc s.buf_idx;
    }
    else record s { bufs = set_slot s.bufs s.buf_idx line }

abbrev offer_all : Text → List Subscription → List Subscription
offer_all line [] = []
offer_all line (s ∷ ss) = offer line s ∷ offer_all line ss

abbrev pub write_targets : Text → List (ℕ × List Text) → List (ℕ × List Text)
write_targets line [] = []
write_targets line ((id, out) ∷ ts) = (id, out ++ line ∷ []) ∷ write_targets line ts

-- The writes of a line to the destination and the targets.
unfoldable pub pass_on : Text → Text → PrefixWriter → PrefixWriter
unfolding prefix_parts
pass_on stamp line w =
    let out = prefix_parts w.name stamp w.parts line in
    record w { dest = w.dest ++ out ∷ []; extra = write_targets out w.extra }

-- A whole line: the ring and the subscribers get it without escapes.
unfoldable pub emit : Text → Text → PrefixWriter → PrefixWriter
unfolding pass_on sanitize_seq prefix_parts
emit stamp line w =
    let clean = sanitize_keep_colors (prefix_parts w.name stamp w.parts line) in
    let v = push_ring clean (pass_on stamp line w) in record v { subs = offer_all clean v.subs }

-- The line up to the first newline, with it, and the rest.
unfoldable pub cut_line : Text → Option (Text × Text)
cut_line [] = none
cut_line (b ∷ s) =
    let rest = cut_line s in
    if eqb b b'\n'
    then some (b ∷ [], s)
    else elim rest [ none ↦ none | some (line, t) ↦ some (b ∷ line, t) ]

-- The inner loop of Write over the lines of the buffer; `clock` tells the time of each line by how
-- many bytes are behind it.
abbrev pub drain_with :
    (Text → PrefixWriter → PrefixWriter)
    → (ℕ → Text)
    → PrefixWriter
    → Option (Text × Text)
    → PrefixWriter
drain_with more clock w none = w
drain_with more clock w (some (line, rest)) =
    more rest (emit (clock (length rest)) line (record w { buf = rest }))

unfoldable pub drain : (ℕ → Text) → (fuel : ℕ) → (buf : Text) → PrefixWriter → PrefixWriter
unfolding emit cut_line
drain clock zero buf w = w
drain clock (suc fuel) buf w = drain_with (drain clock fuel) clock w (cut_line buf)

abbrev pub line_end : Option (Text × Text) → ℕ → ℕ
line_end none n = n
line_end (some (line, rest)) n = length line

abbrev pub has_line : Text → Bool
has_line s = elim (cut_line s) [ none ↦ false | some p ↦ true ]

-- The buffer with a newline, if it is full without one.
abbrev pub forced : Text → Text
forced buf = if leb max_buf_size (length buf) && not (has_line buf) then buf ++ b'\n' ∷ [] else buf

-- How much of `p` a round takes: up to the room that is left, and up to a newline.
abbrev pub portion : (room : ℕ) → Text → ℕ
portion room p =
    let n = if ltb (length p) room then length p else room in line_end (cut_line (take n p)) n

-- A round of Write: the new buffer, and what is left of `p`.
unfoldable pub fill_buf : Text → Text → Text × Text
unfolding cut_line
fill_buf buf p =
    let room = max_buf_size - length buf in
    if eqb room 0
    then (buf ++ b'\n' ∷ [], p)
    else let n = portion room p in (forced (buf ++ take n p), drop n p)

-- The outer loop.
unfoldable pub write_loop : (ℕ → ℕ → Text) → (fuel : ℕ) → Text → PrefixWriter → PrefixWriter
unfolding fill_buf drain
write_loop clock fuel [] w = w
write_loop clock zero (b ∷ p) w = w
write_loop clock (suc fuel) (b ∷ p) w =
    let (buf, rest) = fill_buf w.buf (b ∷ p) in
    write_loop clock fuel rest
      (drain (clock (length rest)) (length buf) buf (record w { buf = buf }))

unfoldable pub write : (ℕ → ℕ → Text) → Text → PrefixWriter → PrefixWriter
unfolding write_loop
write clock p w = write_loop clock (suc (length p)) p w

-- Flush: an unfinished line goes to the destination and the targets, and to nothing else.
abbrev pub flush_buf : Text → Text → PrefixWriter → PrefixWriter
flush_buf stamp [] w = w
flush_buf stamp (b ∷ s) w = record (pass_on stamp (b ∷ s) w) { buf = [] }

unfoldable pub flush : Text → PrefixWriter → PrefixWriter
unfolding pass_on
flush stamp w = flush_buf stamp w.buf w

-- The slots from `i` on.
unfoldable pub slots : (ℕ → Text) → ℕ → ℕ → List Text
slots ring i zero = []
slots ring i (suc n) = ring i ∷ slots ring (suc i) n

unfoldable pub recent : PrefixWriter → List Text
unfolding slots
recent w =
    if w.ring_full
    then slots w.ring w.ring_pos (default_ring_size - w.ring_pos) ++ slots w.ring 0 w.ring_pos
    else slots w.ring 0 w.ring_pos
