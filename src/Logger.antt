-- ===== src/Logger.antt =====
-- internal/logger/target.go: control bytes and escape sequences are stripped from what services log.
pub mod Clean
pub mod Writer
pub mod Recent
pub mod Stream
pub mod Bounds
pub mod Rotate
mod Samples
use gopherd.Prelude.Strings.{take, drop}
use gopherd.Prelude.{
  ℕ, zero, suc, ◌+◌, ◌-◌, ◌≤◌, ltb, leb, eqb, Text, Bool, true, false, ◌&&◌, ◌||◌, not, Option,
  none, some, List, [], ◌∷◌, ◌++◌, if◌then◌else◌, length,
}

-- A byte that is kept: no control byte, or a newline or a tab.
abbrev pub is_plain : ℕ → Bool
is_plain b = leb 0x20 b || (eqb b b'\n' || eqb b b'\t')

abbrev pub escape_byte : ℕ
escape_byte = 0x1b

abbrev is_sgr_param : ℕ → Bool
is_sgr_param b = (leb b'0' b && leb b b'9') || (eqb b b';' || eqb b b':')

-- The loops of ansiSeqLen, from the third byte on: how many bytes more belong to the sequence, and
-- whether it is one of colors.
unfoldable pub csi_len : (sgr : Bool) → Text → ℕ × Bool
csi_len sgr [] = (0, false)
csi_len sgr (b ∷ s) =
    let (n, color) = csi_len sgr s in
    let (m, other) = csi_len false s in
    if leb 0x40 b && leb b 0x7e
    then (1, sgr && eqb b b'm')
    else if is_sgr_param b
    then (suc n, color)
    else if ltb b 0x20
    then (0, false)
    else (suc m, other)

abbrev begins_with : ℕ → Text → Bool
begins_with b [] = false
begins_with b (c ∷ s) = eqb c b

unfoldable pub osc_len : Text → ℕ
osc_len [] = 0
osc_len (b ∷ s) =
    let n = osc_len s in
    if eqb b 0x07
    then 1
    else if eqb b escape_byte
    then (if begins_with b'\\' s then 2 else 0)
    else if ltb b 0x20 && not (eqb b b'\t')
    then 0
    else suc n

-- The rest of any other sequence, from the second byte on.
unfoldable pub short_len : Text → ℕ
short_len [] = 0
short_len (b ∷ s) =
    let n = short_len s in
    if leb 0x20 b && leb b 0x2f then suc n else if leb 0x30 b && leb b 0x7e then 1 else 0

-- ansiSeqLen of a text that begins with an escape byte, from the second byte on.
unfoldable pub seq_len : (csi osc : Bool) → ℕ → Text → ℕ × Bool
unfolding csi_len osc_len short_len
seq_len true osc b s = (2 + (csi_len true s).0, (csi_len true s).1)
seq_len false true b s = (2 + osc_len s, false)
seq_len false false b s = (1 + short_len (b ∷ s), false)

unfoldable pub ansi_seq_len : Text → ℕ × Bool
unfolding seq_len
ansi_seq_len [] = (1, false)
ansi_seq_len (b ∷ s) = seq_len (eqb b b'[') (eqb b b']') b s

-- The loop of sanitizeSeq. A sequence goes on behind its escape byte.
unfoldable pub clean_from : (keep_sgr : Bool) → (fuel : ℕ) → Text → Text
unfolding ansi_seq_len
clean_from keep fuel [] = []
clean_from keep zero (b ∷ s) = []
clean_from keep (suc fuel) (b ∷ s) =
    let (n, sgr) = ansi_seq_len s in
    let behind = clean_from keep fuel (drop n (b ∷ s)) in
    let rest = clean_from keep fuel s in
    if is_plain b
    then b ∷ rest
    else if eqb b escape_byte
    then (if keep && sgr then take n (b ∷ s) ++ behind else behind)
    else rest

-- The bytes in front of the first bad one, and those from there on.
unfoldable pub split_plain : Text → Text × Text
split_plain [] = ([], [])
split_plain (b ∷ s) =
    let (good, rest) = split_plain s in if is_plain b then (b ∷ good, rest) else ([], b ∷ s)

unfoldable pub sanitize_seq : (keep_sgr : Bool) → Text → Text
unfolding split_plain clean_from
sanitize_seq keep s = let (good, rest) = split_plain s in good ++ clean_from keep (length rest) rest

abbrev pub sanitize : Text → Text
sanitize s = sanitize_seq false s

abbrev pub sanitize_keep_colors : Text → Text
sanitize_keep_colors s = sanitize_seq true s
