-- ===== src/Logger/Bounds.antt =====
-- Write of a PrefixWriter: its buffer stays below the cap, and its loop always comes to an end.
use gopherd.Prelude.Strings.{take, drop}
use gopherd.Prelude.{
  ℕ, zero, suc, ◌+◌, ◌-◌, ◌≤◌, ◌<◌, ltb, leb, eqb, Text, Bool, true, false, ◌&&◌, not, Option, none,
  some, [], ◌∷◌, ◌++◌, if◌then◌else◌, length, length-append, ◌≡◌, refl, sym, ap, subst, arith,
}
use gopherd.Logger.Writer.{
  PrefixWriter, max_buf_size, emit, cut_line, drain_with, drain, line_end, portion, forced,
  has_line, fill_buf, write_loop, write,
}
use gopherd.Logger.Stream.{emit-dest, CutsAt, cut_line-CutsAt, length-drop-lt, portion-positive}

-- A drain leaves a buffer that is no longer, and shorter if there was a line.
drain-le :
    (clock : ℕ → Text) (fuel : ℕ) (buf : Text) (w : PrefixWriter)
    → w.buf ≡ buf
    → length (drain clock fuel buf w).buf ≤ length buf
unfolding drain
drain-le clock zero buf w e = omega (arith, ap length e)
drain-le clock (suc fuel) buf w e =
    split (cut_line buf) (cut_line-CutsAt buf) (λ rest v q. drain-le clock fuel rest v q)
  where
    split :
        (o : Option (Text × Text))
        → CutsAt buf o
        → ((rest : Text) (v : PrefixWriter)
            → v.buf ≡ rest
            → length (drain clock fuel rest v).buf ≤ length rest)
        → length (drain_with (drain clock fuel) clock w o).buf ≤ length buf
    split none c more = omega (arith, ap length e)
    split (some (line, rest)) (q, l, r) more = omega (
      arith,
      r,
      more rest (emit (clock (length rest)) line (record w { buf = rest }))
          (emit-dest (clock (length rest)) line (record w { buf = rest })).1,
    )

drain-lt :
    (clock : ℕ → Text) (fuel : ℕ) (buf : Text) (w : PrefixWriter)
    → w.buf ≡ buf
    → has_line buf ≡ true
    → length (drain clock (suc fuel) buf w).buf < length buf
unfolding drain
drain-lt clock fuel buf w e h = split (cut_line buf) (cut_line-CutsAt buf) h
  where
    split :
        (o : Option (Text × Text))
        → CutsAt buf o
        → elim o [ none ↦ false | some p ↦ true ] ≡ true
        → length (drain_with (drain clock fuel) clock w o).buf < length buf
    split none c k = absurd (ground arith)
    split (some (line, rest)) (q, l, r) k = omega (
      arith,
      l,
      ap length q,
      length-append line rest,
      drain-le clock fuel rest (emit (clock (length rest)) line (record w { buf = rest }))
          (emit-dest (clock (length rest)) line (record w { buf = rest })).1,
    )

-- The text is empty or ends in a newline.
abbrev whole : Text → Bool
whole [] = true
whole (c ∷ []) = eqb c b'\n'
whole (c ∷ d ∷ s) = whole (d ∷ s)

whole_append : (s : Text) → whole (s ++ b'\n' ∷ []) ≡ true
whole_append [] = refl
whole_append (c ∷ []) = refl
whole_append (c ∷ d ∷ s) = whole_append (d ∷ s)

abbrev CutsWhole : Option (Text × Text) → Type 0
CutsWhole none = ⊥
CutsWhole (some (line, rest)) = whole rest ≡ true

cut_line-CutsWhole : (c : ℕ) (s : Text) → whole (c ∷ s) ≡ true → CutsWhole (cut_line (c ∷ s))
unfolding cut_line
cut_line-CutsWhole c [] h = rw h refl
cut_line-CutsWhole c (d ∷ s) h = split (eqb c b'\n') (cut_line (d ∷ s)) (cut_line-CutsWhole d s h)
  where
    split :
        (e : Bool) (o : Option (Text × Text))
        → CutsWhole o
        → CutsWhole (
            if e
            then some (c ∷ [], d ∷ s)
            else elim o [ none ↦ none | some (line, t) ↦ some (c ∷ line, t) ])
    split true o k = h
    split false none k = absurd k
    split false (some (line, t)) k = k

drain-whole :
    (clock : ℕ → Text) (fuel : ℕ) (buf : Text) (w : PrefixWriter)
    → w.buf ≡ buf
    → whole buf ≡ true
    → length buf ≤ fuel
    → (drain clock fuel buf w).buf ≡ []
unfolding drain cut_line
drain-whole clock zero [] w e h l = e
drain-whole clock (suc fuel) [] w e h l = e
drain-whole clock zero (c ∷ s) w e h l = absurd (omega arith)
drain-whole clock (suc fuel) (c ∷ s) w e h l =
    split (cut_line (c ∷ s)) (cut_line-CutsWhole c s h) (cut_line-CutsAt (c ∷ s))
      (λ rest v q k m. drain-whole clock fuel rest v q k m)
  where
    split :
        (o : Option (Text × Text))
        → CutsWhole o
        → CutsAt (c ∷ s) o
        → ((rest : Text) (v : PrefixWriter)
            → v.buf ≡ rest
            → whole rest ≡ true
            → length rest ≤ fuel
            → (drain clock fuel rest v).buf ≡ [])
        → (drain_with (drain clock fuel) clock w o).buf ≡ []
    split none k c more = absurd k
    split (some (line, rest)) k (q, p, r) more =
        more rest (emit (clock (length rest)) line (record w { buf = rest }))
          (emit-dest (clock (length rest)) line (record w { buf = rest })).1 k
          (omega (arith, p, l, ap length q, length-append line rest))

-- A buffer that is at most full is below the cap when it is drained.
drain-forced :
    (clock : ℕ → Text) (buf : Text) (w : PrefixWriter)
    → length buf ≤ max_buf_size
    → length (drain clock (length (forced buf)) (forced buf) (record w { buf = forced buf })).buf
      < max_buf_size
drain-forced clock buf w h = split (leb max_buf_size (length buf)) (has_line buf) refl refl
  where
    split :
        (full line : Bool)
        → leb max_buf_size (length buf) ≡ full
        → has_line buf ≡ line
        → length
            (drain clock
              (length (if full && not line then buf ++ b'\n' ∷ [] else buf))
              (if full && not line then buf ++ b'\n' ∷ [] else buf)
              (record w { buf = if full && not line then buf ++ b'\n' ∷ [] else buf })).buf
          < max_buf_size
    split false line f k =
        omega (arith, below f, drain-le clock (length buf) buf (record w { buf = buf }) refl)
      where
        below : leb max_buf_size (length buf) ≡ false → length buf < max_buf_size
        below f = ground arith
    split true true f k =
        let exact : length buf ≡ suc (max_buf_size - 1) = ground arith in
        let shorter = drain-lt clock (max_buf_size - 1) buf (record w { buf = buf }) refl k in
        subst (λ n. length (drain clock n buf (record w { buf = buf })).buf < max_buf_size)
          (sym exact) (omega (arith, h, shorter))
    split true false f k = omega (
      arith,
      ap length (
          drain-whole clock (length (buf ++ b'\n' ∷ [])) (buf ++ b'\n' ∷ [])
            (record w { buf = buf ++ b'\n' ∷ [] }) refl (whole_append buf) (omega arith)),
    )

length-take-le : (n : ℕ) (s : Text) → length (take n s) ≤ n
length-take-le zero s = omega arith
length-take-le (suc n) [] = omega arith
length-take-le (suc n) (b ∷ s) = omega (arith, length-take-le n s)

portion-le : (room : ℕ) (p : Text) → portion room p ≤ room
portion-le room p =
    let n = if ltb (length p) room then length p else room in
    split n (cut_line (take n p)) (cut_line-CutsAt (take n p)) (length-take-le n p) (ground arith)
  where
    split :
        (n : ℕ) (o : Option (Text × Text))
        → CutsAt (take n p) o
        → length (take n p) ≤ n
        → n ≤ room
        → line_end o n ≤ room
    split n none c l k = k
    split n (some (line, rest)) (e, l', r) l k =
        omega (arith, l, k, ap length e, length-append line rest)

-- A round with room: it takes a byte at least, and fills the buffer up to the cap at most.
fill_room :
    (buf : Text) (b : ℕ) (s : Text)
    → length buf < max_buf_size
    → (n : ℕ) × (1 ≤ n)
      × (length (buf ++ take n (b ∷ s)) ≤ max_buf_size)
      × (fill_buf buf (b ∷ s) ≡ (forced (buf ++ take n (b ∷ s)), drop n (b ∷ s)))
unfolding fill_buf
fill_room buf b s h =
    let room = max_buf_size - length buf in
    let n = portion room (b ∷ s) in
    let roomy : eqb (max_buf_size - length buf) 0 ≡ false = ground arith in
    (
      n,
      portion-positive room b s (omega (arith, h)),
      omega (
        arith,
        h,
        length-append buf (take n (b ∷ s)),
        length-take-le n (b ∷ s),
        portion-le room (b ∷ s),
      ),
      rw roomy refl,
    )

-- Both results of a round, as the loop goes on with them.
abbrev after_round : (ℕ → ℕ → Text) → PrefixWriter → Text × Text → PrefixWriter
after_round clock w r = drain (clock (length r.1)) (length r.0) r.0 (record w { buf = r.0 })

Settled : (ℕ → ℕ → Text) → ℕ → ℕ → Text → PrefixWriter → Type 0
Settled clock f g p w =
    (length (write_loop clock f p w).buf < max_buf_size)
    × (write_loop clock f p w ≡ write_loop clock g p w)

write_loop-Settled :
    (clock : ℕ → ℕ → Text) (f g : ℕ) (p : Text) (w : PrefixWriter)
    → length p ≤ f
    → length p ≤ g
    → length w.buf < max_buf_size
    → Settled clock f g p w
unfolding write_loop Settled
write_loop-Settled clock f g [] w a b h = (h, refl)
write_loop-Settled clock zero g (c ∷ s) w a b h = absurd (omega arith)
write_loop-Settled clock (suc f) zero (c ∷ s) w a b h = absurd (omega arith)
write_loop-Settled clock (suc f) (suc g) (c ∷ s) w a b h =
    let (n, taken, full, filled) = fill_room w.buf c s h in
    subst (λ (r : Text × Text). Settled clock f g r.1 (after_round clock w r)) (sym filled)
      (write_loop-Settled clock f g (drop n (c ∷ s))
        (after_round clock w (forced (w.buf ++ take n (c ∷ s)), drop n (c ∷ s)))
        (omega (arith, a, length-drop-lt n c s taken))
        (omega (arith, b, length-drop-lt n c s taken))
        (drain-forced (clock (length (drop n (c ∷ s)))) (w.buf ++ take n (c ∷ s)) w full))

-- Whatever is written to a buffer below a mebibyte, Write leaves it below a mebibyte, and its loop
-- ends within its fuel: with any more fuel the result is the same.
pub write-IsBounded :
    (clock : ℕ → ℕ → Text) (p : Text) (w : PrefixWriter) (more : ℕ)
    → length w.buf < max_buf_size
    → (length (write clock p w).buf < max_buf_size)
      × (write clock p w ≡ write_loop clock (suc (length p) + more) p w)
unfolding write Settled
write-IsBounded clock p w more h =
    write_loop-Settled clock (suc (length p)) (suc (length p) + more) p w (omega arith)
      (omega arith) h
