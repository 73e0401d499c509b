-- ===== src/Logger/Stream.antt =====
-- Write of a PrefixWriter without a prefix: it passes on what it gets, byte by byte.
use gopherd.Prelude.Strings.{take, drop}
use gopherd.Prelude.{
  ℕ, zero, suc, ◌+◌, ◌-◌, ◌≤◌, ◌<◌, ltb, eqb, Text, Bool, true, false, Option, none, some, List, [],
  ◌∷◌, ◌++◌, if◌then◌else◌, length, length-append, ◌≡◌, refl, sym, ◌∙◌, ap, subst, arith,
}
use gopherd.Logger.Writer.{
  PrefixWriter, max_buf_size, Part, prefix_parts, pass_on, emit, cut_line, drain_with, drain,
  line_end, portion, forced, fill_buf, write_loop, write, flush, flush_buf,
}

abbrev pub flat : List Text → Text
flat [] = []
flat (s ∷ ss) = s ++ flat ss

-- What the destination has, and what waits for the end of its line.
abbrev pub content : PrefixWriter → Text
content w = flat w.dest ++ w.buf

append_assoc : (s t u : Text) → (s ++ t) ++ u ≡ s ++ (t ++ u)
append_assoc [] t u = refl
append_assoc (b ∷ s) t u = ap (λ r. b ∷ r) (append_assoc s t u)

append_nil : (s : Text) → s ++ [] ≡ s
append_nil [] = refl
append_nil (b ∷ s) = ap (λ r. b ∷ r) (append_nil s)

flat-append : (ss : List Text) (s : Text) → flat (ss ++ s ∷ []) ≡ flat ss ++ s
flat-append [] s = append_nil s
flat-append (t ∷ ss) s = ap (λ r. t ++ r) (flat-append ss s) ∙ sym (append_assoc t (flat ss) s)

take-drop : (n : ℕ) (s : Text) → take n s ++ drop n s ≡ s
take-drop zero s = refl
take-drop (suc n) [] = refl
take-drop (suc n) (b ∷ s) = ap (λ r. b ∷ r) (take-drop n s)

-- A cut keeps all bytes, and the line has one at least.
abbrev pub CutsAt : Text → Option (Text × Text) → Type 0
CutsAt s none = Unit
CutsAt s (some (line, rest)) = (s ≡ line ++ rest) × (1 ≤ length line) × (length rest ≤ length s)

pub cut_line-CutsAt : (s : Text) → CutsAt s (cut_line s)
unfolding cut_line
cut_line-CutsAt [] = tt
cut_line-CutsAt (b ∷ s) = split (eqb b b'\n') (cut_line s) (cut_line-CutsAt s)
  where
    split :
        (e : Bool) (o : Option (Text × Text))
        → CutsAt s o
        → CutsAt (b ∷ s) (
            if e
            then some (b ∷ [], s)
            else elim o [ none ↦ none | some (line, t) ↦ some (b ∷ line, t) ])
    split true o h = (refl, omega arith, omega arith)
    split false none h = tt
    split false (some (line, t)) (e, l, r) = (ap (λ x. b ∷ x) e, omega arith, omega (arith, r))

-- A state that has the same content, no prefix and no longer a buffer.
abbrev Passes : PrefixWriter → PrefixWriter → Type 0
Passes w v = (content v ≡ content w) × (v.parts ≡ []) × (length v.buf ≤ length w.buf)

prefix_parts_none :
    (name stamp : Text) (parts : List Part) (line : Text)
    → parts ≡ []
    → prefix_parts name stamp parts line ≡ line
unfolding prefix_parts
prefix_parts_none name stamp [] line h = refl
prefix_parts_none name stamp (p ∷ ps) line h = absurd (cc)

pub emit-dest :
    (stamp line : Text) (w : PrefixWriter)
    → ((emit stamp line w).dest ≡ w.dest ++ prefix_parts w.name stamp w.parts line ∷ [])
      × ((emit stamp line w).buf ≡ w.buf)
      × ((emit stamp line w).parts ≡ w.parts)
unfolding emit pass_on
emit-dest stamp line w = (ground arith, ground arith, ground arith)

emit-Passes :
    (stamp line rest : Text) (w : PrefixWriter)
    → w.parts ≡ []
    → w.buf ≡ line ++ rest
    → Passes w (emit stamp line (record w { buf = rest }))
emit-Passes stamp line rest w h e =
    let (dest, buf, parts) = emit-dest stamp line (record w { buf = rest }) in
    (
      ap (λ ss. flat ss ++ (emit stamp line (record w { buf = rest })).buf) dest
          ∙ ap (λ s. flat (w.dest ++ prefix_parts w.name stamp w.parts line ∷ []) ++ s) buf
          ∙ ap (λ s. flat (w.dest ++ s ∷ []) ++ rest)
              (prefix_parts_none w.name stamp w.parts line h)
          ∙ ap (λ s. s ++ rest) (flat-append w.dest line)
          ∙ append_assoc (flat w.dest) line rest
          ∙ ap (λ s. flat w.dest ++ s) (sym e),
      parts ∙ h,
      omega (arith, ap length buf, ap length e, length-append line rest),
    )

drain-Passes :
    (clock : ℕ → Text) (fuel : ℕ) (buf : Text) (w : PrefixWriter)
    → w.parts ≡ []
    → w.buf ≡ buf
    → Passes w (drain clock fuel buf w)
unfolding drain
drain-Passes clock zero buf w h e = (refl, h, omega arith)
drain-Passes clock (suc fuel) buf w h e =
    split (cut_line buf) (cut_line-CutsAt buf) (λ rest v k q. drain-Passes clock fuel rest v k q)
  where
    split :
        (o : Option (Text × Text))
        → CutsAt buf o
        → ((rest : Text) (v : PrefixWriter)
            → v.parts ≡ []
            → v.buf ≡ rest
            → Passes v (drain clock fuel rest v))
        → Passes w (drain_with (drain clock fuel) clock w o)
    split none c more = (refl, h, omega arith)
    split (some (line, rest)) (q, l, r) more =
        let v = emit (clock (length rest)) line (record w { buf = rest }) in
        let (same, none', shorter) = emit-Passes (clock (length rest)) line rest w h (e ∙ q) in
        let (same', none'', shorter') =
          more rest v none' (emit-dest (clock (length rest)) line (record w { buf = rest })).1 in
        (same' ∙ same, none'', omega (arith, shorter, shorter'))

pub length-take-drop : (n : ℕ) (s : Text) → length (take n s) + length (drop n s) ≡ length s
length-take-drop n s = sym (length-append (take n s) (drop n s)) ∙ ap length (take-drop n s)

pub length-drop-lt : (n b : ℕ) (s : Text) → 1 ≤ n → length (drop n (b ∷ s)) ≤ length s
length-drop-lt zero b s h = absurd (omega arith)
length-drop-lt (suc n) b s h = omega (arith, length-take-drop n s)

-- A round takes a byte at least.
pub portion-positive : (room b : ℕ) (s : Text) → 1 ≤ room → 1 ≤ portion room (b ∷ s)
portion-positive room b s h =
    let n = if ltb (length (b ∷ s)) room then length (b ∷ s) else room in
    split (cut_line (take n (b ∷ s))) (cut_line-CutsAt (take n (b ∷ s))) (ground arith)
  where
    split :
        {n : ℕ} (o : Option (Text × Text)) → CutsAt (take n (b ∷ s)) o → 1 ≤ n → 1 ≤ line_end o n
    split none c k = k
    split (some (line, rest)) (e, l, r) k = l

pub forced_fits : (buf : Text) → length buf < max_buf_size → forced buf ≡ buf
forced_fits buf h = ground arith

-- With room for all of `p` no newline is added.
fill_buf_plain :
    (buf : Text) (b : ℕ) (s : Text)
    → length buf + length (b ∷ s) < max_buf_size
    → (n : ℕ) × (1 ≤ n) × (fill_buf buf (b ∷ s) ≡ (buf ++ take n (b ∷ s), drop n (b ∷ s)))
unfolding fill_buf
fill_buf_plain buf b s h =
    let room = max_buf_size - length buf in
    let n = portion room (b ∷ s) in
    let fits : length (buf ++ take n (b ∷ s)) < max_buf_size =
      omega (arith, h, length-append buf (take n (b ∷ s)), length-take-drop n (b ∷ s)) in
    let roomy : eqb (max_buf_size - length buf) 0 ≡ false = ground arith in
    (
      n,
      portion-positive room b s (omega (arith, h)),
      rw roomy (ap (λ x. (x, drop n (b ∷ s))) (forced_fits (buf ++ take n (b ∷ s)) fits)),
    )

write_loop-content :
    (clock : ℕ → ℕ → Text) (fuel : ℕ) (p : Text) (w : PrefixWriter)
    → w.parts ≡ []
    → length p ≤ fuel
    → length w.buf + length p < max_buf_size
    → (content (write_loop clock fuel p w) ≡ content w ++ p)
      × ((write_loop clock fuel p w).parts ≡ [])
unfolding write_loop
write_loop-content clock fuel [] w h l room = (sym (append_nil (content w)), h)
write_loop-content clock zero (b ∷ s) w h l room = absurd (omega arith)
write_loop-content clock (suc fuel) (b ∷ s) w h l room =
    let (n, taken, filled) = fill_buf_plain w.buf b s room in
    subst
      (λ (r : Text × Text).
        (content (
            write_loop clock fuel r.1
              (drain (clock (length r.1)) (length r.0) r.0 (record w { buf = r.0 })))
          ≡ content w ++ (b ∷ s))
        × ((write_loop clock fuel r.1
              (drain (clock (length r.1)) (length r.0) r.0 (record w { buf = r.0 }))).parts
            ≡ []))
      (sym filled)
      (let buf = w.buf ++ take n (b ∷ s) in
        let v = drain (clock (length (drop n (b ∷ s)))) (length buf) buf (record w { buf = buf }) in
        let (same, parts, shorter) =
          drain-Passes (clock (length (drop n (b ∷ s)))) (length buf) buf (record w { buf = buf }) h
            refl in
        let (rest, parts') =
          write_loop-content clock fuel (drop n (b ∷ s)) v parts
            (omega (arith, l, length-drop-lt n b s taken))
            (omega (
              arith,
              room,
              shorter,
              length-append w.buf (take n (b ∷ s)),
              length-take-drop n (b ∷ s),
            )) in
        (
          rest
              ∙ ap (λ x. x ++ drop n (b ∷ s)) same
              ∙ append_assoc (flat w.dest) buf (drop n (b ∷ s))
              ∙ ap (λ x. flat w.dest ++ x)
                  (append_assoc w.buf (take n (b ∷ s)) (drop n (b ∷ s))
                    ∙ ap (λ x. w.buf ++ x) (take-drop n (b ∷ s)))
              ∙ sym (append_assoc (flat w.dest) w.buf (b ∷ s)),
          parts',
        ))

flush_buf-dest :
    (stamp buf : Text) (w : PrefixWriter)
    → w.parts ≡ []
    → w.buf ≡ buf
    → flat (flush_buf stamp buf w).dest ≡ content w
unfolding pass_on
flush_buf-dest stamp [] w h e = sym (ap (λ s. flat w.dest ++ s) e ∙ append_nil (flat w.dest))
flush_buf-dest stamp (b ∷ s) w h e =
    ap (λ x. flat (w.dest ++ x ∷ [])) (prefix_parts_none w.name stamp w.parts (b ∷ s) h)
    ∙ flat-append w.dest (b ∷ s)
    ∙ ap (λ x. flat w.dest ++ x) (sym e)

-- Without a prefix, and as long as what is buffered and what is written stay below a mebibyte
-- together, Write followed by Flush gives the destination exactly the bytes that were buffered and
-- those that are written, behind what it had: none is lost, added or moved.
pub flush-write :
    (clock : ℕ → ℕ → Text) (stamp p : Text) (w : PrefixWriter)
    → w.parts ≡ []
    → length w.buf + length p < max_buf_size
    → flat (flush stamp (write clock p w)).dest ≡ flat w.dest ++ (w.buf ++ p)
unfolding flush write
flush-write clock stamp p w h room =
    let (same, parts) = write_loop-content clock (suc (length p)) p w h (omega arith) room in
    flush_buf-dest stamp (write clock p w).buf (write clock p w) parts refl
    ∙ same
    ∙ append_assoc (flat w.dest) w.buf p
