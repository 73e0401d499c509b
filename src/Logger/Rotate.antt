-- ===== src/Logger/Rotate.antt =====
-- internal/logger/rotate.go: a log file, and its rotation to numbered files. A compressed file is
-- given by the text that it unpacks to. What the file system answers is an argument.
use gopherd.Prelude.Strings.{take}
use gopherd.Prelude.{
  ℕ, zero, suc, ◌+◌, ◌-◌, ◌≤◌, ◌<◌, ltb, leb, eqb, Text, Bool, true, false, ◌&&◌, not, Option, none,
  some, [], ◌++◌, if◌then◌else◌, length, ◌≡◌, refl, sym, ◌∙◌, subst, arith, Bool-cases, inl, inr,
  ◌≢◌,
}
use gopherd.Logger.{sanitize, sanitize_seq}

-- The files with a number, of one naming scheme: <path>.i, or <path>.i.gz.
abbrev pub Numbered : Type 0
Numbered = ℕ → Option Text

pub record FileWriter : Type 0 where
  pub current : Option Text
  pub plain : Numbered
  pub gz : Numbered
  pub open_file : Bool
  pub size : ℕ
  pub max_size : ℕ
  pub max_files : ℕ
  pub compress : Bool

-- Which calls succeed: the check of the directories, each rename, the compression, the creation of
-- the new file; and how many bytes a write takes, with whether it succeeds.
pub record FileSystem : Type 0 where
  pub ancestors_ok : Bool
  pub rename_gz : ℕ → Bool
  pub rename_plain : ℕ → Bool
  pub rename_current : Bool
  pub gzip_ok : Bool
  pub reopen_ok : Bool
  pub accepted : ℕ
  pub write_ok : Bool

abbrev pub set_file : Numbered → ℕ → Option Text → Numbered
set_file files i content j = if eqb j i then content else files j

-- A rename of file i to i + 1, if there is one.
abbrev pub shift_one : (ok : Bool) → ℕ → Numbered → Option Text → Numbered
shift_one ok i files none = files
shift_one false i files (some s) = files
shift_one true i files (some s) = set_file (set_file files (suc i) (some s)) i none

-- The loop of rotate, from file n down to file 1.
unfoldable pub shift_down : (ok : ℕ → Bool) → (n : ℕ) → Numbered → Numbered
shift_down ok zero files = files
shift_down ok (suc n) files = shift_down ok n (shift_one (ok (suc n)) (suc n) files (files (suc n)))

-- The numbered files of a scheme, with the oldest dropped and the others shifted.
abbrev pub shifted : (ok : ℕ → Bool) → (max_files : ℕ) → Numbered → Numbered
shifted ok n files = shift_down ok (n - 1) (set_file files n none)

abbrev create : FileSystem → FileWriter → FileWriter × Bool
create fs w =
    if fs.reopen_ok
    then (record w { current = some []; open_file = true; size = 0 }, true)
    else (w, false)

abbrev pack : FileSystem → Option Text → FileWriter → FileWriter
pack fs content w =
    if w.compress && fs.gzip_ok
    then record w { gz = set_file w.gz 1 content; plain = set_file w.plain 1 none }
    else w

abbrev move_current : FileSystem → FileWriter → FileWriter × Bool
move_current fs w =
    if not fs.rename_current
    then (w, false)
    else create fs
        (pack fs w.current (record w { plain = set_file w.plain 1 w.current; current = none }))

-- rotate, with whether it succeeds. The file is closed from the begin on.
unfoldable pub rotate : FileSystem → FileWriter → FileWriter × Bool
unfolding shift_down
rotate fs w =
    if not fs.ancestors_ok
    then (w, false)
    else move_current fs (record w {
      open_file = false;
      plain = shifted fs.rename_plain w.max_files w.plain;
      gz = shifted fs.rename_gz w.max_files w.gz;
    })

abbrev pub append_to : Option Text → Text → Option Text
append_to none s = none
append_to (some old) s = some (old ++ s)

-- The rest of Write: what the file takes is counted.
abbrev put : FileSystem → Text → FileWriter → FileWriter × Bool
put fs clean w = if not w.open_file then (w, false) else (
  record w { current = append_to w.current (take fs.accepted clean); size = w.size + fs.accepted },
  fs.write_ok,
)

abbrev pub overflows : Text → FileWriter → Bool
overflows clean w = ltb 0 w.max_size && (ltb 0 w.size && ltb w.max_size (w.size + length clean))

-- Write. A rotation that fails is logged, and the line still written if the file is open.
unfoldable pub write_file : FileSystem → Text → FileWriter → FileWriter × Bool
unfolding rotate sanitize_seq
write_file fs p w =
    let clean = sanitize p in put fs clean (if overflows clean w then (rotate fs w).0 else w)

-- Each file of a scheme has moved up by one, the oldest is gone, and number 1 is free.
abbrev pub MovedUp : (n : ℕ) → Numbered → Numbered → Type 0
MovedUp n old new =
    (new 1 ≡ none)
    × ((i : ℕ) → 1 ≤ i → i < n → new (suc i) ≡ old i)
    × ((i : ℕ) → n < i → new i ≡ old i)

leb-true : (i n : ℕ) → leb i n ≡ true → i ≤ n
leb-true i n h = ground arith

set_other :
    (files : Numbered) (i : ℕ) (o : Option Text) (j : ℕ) → j ≢ i → set_file files i o j ≡ files j
set_other files i o j h = ground arith

shift_one-moves :
    (i : ℕ) (files : Numbered) (o : Option Text)
    → files i ≡ o
    → files (suc i) ≡ none
    → (shift_one true i files o i ≡ none)
      × (shift_one true i files o (suc i) ≡ o)
      × ((j : ℕ) → j ≢ i → j ≢ suc i → shift_one true i files o j ≡ files j)
shift_one-moves i files none e free = (e, free, λ j a b. refl)
shift_one-moves i files (some s) e free = (ground arith, ground arith, λ j a b. ground arith)

shift_down-moves :
    (ok : ℕ → Bool) (n : ℕ) (files : Numbered)
    → ((i : ℕ) → ok i ≡ true)
    → files (suc n) ≡ none
    → (shift_down ok n files 1 ≡ none)
      × ((i : ℕ) → 1 ≤ i → i ≤ n → shift_down ok n files (suc i) ≡ files i)
      × ((i : ℕ) → suc n < i → shift_down ok n files i ≡ files i)
unfolding shift_down
shift_down-moves ok zero files all free = (free, λ i a b. absurd (omega arith), λ i a. refl)
shift_down-moves ok (suc n) files all free =
    let moved = shift_one (ok (suc n)) (suc n) files (files (suc n)) in
    let (gone, arrived, others) =
      subst
        (λ b.
          (shift_one b (suc n) files (files (suc n)) (suc n) ≡ none)
          × (shift_one b (suc n) files (files (suc n)) (suc (suc n)) ≡ files (suc n))
          × ((j : ℕ)
              → j ≢ suc n
              → j ≢ suc (suc n)
              → shift_one b (suc n) files (files (suc n)) j ≡ files j))
        (sym (all (suc n))) (shift_one-moves (suc n) files (files (suc n)) refl free) in
    let (first, up, rest) = shift_down-moves ok n moved all gone in
    (
      first,
      λ i a b. elim (Bool-cases (leb i n)) [
        | inl small ↦
            up i a (ground arith)
            ∙ others i (omega (arith, leb-true i n small)) (omega (arith, leb-true i n small))
        | inr last ↦
            let same : i ≡ suc n = ground arith in
            subst (λ k. shift_down ok n moved (suc k) ≡ files k) (sym same)
              (rest (suc (suc n)) (omega arith) ∙ arrived)
      ],
      λ i a. rest i (omega (arith, a)) ∙ others i (omega (arith, a)) (omega (arith, a)),
    )

shifted-MovedUp :
    (ok : ℕ → Bool) (n : ℕ) (files : Numbered)
    → 1 ≤ n
    → ((i : ℕ) → ok i ≡ true)
    → MovedUp n files (shifted ok n files)
shifted-MovedUp ok zero files h all = absurd (omega arith)
shifted-MovedUp ok (suc n) files h all =
    let (first, up, rest) =
      shift_down-moves ok n (set_file files (suc n) none) all (ground arith) in
    subst (λ k. MovedUp (suc n) files (shift_down ok k (set_file files (suc n) none))) (omega arith)
      (
        first,
        λ i a b. up i a (omega (arith, b)) ∙ set_other files (suc n) none i (omega (arith, b)),
        λ i a. rest i (omega (arith, a)) ∙ set_other files (suc n) none i (omega (arith, a)),
      )

-- All calls of a rotation succeed.
abbrev pub AllSucceed : FileSystem → Type 0
AllSucceed fs =
    (fs.ancestors_ok ≡ true)
    × (fs.rename_current ≡ true)
    × (fs.gzip_ok ≡ true)
    × (fs.reopen_ok ≡ true)
    × ((i : ℕ) → fs.rename_plain i ≡ true)
    × ((i : ℕ) → fs.rename_gz i ≡ true)

-- The log is file 1, compressed if that is asked for, and file i is now file i + 1.
abbrev pub IsRotated : FileWriter → FileWriter → Type 0
IsRotated w v =
    (v.current ≡ some [])
    × (v.open_file ≡ true)
    × (v.size ≡ 0)
    × (v.plain 1 ≡ (if w.compress then none else w.current))
    × (v.gz 1 ≡ (if w.compress then w.current else none))
    × ((i : ℕ) → 1 ≤ i → i < w.max_files → (v.plain (suc i) ≡ w.plain i) × (v.gz (suc i) ≡ w.gz i))

-- If all its calls succeed and at least one file is to be kept, a rotation succeeds: the log becomes
-- file 1, compressed if that is asked for, a new and empty log is open, and each file of both naming
-- schemes below the oldest moves up by one with its content.
pub rotate-IsRotated :
    (fs : FileSystem) (w : FileWriter)
    → AllSucceed fs
    → 1 ≤ w.max_files
    → ((rotate fs w).1 ≡ true) × IsRotated w (rotate fs w).0
unfolding rotate
rotate-IsRotated fs w (a, c, g, r, p, z) h =
    let (plain_first, plain_up, plain_rest) =
      shifted-MovedUp fs.rename_plain w.max_files w.plain h p in
    let (gz_first, gz_up, gz_rest) = shifted-MovedUp fs.rename_gz w.max_files w.gz h z in
    (
      ground arith,
      (
        ground arith,
        ground arith,
        ground arith,
        ground (arith, plain_first),
        ground (arith, gz_first),
        λ i x y. (ground (arith, plain_up i x y), ground (arith, gz_up i x y)),
      ),
    )
