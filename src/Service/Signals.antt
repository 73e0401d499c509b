-- ===== src/Service/Signals.antt =====
-- service/signal.go, and the signals of service/service.go: names, numbers, and rewriting. The numbers
-- are those of Linux.
use gopherd.Prelude.Maps.{Map, lookup}
use gopherd.Prelude.Strings.{drop, has_prefix, upper, trim_space}
use gopherd.Prelude.{
  ℕ, zero, suc, ◌+◌, ◌-◌, ◌*◌, ◌/◌, ◌%◌, ltb, leb, eqb, Text, codes, ◌==◌, ==→eq, text_discrete,
  Bool, true, false, ◌&&◌, Option, none, some, some_inj, [], ◌∷◌, ◌++◌, if◌then◌else◌, ◌≡◌, refl,
  sym, ap, subst, arith,
}

unfoldable pub signal_map : Map ℕ
signal_map =
    (codes "SIGABRT", 6)
    ∷ (codes "SIGALRM", 14)
    ∷ (codes "SIGBUS", 7)
    ∷ (codes "SIGCHLD", 17)
    ∷ (codes "SIGCONT", 18)
    ∷ (codes "SIGFPE", 8)
    ∷ (codes "SIGHUP", 1)
    ∷ (codes "SIGILL", 4)
    ∷ (codes "SIGINT", 2)
    ∷ (codes "SIGIO", 29)
    ∷ (codes "SIGKILL", 9)
    ∷ (codes "SIGPIPE", 13)
    ∷ (codes "SIGPROF", 27)
    ∷ (codes "SIGQUIT", 3)
    ∷ (codes "SIGSEGV", 11)
    ∷ (codes "SIGSTOP", 19)
    ∷ (codes "SIGSYS", 31)
    ∷ (codes "SIGTERM", 15)
    ∷ (codes "SIGTRAP", 5)
    ∷ (codes "SIGTSTP", 20)
    ∷ (codes "SIGTTIN", 21)
    ∷ (codes "SIGTTOU", 22)
    ∷ (codes "SIGURG", 23)
    ∷ (codes "SIGUSR1", 10)
    ∷ (codes "SIGUSR2", 12)
    ∷ (codes "SIGVTALRM", 26)
    ∷ (codes "SIGWINCH", 28)
    ∷ (codes "SIGXCPU", 24)
    ∷ (codes "SIGXFSZ", 25)
    ∷ []

-- sigNames, which is derived from the table.
unfoldable pub find_name : ℕ → Map ℕ → Option Text
find_name sig [] = none
find_name sig ((name, n) ∷ m) = if eqb n sig then some name else find_name sig m

-- The decimal digits of a number.
abbrev digits : (fuel : ℕ) → ℕ → Text
digits zero n = []
digits (suc fuel) n =
    let rest = digits fuel (n / 10) in
    if ltb n 10 then (b'0' + n) ∷ [] else rest ++ (b'0' + n % 10) ∷ []

abbrev name_or : ℕ → Option Text → Text
name_or sig none = digits (suc sig) sig
name_or sig (some name) = name

unfoldable pub signal_name : ℕ → Text
unfolding find_name signal_map
signal_name sig = name_or sig (find_name sig signal_map)

abbrev sigterm : ℕ
sigterm = 15

abbrev with_prefix : Text → Text
with_prefix name = if has_prefix (codes "SIG") name then name else codes "SIG" ++ name

abbrev pub parse_trimmed : Text → Option ℕ
parse_trimmed [] = some sigterm
parse_trimmed (c ∷ name) = lookup (with_prefix (c ∷ name)) signal_map

-- ParseSignal, with `none` for its error.
unfoldable pub parse_signal : Text → Option ℕ
unfolding upper trim_space lookup signal_map text_discrete
parse_signal name = parse_trimmed (trim_space (upper name))

-- A target that does not parse leaves the signal.
abbrev or_same : ℕ → Option ℕ → ℕ
or_same sig none = sig
or_same sig (some n) = n

abbrev rewritten : ℕ → Option Text → Option ℕ
rewritten sig none = none
rewritten sig (some target) = some (or_same sig (parse_signal target))

-- RewriteSignal, with `none` for a signal that is not forwarded.
unfoldable pub rewrite_signal : (rewrites : Map Text) → ℕ → Option ℕ
unfolding lookup signal_name parse_signal
rewrite_signal rewrites sig = rewritten sig (lookup (signal_name sig) rewrites)

-- ParseUmask: an octal number up to 0777.
unfoldable pub octal_from : ℕ → Text → Option ℕ
octal_from acc [] = some acc
octal_from acc (c ∷ s) =
    let rest = octal_from (acc * 8 + (c - b'0')) s in
    if leb b'0' c && leb c b'7' then rest else none

abbrev within_mask : Option ℕ → Option ℕ
within_mask none = none
within_mask (some n) = if leb n 511 then some n else none

unfoldable pub parse_umask : Text → Option ℕ
unfolding octal_from
parse_umask [] = none
parse_umask (c ∷ s) = within_mask (octal_from 0 (c ∷ s))

-- What a test says of each signal of the table.
abbrev holds_for : (Text → ℕ → Bool) → Map ℕ → Bool
holds_for test [] = true
holds_for test ((name, n) ∷ m) = test name n && holds_for test m

holds_at :
    (test : Text → ℕ → Bool) (m : Map ℕ) (name : Text) (n : ℕ)
    → holds_for test m ≡ true
    → lookup name m ≡ some n
    → test name n ≡ true
unfolding lookup
holds_at test [] name n all e = absurd (cc)
holds_at test ((first, k) ∷ m) name n all e =
    split (first == name) refl e (λ found. holds_at test m name n (ground arith) found)
  where
    split :
        (b : Bool)
        → (first == name) ≡ b
        → (if b then some k else lookup name m) ≡ some n
        → (lookup name m ≡ some n → test name n ≡ true)
        → test name n ≡ true
    split true same found rest =
        subst (λ x. test x n ≡ true) (==→eq first name same)
          (subst (λ x. test first x ≡ true) (some_inj found) (ground arith))
    split false same found rest = rest found

and_left : (a b : Bool) → (a && b) ≡ true → a ≡ true
and_left a b h = ground arith

and_right : (a b : Bool) → (a && b) ≡ true → b ≡ true
and_right a b h = ground arith

abbrev is_number : Option ℕ → ℕ → Bool
is_number none n = false
is_number (some k) n = eqb k n

is_number-some : (o : Option ℕ) (n : ℕ) → is_number o n ≡ true → o ≡ some n
is_number-some none n h = ground arith
is_number-some (some k) n h = ap some (ground arith)

abbrev reads_back : Text → ℕ → Bool
reads_back name n = signal_name n == name && is_number (parse_signal name) n

table_reads_back : holds_for reads_back signal_map ≡ true
unfolding signal_map signal_name parse_signal
table_reads_back = refl

abbrev reads_short : Text → ℕ → Bool
reads_short name n = is_number (parse_signal (drop 3 name)) n

table_reads_short : holds_for reads_short signal_map ≡ true
unfolding signal_map signal_name parse_signal
table_reads_short = refl

-- A signal of the table is rendered as the name under which it stands there, and that name is read
-- back as the signal, with the prefix SIG or without its first three bytes.
pub parse_signal-signal_name :
    (name : Text) (sig : ℕ)
    → lookup name signal_map ≡ some sig
    → (signal_name sig ≡ name)
      × (parse_signal (signal_name sig) ≡ some sig)
      × (parse_signal (drop 3 name) ≡ some sig)
parse_signal-signal_name name sig h =
    let both = holds_at reads_back signal_map name sig table_reads_back h in
    let short = holds_at reads_short signal_map name sig table_reads_short h in
    let same : signal_name sig ≡ name = ==→eq (signal_name sig) name (and_left _ _ both) in
    (
      same,
      subst (λ x. parse_signal x ≡ some sig) (sym same)
          (is_number-some (parse_signal name) sig (and_right _ _ both)),
      is_number-some (parse_signal (drop 3 name)) sig short,
    )

term_in_table : lookup (codes "SIGTERM") signal_map ≡ some 15
unfolding lookup signal_map text_discrete
term_in_table = refl

-- A signal that a text names is rendered as a name that is read as this signal.
pub parsed_name :
    (text : Text) (sig : ℕ)
    → parse_signal text ≡ some sig
    → parse_signal (signal_name sig) ≡ some sig
unfolding parse_signal
parsed_name text sig h = named (trim_space (upper text)) h
  where
    named : (s : Text) → parse_trimmed s ≡ some sig → parse_signal (signal_name sig) ≡ some sig
    named [] e =
        subst (λ n. parse_signal (signal_name n) ≡ some n) (some_inj e)
          (parse_signal-signal_name (codes "SIGTERM") 15 term_in_table).1
    named (c ∷ s) e = (parse_signal-signal_name (with_prefix (c ∷ s)) sig e).1
