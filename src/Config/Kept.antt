-- ===== src/Config/Kept.antt =====
-- excludeProcesses of internal/yml/config.go: what is known of the processes stays known of those that
-- are left.
use gopherd.Config.Accepted.{IsAccepted, IsContract, Avoids}
use gopherd.Config.Parsed.{IsParsed}
use gopherd.Config.Validate.{scheduled_set, is_scheduled, is_nil}
use gopherd.Prelude.Int.{ℤ}
use gopherd.Prelude.{
  ℕ, Text, ◌==◌, Bool, true, false, ◌&&◌, ◌||◌, Option, List, [], ◌∷◌, contains, ◌≡◌, refl, arith,
  Bool-cases, inl, inr, if◌then◌else◌,
}
use gopherd.Service.Exclusion.{strip-contains}
use gopherd.Service.Process.{Process, proc_name, strip, stripped, exclude_processes}

abbrev pub Every : (Process → Type 0) → List Process → Type 0
Every P [] = Unit {0}
Every P (p ∷ ps) = P p × Every P ps

pub Every-map :
    (P Q : Process → Type 0) (ps : List Process)
    → ((p : Process) → P p → Q p)
    → Every P ps
    → Every Q ps
Every-map P Q [] f h = tt
Every-map P Q (p ∷ ps) f (h, hs) = (f p h, Every-map P Q ps f hs)

-- Stripping the edges to excluded processes keeps what was accepted.
Avoids-strip :
    (excluded scheduled fewer deps : List Text)
    → ((d : Text) → contains fewer d ≡ true → contains scheduled d ≡ true)
    → Avoids scheduled deps
    → Avoids fewer (strip excluded deps)
Avoids-strip excluded scheduled fewer deps sub avoids d h = elim (Bool-cases (contains fewer d)) [
  | inl there ↦
      absurd
        (ground (arith, avoids d (ground (arith, strip-contains excluded deps d, h)), sub d there))
  | inr gone ↦ gone
]

is_nil-strip :
    (excluded deps : List Text) → is_nil deps ≡ true → is_nil (strip excluded deps) ≡ true
is_nil-strip excluded [] h = refl
is_nil-strip excluded (d ∷ deps) h = absurd (ground (arith, h))

stripped_name : (excluded : List Text) (p : Process) → proc_name (stripped excluded p) ≡ proc_name p
unfolding proc_name
stripped_name excluded p = refl

scheduled_set_head :
    (p : Process) (ps : List Process) (d : Text)
    → contains (scheduled_set (p ∷ ps)) d
      ≡ ((is_scheduled p && proc_name p == d) || contains (scheduled_set ps) d)
unfolding scheduled_set contains
scheduled_set_head p ps d = elim (Bool-cases (is_scheduled p)) [
  | inl on ↦ rw (on) (ground arith)
  | inr off ↦ rw (off) (ground arith)
]

-- What is scheduled among the processes that are left was scheduled before.
scheduled_set-exclude :
    (excluded : List Text) (ps : List Process) (d : Text)
    → contains (scheduled_set (exclude_processes ps excluded)) d ≡ true
    → contains (scheduled_set ps) d ≡ true
unfolding exclude_processes
scheduled_set-exclude excluded [] d h = h
scheduled_set-exclude excluded (p ∷ ps) d h =
    split (contains excluded (proc_name p)) h (scheduled_set-exclude excluded ps d)
  where
    split :
        (b : Bool)
        → contains
            (scheduled_set (
              if b
              then exclude_processes ps excluded
              else stripped excluded p ∷ exclude_processes ps excluded))
            d
          ≡ true
        → (contains (scheduled_set (exclude_processes ps excluded)) d ≡ true
            → contains (scheduled_set ps) d ≡ true)
        → contains (scheduled_set (p ∷ ps)) d ≡ true
    split true e rest = ground (arith, scheduled_set_head p ps d, rest e)
    split false e rest =
        elim (Bool-cases (contains (scheduled_set (exclude_processes ps excluded)) d)) [
          | inl later ↦ ground (arith, scheduled_set_head p ps d, rest later)
          | inr first ↦ ground (
            arith,
            scheduled_set_head p ps d,
            e,
            first,
            scheduled_set_head (stripped excluded p) (exclude_processes ps excluded) d,
            stripped_name excluded p,
          )
        ]

stripped-IsAccepted :
    (dur : Text → Option ℤ) (shutdown : List ℕ) (excluded scheduled fewer : List Text) (p : Process)
    → ((d : Text) → contains fewer d ≡ true → contains scheduled d ≡ true)
    → IsAccepted dur shutdown scheduled p
    → IsAccepted dur shutdown fewer (stripped excluded p)
unfolding proc_name
stripped-IsAccepted dur shutdown excluded scheduled fewer p sub h =
    let keeps : IsContract dur p → IsContract dur (stripped excluded p) = λ c. record {
      given = c.given;
      parsed = c.parsed;
      on_success = c.on_success;
      on_failure = c.on_failure;
      backoff_delay = c.backoff_delay;
      backoff_limit = c.backoff_limit;
      after = is_nil-strip excluded p.after c.after;
      before = is_nil-strip excluded p.before c.before;
      requires = is_nil-strip excluded p.requires c.requires;
      timeout = c.timeout;
    } in
    record {
      command = h.command;
      name = h.name;
      on_success = h.on_success;
      on_failure = h.on_failure;
      stop_signal = h.stop_signal;
      on_check_failure = h.on_check_failure;
      signal_rewrite = h.signal_rewrite;
      schedule = λ s. keeps (h.schedule s);
      stray = h.stray;
      after = Avoids-strip excluded scheduled fewer p.after sub h.after;
      before = Avoids-strip excluded scheduled fewer p.before sub h.before;
      requires = Avoids-strip excluded scheduled fewer p.requires sub h.requires;
    }

stripped-IsParsed :
    (dur : Text → Option ℤ) (excluded : List Text) (p : Process)
    → IsParsed dur p
    → IsParsed dur (stripped excluded p)
stripped-IsParsed dur excluded p h = record {
  startup = h.startup;
  exists = h.exists;
  missing = h.missing;
  different = h.different;
  umask = h.umask;
  parent_death_signal = h.parent_death_signal;
  sd_notify_timeout = h.sd_notify_timeout;
  backoff_factor = h.backoff_factor;
  signal_rewrite = h.signal_rewrite;
}

Every-exclude :
    (P Q : Process → Type 0) (excluded : List Text) (ps : List Process)
    → ((p : Process) → P p → Q (stripped excluded p))
    → Every P ps
    → Every Q (exclude_processes ps excluded)
unfolding exclude_processes
Every-exclude P Q excluded [] keep h = tt
Every-exclude P Q excluded (p ∷ ps) keep (h, hs) =
    let rest = Every-exclude P Q excluded ps keep hs in
    elim (Bool-cases (contains excluded (proc_name p))) [
      | inl gone ↦ rw (gone) rest
      | inr there ↦ rw (there) (keep p h, rest)
    ]

pub IsAccepted-exclude :
    (dur : Text → Option ℤ) (shutdown : List ℕ) (excluded : List Text) (ps : List Process)
    → Every (IsAccepted dur shutdown (scheduled_set ps)) ps
    → Every
        (IsAccepted dur shutdown (scheduled_set (exclude_processes ps excluded)))
        (exclude_processes ps excluded)
IsAccepted-exclude dur shutdown excluded ps =
    Every-exclude (IsAccepted dur shutdown (scheduled_set ps))
      (IsAccepted dur shutdown (scheduled_set (exclude_processes ps excluded))) excluded ps
      λ p.
        stripped-IsAccepted dur shutdown excluded (scheduled_set ps)
          (scheduled_set (exclude_processes ps excluded)) p (scheduled_set-exclude excluded ps)

pub IsParsed-exclude :
    (dur : Text → Option ℤ) (excluded : List Text) (ps : List Process)
    → Every (IsParsed dur) ps
    → Every (IsParsed dur) (exclude_processes ps excluded)
IsParsed-exclude dur excluded ps =
    Every-exclude (IsParsed dur) (IsParsed dur) excluded ps (stripped-IsParsed dur excluded)
