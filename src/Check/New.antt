-- ===== src/Check/New.antt =====
-- New of check/check.go: a checker from its configuration. time.ParseDuration and http.NewRequest are
-- parameters; a duration is in nanoseconds.
use gopherd.Config.{CheckConfig, HttpProbe, TcpProbe}
use gopherd.Prelude.Int.{ℤ, pos, negsuc, exceeds}
use gopherd.Prelude.Outcome.{
  Outcome, accept, reject, ◌>>=◌, unless, Yields, Yields-bind, Yields-from, Yields-unless,
}
use gopherd.Prelude.{
  ℕ, zero, suc, ◌+◌, ◌≤◌, ◌<◌, eqb, Text, codes, Bool, true, ◌||◌, not, Option, none, some, [], ◌∷◌,
  ◌≡◌, ap, some_inj, arith,
}

pub data CheckError : Type 0 where
  bad_period bad_timeout bad_initial_delay not_one_probe bad_url bad_port : CheckError

pub record NewChecker : Type 0 where
  pub config : CheckConfig
  pub period : ℕ
  pub timeout : ℕ
  pub initial_delay : ℕ
  pub threshold : ℕ
  -- The host and the port of a TCP probe.
  pub tcp_addr : Option (Text × ℕ)

-- A duration above 0; an empty text stands for the default.
abbrev positive_or : (default : ℕ) → CheckError → Text → Option ℤ → Outcome CheckError ℕ
positive_or default e s (some (pos (suc n))) = accept (suc n)
positive_or default e [] _ = accept default
positive_or default e (c ∷ s) _ = reject e

abbrev at_least_0 : Option ℤ → Outcome CheckError ℕ
at_least_0 (some (pos n)) = accept n
at_least_0 (some (negsuc n)) = reject bad_initial_delay
at_least_0 none = reject bad_initial_delay

abbrev delay_of : (parse_duration : Text → Option ℤ) → (period : ℕ) → Text → Outcome CheckError ℕ
delay_of dur period [] = accept period
delay_of dur period (c ∷ s) = at_least_0 (dur (c ∷ s))

abbrev threshold_of : ℤ → ℕ
threshold_of (pos (suc n)) = suc n
threshold_of _ = 3

abbrev one_if : {A : Type 0} → Option A → ℕ
one_if none = 0
one_if (some a) = 1

abbrev pub probe_count : CheckConfig → ℕ
probe_count c = one_if c.http + one_if c.tcp + one_if c.exec

abbrev host_or : Text → Text
host_or [] = codes "localhost"
host_or (c ∷ s) = c ∷ s

abbrev check_url : (url_ok : Text → Bool) → Option HttpProbe → Outcome CheckError Bool
check_url url_ok none = accept true
check_url url_ok (some h) = unless (not (url_ok h.url)) bad_url (accept true)

abbrev valid_port : (host : Text) → ℤ → Outcome CheckError (Option (Text × ℕ))
valid_port host (negsuc n) = reject bad_port
valid_port host (pos n) =
    unless (eqb n 0 || exceeds (pos n) 65535) bad_port (accept (some (host_or host, n)))

abbrev addr_of : Option TcpProbe → Outcome CheckError (Option (Text × ℕ))
addr_of none = accept none
addr_of (some t) = valid_port t.host t.port

abbrev checker_of :
    CheckConfig → (period timeout delay : ℕ) → (addr : Option (Text × ℕ)) → NewChecker
checker_of c period timeout delay addr = record {
  config = c;
  period = period;
  timeout = timeout;
  initial_delay = delay;
  threshold = threshold_of c.threshold;
  tcp_addr = addr;
}

unfoldable pub new_check :
    (parse_duration : Text → Option ℤ)
    → (url_ok : Text → Bool) → CheckConfig
    → Outcome CheckError NewChecker
new_check dur url_ok c = positive_or 10000000000 bad_period c.period (dur c.period) >>= λ period.
    positive_or 3000000000 bad_timeout c.timeout (dur c.timeout) >>= λ timeout.
    unless (not (eqb (probe_count c) 1)) not_one_probe (
      delay_of dur period c.initial_delay >>= λ delay. check_url url_ok c.http >>= λ checked.
      addr_of c.tcp >>= λ addr. accept (checker_of c period timeout delay addr))

-- What a checker is made of.
pub record IsRunnable (k : NewChecker) : Type 0 where
  pub period : 0 < k.period
  pub timeout : 0 < k.timeout
  pub threshold : 0 < k.threshold
  pub one_probe : probe_count k.config ≡ 1
  pub port : (host : Text) (n : ℕ) → k.tcp_addr ≡ some (host, n) → (0 < n) × (n ≤ 65535)

abbrev IsAbove0 : ℕ → Type 0
IsAbove0 n = 0 < n

positive_or-IsAbove0 :
    (default : ℕ) (e : CheckError) (s : Text) (o : Option ℤ)
    → 0 < default
    → Yields IsAbove0 (positive_or default e s o)
positive_or-IsAbove0 default e s (some (pos (suc n))) h = omega arith
positive_or-IsAbove0 default e [] (some (pos zero)) h = h
positive_or-IsAbove0 default e (c ∷ s) (some (pos zero)) h = tt
positive_or-IsAbove0 default e [] (some (negsuc n)) h = h
positive_or-IsAbove0 default e (c ∷ s) (some (negsuc n)) h = tt
positive_or-IsAbove0 default e [] none h = h
positive_or-IsAbove0 default e (c ∷ s) none h = tt

threshold_of-IsAbove0 : (z : ℤ) → 0 < threshold_of z
threshold_of-IsAbove0 (pos zero) = omega arith
threshold_of-IsAbove0 (pos (suc n)) = omega arith
threshold_of-IsAbove0 (negsuc n) = omega arith

abbrev HasPort : Option (Text × ℕ) → Type 0
HasPort o = (host : Text) (n : ℕ) → o ≡ some (host, n) → (0 < n) × (n ≤ 65535)

addr_of-HasPort : (o : Option TcpProbe) → Yields HasPort (addr_of o)
addr_of-HasPort none = λ host n e. absurd (cc)
addr_of-HasPort (some t) = port_of t.host t.port
  where
    port_of : (host : Text) (port : ℤ) → Yields HasPort (valid_port host port)
    port_of host (negsuc n) = tt
    port_of host (pos n) =
        Yields-unless HasPort (eqb n 0 || exceeds (pos n) 65535) _ (accept (some (host_or host, n)))
          λ h host' k e.
            let same : n ≡ k = ap (λ q. q.1) (some_inj e) in
            (ground (arith, h, same), ground (arith, h, same))

-- New gives an error or a checker whose period, timeout and threshold are above 0, with exactly one
-- probe and, for a TCP probe, a port between 1 and 65535.
pub new_check-IsRunnable :
    (parse_duration : Text → Option ℤ) (url_ok : Text → Bool) (c : CheckConfig)
    → Yields IsRunnable (new_check parse_duration url_ok c)
unfolding new_check
new_check-IsRunnable dur url_ok c =
    Yields-bind IsAbove0 IsRunnable (positive_or 10000000000 bad_period c.period (dur c.period)) _
      (positive_or-IsAbove0 _ _ c.period (dur c.period) (omega arith))
      λ period p.
        Yields-bind IsAbove0 IsRunnable
          (positive_or 3000000000 bad_timeout c.timeout (dur c.timeout)) _
          (positive_or-IsAbove0 _ _ c.timeout (dur c.timeout) (omega arith))
          λ timeout t. Yields-unless IsRunnable (not (eqb (probe_count c) 1)) _ _ λ one.
            Yields-from IsRunnable (delay_of dur period c.initial_delay) _ λ delay e.
              Yields-from IsRunnable (check_url url_ok c.http) _ λ checked e'.
                Yields-bind HasPort IsRunnable (addr_of c.tcp)
                  (λ addr. accept (checker_of c period timeout delay addr)) (addr_of-HasPort c.tcp)
                  λ addr port. record {
                    period = p;
                    timeout = t;
                    threshold = threshold_of-IsAbove0 c.threshold;
                    one_probe = ground (arith, one);
                    port = port;
                  }
