-- ===== src/Daemon/Table.antt =====
-- The process table of daemon.go: pidMap and the running instances say the same.
use native.Mathlib.Decide.{ℕ_discrete}
use gopherd.Prelude.Maps.{lookup}
use gopherd.Prelude.{
  ℕ, ◌<◌, eqb, Bool, true, false, Option, none, some, List, [], ◌∷◌, if◌then◌else◌, ◌≡◌, ◌≢◌, refl,
  arith, inl, inr, ◌⊎◌,
}
use gopherd.Service.{
  Service, Spawn, StartError, no_listener, no_pipes, no_fork, Started, forked, failed, has_started,
  finish_with, finish_start,
}
use gopherd.Metrics.{service_started}
use gopherd.Daemon.{
  finish_locked, is_current, start_guarded, Daemon, write, lookup_pid, remove_pid, insert_pid,
  start_locked,
}
use gopherd.Daemon.Agreement.{Agrees, Agrees-refl}

-- A pid of the table belongs to one instance, which runs under it; a running instance is in the
-- table; one that does not run has no pid and no open channel.
pub record IsValid (d : Daemon) : Type 0 where
  pub mapped :
      (pid id : ℕ)
      → lookup_pid pid d.pid_map ≡ some id
      → ((d.heap id).running ≡ true) × ((d.heap id).pid ≡ pid)
  pub tracked :
      (id : ℕ) → (d.heap id).running ≡ true → lookup_pid (d.heap id).pid d.pid_map ≡ some id
  pub idle :
      (id : ℕ) → (d.heap id).running ≡ false → ((d.heap id).pid ≡ 0) × ((d.heap id).done ≡ none)
  pub live :
      (id : ℕ)
      → (d.heap id).running ≡ true
      → (0 < (d.heap id).pid) × ((d.heap id).has_cmd ≡ true) × ((d.heap id).done ≢ none)

pub Agrees-IsValid : (d e : Daemon) → Agrees d e → IsValid d → IsValid e
Agrees-IsValid d e a v = record {
  mapped = λ p id h. ground (arith, v.mapped p id, a.pids, a.running id, a.pid id);
  tracked = λ id h. ground (arith, v.tracked id, a.pids, a.running id, a.pid id);
  idle = λ id h. ground (arith, v.idle id, a.running id, a.pid id, a.done id);
  live = λ id h. ground (arith, v.live id, a.running id, a.pid id, a.done id, a.cmd id);
}

pub lookup-remove_pid :
    (p q : ℕ) (m : List (ℕ × ℕ))
    → lookup_pid q (remove_pid p m) ≡ (if eqb p q then none else lookup_pid q m)
unfolding lookup_pid remove_pid
lookup-remove_pid p q [] = ground arith
lookup-remove_pid p q ((r, id) ∷ m) = ground (arith, lookup-remove_pid p q m)

lookup-insert_pid :
    (p id q : ℕ) (m : List (ℕ × ℕ))
    → lookup_pid q (insert_pid p id m) ≡ (if eqb p q then some id else lookup_pid q m)
unfolding insert_pid lookup_pid
lookup-insert_pid p id q m = ground (arith, lookup-remove_pid p q m)

-- The kernel gives a new process a pid that is not in use: it keeps that of a child which has not
-- been waited for.
abbrev pub IsFresh : Spawn → Daemon → Type 0
IsFresh os d = (pid : ℕ) → os.forked ≡ some pid → (0 < pid) × (lookup_pid pid d.pid_map ≡ none)

-- An instance that starts, in a table where it did not run.
start_pid-IsValid :
    (d e : Daemon) (id pid : ℕ)
    → IsValid d
    → (d.heap id).running ≡ false
    → (0 < pid)
    → lookup_pid pid d.pid_map ≡ none
    → e.pid_map ≡ insert_pid pid id d.pid_map
    → ((j : ℕ) → j ≢ id → e.heap j ≡ d.heap j)
    → (e.heap id).running ≡ true
    → (e.heap id).pid ≡ pid
    → (e.heap id).has_cmd ≡ true
    → (e.heap id).done ≢ none
    → IsValid e
start_pid-IsValid d e id pid v off pos free table rest on here cmd open' = record {
  mapped = λ p j h. elim (ℕ_discrete j id) [
    | yes same ↦ ground (arith, lookup-insert_pid pid id p d.pid_map, v.mapped p j)
    | no other ↦ ground (arith, lookup-insert_pid pid id p d.pid_map, v.mapped p j, rest j other)
  ];
  tracked = λ j h. elim (ℕ_discrete j id) [
    | yes same ↦ ground (arith, lookup-insert_pid pid id pid d.pid_map)
    | no other ↦
        ground (arith, lookup-insert_pid pid id (d.heap j).pid d.pid_map, v.tracked j, rest j other)
  ];
  idle = λ j h. elim (ℕ_discrete j id) [
    | yes same ↦ absurd (ground arith)
    | no other ↦ ground (arith, v.idle j, rest j other)
  ];
  live = λ j h. elim (ℕ_discrete j id) [
    | yes same ↦ ground arith
    | no other ↦ ground (arith, v.live j, rest j other)
  ];
}

-- FinishStart forks, or leaves the running state of the instance as it was.
abbrev Finished : Spawn → Service → Service × Started → Type 0
Finished os s r =
    ((pid : ℕ) × (listener : Bool) × (os.forked ≡ some pid)
      × (r ≡ (has_started pid os listener s, forked pid)))
    ⊎ ((listener : Bool) × (e : StartError) × (r ≡ (record s { listener = listener }, failed e)))

finish_with-Finished :
    (os : Spawn) (s : Service) (a b : Bool) (o : Option ℕ)
    → os.forked ≡ o
    → Finished os s (finish_with os s a b o)
unfolding finish_with
finish_with-Finished os s true b o e = inr (_, no_listener, refl)
finish_with-Finished os s false true o e = inr (_, no_pipes, refl)
finish_with-Finished os s false false none e = inr (_, no_fork, refl)
finish_with-Finished os s false false (some pid) e = inl (pid, _, e, refl)

finish_start-Finished : (os : Spawn) (s : Service) → Finished os s (finish_start os s)
unfolding finish_start
finish_start-Finished os s = finish_with-Finished os s _ _ os.forked refl

-- What a start under the lock comes to: nothing happens to the table, or a service that did not
-- run, in a daemon that is not shutting down, gets a new process.
pub data StartCase (os : Spawn) (id : ℕ) (d e : Daemon) : Type 0 where
  kept : Agrees d e → d.metrics ≡ e.metrics → StartCase os id d e
  forks :
      (pid : ℕ) (listener : Bool)
      → os.forked ≡ some pid
      → d.shutting_down ≡ false
      → (d.heap id).running ≡ false
      → lookup (d.heap id).name d.services ≡ some id
      → e ≡ record d {
        heap = write id (has_started pid os listener (d.heap id)) d.heap;
        pid_map = insert_pid pid id d.pid_map;
        metrics = service_started os.now (d.heap id).name pid d.metrics;
      }
      → StartCase os id d e

locked-StartCase :
    (os : Spawn) (id : ℕ) (d : Daemon) (r : Service × Started)
    → d.shutting_down ≡ false
    → (d.heap id).running ≡ false
    → lookup (d.heap id).name d.services ≡ some id
    → Finished os (d.heap id) r
    → StartCase os id d (finish_locked os.now id d r).0
unfolding finish_locked
locked-StartCase os id d r up off here (inl (pid, listener, e, q)) =
    rw q (forks pid listener e up off here refl)
locked-StartCase os id d r up off here (inr (listener, e, q)) = rw q (
    kept
      (record {
        pids = refl;
        running = λ j. ground arith;
        pid = λ j. ground arith;
        done = λ j. ground arith;
        cmd = λ j. ground arith;
      })
      refl)

current_lem : (id : ℕ) (o : Option ℕ) → is_current id o ≡ true → o ≡ some id
current_lem id none h = cc
current_lem id (some j) h = ground arith

guarded-StartCase :
    (os : Spawn) (id : ℕ) (d : Daemon) (a b c : Bool)
    → d.shutting_down ≡ a
    → is_current id (lookup (d.heap id).name d.services) ≡ b
    → (d.heap id).running ≡ c
    → StartCase os id d (start_guarded os id d a b c).0
unfolding start_guarded
guarded-StartCase os id d true b c ea eb ec = kept (Agrees-refl d) refl
guarded-StartCase os id d false false c ea eb ec = kept (Agrees-refl d) refl
guarded-StartCase os id d false true true ea eb ec = kept (Agrees-refl d) refl
guarded-StartCase os id d false true false ea eb ec =
    locked-StartCase os id d _ ea ec (current_lem id _ eb) (finish_start-Finished os (d.heap id))

pub start_locked-StartCase :
    (os : Spawn) (id : ℕ) (d : Daemon) → StartCase os id d (start_locked os id d).0
unfolding start_locked
start_locked-StartCase os id d = guarded-StartCase os id d _ _ _ refl refl refl

pub StartCase-IsValid :
    (os : Spawn) (id : ℕ) (d e : Daemon)
    → StartCase os id d e
    → IsFresh os d
    → IsValid d
    → IsValid e
unfolding has_started
StartCase-IsValid os id d e (kept a m) fresh v = Agrees-IsValid d e a v
StartCase-IsValid os id d e (forks pid listener f up off here q) fresh v = rw q (
    start_pid-IsValid d _ id pid v off (fresh pid f).0 (fresh pid f).1 refl
      (λ j other. ground arith) (ground arith) (ground arith) (ground arith) (ground arith))
