-- ===== src/Service/Lifetime.antt =====
-- service/service.go: from the stop of a process to its end, and the escalation that outlives it.
use gopherd.Prelude.{ℕ, ◌+◌, ◌<◌, true, false, some, [], ◌∷◌, ◌≡◌, refl, arith}
use gopherd.Service.{Service, kill, KillTimer, stop, sigkill, fire_kill_timer, signal, mark_exited}

-- The stop of a process with a kill delay signals its group, and arms a timer. When the process has
-- exited, the timer still kills what is left of that group after the delay, and nothing if the group
-- is gone; and a later stop or signal reaches nobody.
pub stop_escalates :
    (now later sig : ℕ) (s : Service)
    → s.running ≡ true
    → s.has_cmd ≡ true
    → 0 < s.pid
    → 0 < s.kill_delay
    → let stopped = stop now s in
      let gone = (mark_exited later stopped.0).0 in
      (stopped.1 ≡ kill s.pid s.stop_signal ∷ [])
      × ((t : KillTimer) × (gone.kill_timer ≡ some t)
          × (t.fires_at ≡ now + s.kill_delay)
          × (fire_kill_timer true t ≡ kill s.pid sigkill ∷ [])
          × (fire_kill_timer false t ≡ []))
      × ((stop later gone).1 ≡ [])
      × (signal sig gone ≡ [])
unfolding stop mark_exited fire_kill_timer signal
stop_escalates now later sig s run cmd pos delay = (
  ground arith,
  (
    record { pgid = s.pid; fires_at = now + s.kill_delay },
    ground arith,
    refl,
    ground arith,
    ground arith,
  ),
  ground arith,
  ground arith,
)
