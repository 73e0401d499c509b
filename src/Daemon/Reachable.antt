-- ===== src/Daemon/Reachable.antt =====
-- pendingRestarts, the shutdown flag and the exit code of daemon.go, in all states that can be reached.
use gopherd.Prelude.Int.{ℤ, is_zero}
use gopherd.Prelude.{
  ℕ, suc, Bool, true, false, List, [], ◌∷◌, ◌++◌, ◌≡◌, refl, sym, ◌∙◌, arith, length-append,
}
use gopherd.Daemon.{Daemon, StartEnv, RestartReq, mark_restart_pending, stop_service, start_service}
use gopherd.Daemon.Lifecycle.{stop_leg}
use gopherd.Daemon.Shutdown.{store_code, settle, give_up, handle_with, handle_restart}
use gopherd.Daemon.Steps.{
  Step, Reach, here, next, without_request, without_caller, without_store, with_legs,
}
use gopherd.Daemon.Requests.{
  Counts, IsCounted, Keeps, Keeps-refl, Keeps-trans, same_fields, stop_service-Keeps, bounce-Keeps,
  begin_shutdown-Keeps, handle_check_failure-Keeps, reap-Keeps, start_service-Keeps, give_up-Keeps,
  store_exit-Keeps,
}

-- Handling a request pays for it.
handle_restart-Keeps :
    (env : StartEnv) (r : RestartReq) (d e : Daemon)
    → e ≡ handle_restart env r d
    → (Counts (suc d.legs) d → IsCounted e)
      × (d.shutting_down ≡ true → e.shutting_down ≡ true)
      × (e.legs ≡ d.legs)
      × (d.shutting_down ≡ true → e.code_stores ≡ d.code_stores)
      × (is_zero d.exit_code ≡ false → e.exit_code ≡ d.exit_code)
unfolding handle_restart
handle_restart-Keeps env r d e q = rw q (split (d.heap r.service).running)
  where
    paid :
        (x : Daemon)
        → Keeps d x
        → (Counts (suc d.legs) d → IsCounted (settle x))
          × (d.shutting_down ≡ true → (settle x).shutting_down ≡ true)
          × ((settle x).legs ≡ d.legs)
          × (d.shutting_down ≡ true → (settle x).code_stores ≡ d.code_stores)
          × (is_zero d.exit_code ≡ false → (settle x).exit_code ≡ d.exit_code)
    paid x k =
        (λ h. ground (arith, k.counted (suc d.legs) h, k.legs), k.down, k.legs, k.stores, k.code)

    split :
        (b : Bool)
        → (Counts (suc d.legs) d → IsCounted (handle_with env r d b))
          × (d.shutting_down ≡ true → (handle_with env r d b).shutting_down ≡ true)
          × ((handle_with env r d b).legs ≡ d.legs)
          × (d.shutting_down ≡ true → (handle_with env r d b).code_stores ≡ d.code_stores)
          × (is_zero d.exit_code ≡ false → (handle_with env r d b).exit_code ≡ d.exit_code)
    split true = paid d (Keeps-refl d)
    split false =
        let s = start_service env r.service d in
        paid (give_up s)
          (Keeps-trans d s.0 _ (start_service-Keeps env r.service d) (give_up-Keeps s.0 s.1))

-- What every step keeps.
pub record Kept (d e : Daemon) : Type 0 where
  pub counted : IsCounted d → IsCounted e
  pub down : d.shutting_down ≡ true → e.shutting_down ≡ true
  pub final :
      d.shutting_down ≡ true
      → d.code_stores ≡ []
      → (e.code_stores ≡ []) × (is_zero d.exit_code ≡ false → e.exit_code ≡ d.exit_code)

Keeps-Kept : (d e f : Daemon) → f ≡ e → Keeps d e → Kept d f
Keeps-Kept d e f q k = rw q (record {
  counted = λ h. ground (arith, k.counted d.legs h, k.legs);
  down = k.down;
  final = λ h n. (k.stores h ∙ n, k.code);
})

-- The step after which a code is stored needs one that is still to be stored.
stored :
    (before : List ℤ) (code : ℤ) (after : List ℤ) (d : Daemon)
    → d.code_stores ≡ before ++ code ∷ after
    → Kept d (store_code code (without_store d (before ++ after)))
unfolding store_code
stored before code after d split = record {
  counted = λ h. h;
  down = λ h. h;
  final = λ h n. absurd (none_left before (sym split ∙ n));
}
  where
    none_left : (cs : List ℤ) → cs ++ code ∷ after ≡ [] → ⊥
    none_left [] e = absurd (cc)
    none_left (c ∷ cs) e = absurd (cc)

begun : (now id : ℕ) (d : Daemon) → Kept d (with_legs (suc d.legs) (stop_leg now id d))
unfolding stop_leg stop_service mark_restart_pending
begun now id d = record {
  counted = λ h. ground (arith, h);
  down = λ h. ground (arith, h);
  final = λ h n. (ground (arith, n), λ z. ground arith);
}

given_back : (n : ℕ) (d : Daemon) → d.legs ≡ suc n → Kept d (with_legs n (settle d))
unfolding settle
given_back n d h = record {
  counted = λ c. ground (arith, c, h);
  down = λ k. k;
  final = λ k s. (s, λ z. refl);
}

Step-Kept : (d e : Daemon) → Step d e → Kept d e
Step-Kept d e (Step.start env id fresh q) = Keeps-Kept d _ e q (start_service-Keeps env id d)
Step-Kept d e (Step.stop now id q) = Keeps-Kept d _ e q (stop_service-Keeps now id d)
Step-Kept d e (Step.restart now id up q) = Keeps-Kept d _ e q (bounce-Keeps now id d)
Step-Kept d e (Step.check now name q) = Keeps-Kept d _ e q (handle_check_failure-Keeps now name d)
Step-Kept d e (Step.handle env before r after split passed fresh q) =
    let k = handle_restart-Keeps env r (without_request d (before ++ after)) e q in
    record {
      counted = λ h.
          k.0 (
            ground (arith, h, split, length-append before (r ∷ after), length-append before after));
      down = k.1;
      final = λ h n. (k.3 h ∙ n, k.4);
    }
Step-Kept d e (Step.reap now drawn pid status t q) =
    Keeps-Kept d _ e q (reap-Keeps now drawn pid status d)
Step-Kept d e (Step.finish code t q) = Keeps-Kept d _ e q (store_exit-Keeps code d)
Step-Kept d e (Step.initiate before code after split q) = Keeps-Kept d _ e q (
    Keeps-trans d (without_caller d (before ++ after)) _
      (same_fields d _ refl refl refl refl refl refl) (begin_shutdown-Keeps code _))
Step-Kept d e (Step.shut_down code q) = Keeps-Kept d _ e q (begin_shutdown-Keeps code d)
Step-Kept d e (Step.keep_code before code after split q) = rw q (stored before code after d split)
Step-Kept d e (Step.leg now id up q) = rw q (begun now id d)
Step-Kept d e (Step.give_back n h q) = rw q (given_back n d h)

Reach-Kept : (d e : Daemon) → Reach d e → Kept d e
Reach-Kept d e here = record { counted = λ h. h; down = λ h. h; final = λ h n. (n, λ z. refl) }
Reach-Kept d e (next {e = f} r s) =
    let a = Reach-Kept d f r in
    let b = Step-Kept f e s in
    record {
      counted = λ h. b.counted (a.counted h);
      down = λ h. b.down (a.down h);
      final = λ h n.
          let x = a.final h n in
          let y = b.final (a.down h) x.0 in (y.0, λ z. ground (arith, x.1 z, y.1));
    }

-- Let pendingRestarts be the number of the restart requests that wait, and of the services that ordered
-- restarts have stopped and not yet given back. Then it is so in every state that steps lead to, where the
-- steps are those of the reap loop, the handlers of restarts, the control socket with its ordered
-- restarts, the health checks and the shutdown, in any order.
pub Reach-IsCounted : {d e : Daemon} → Reach d e → IsCounted d → IsCounted e
Reach-IsCounted {d} {e} r h = (Reach-Kept d e r).counted h

-- From a state where the daemon shuts down, the call of initiateShutdown that began it has stored its code,
-- and the exit code is not zero, the same steps, in any order, lead only to states where the daemon shuts
-- down, no code is to be stored, and the exit code is the same. Before that store, the pre-stored code of
-- the reap loop may still be overwritten.
pub shutdown_is_final :
    {d e : Daemon}
    → Reach d e
    → d.shutting_down ≡ true
    → d.code_stores ≡ []
    → is_zero d.exit_code ≡ false
    → (e.shutting_down ≡ true) × (e.code_stores ≡ []) × (e.exit_code ≡ d.exit_code)
shutdown_is_final {d} {e} r h n z =
    let k = Reach-Kept d e r in let f = k.final h n in (k.down h, f.0, f.1 z)
