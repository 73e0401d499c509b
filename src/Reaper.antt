-- ===== src/Reaper.antt =====
-- internal/reaper/reaper.go: exit statuses of children that the supervisor does not manage, handed
-- to the checks that forked them. A status channel holds one value, so a waiter is its pid, and a
-- delivered status is an entry of `delivered`.
use gopherd.Prelude.Int.{ℤ}
use gopherd.Prelude.{
  ℕ, eqb, Bool, true, false, Option, none, some, List, [], ◌∷◌, ◌++◌, if◌then◌else◌, ◌≡◌, ◌≢◌,
  arith,
}

pub record Registry : Type 0 where
  pub active : Bool
  pub waiters : List ℕ
  pub delivered : List (ℕ × ℤ)

unfoldable pub new : Registry
new = record { active = false; waiters = []; delivered = [] }

unfoldable pub activate : Registry → Registry
activate r = record r { active = true }

unfoldable pub waits : ℕ → List ℕ → Bool
waits pid [] = false
waits pid (p ∷ ps) = if eqb p pid then true else waits pid ps

unfoldable pub drop_waiter : ℕ → List ℕ → List ℕ
drop_waiter pid [] = []
drop_waiter pid (p ∷ ps) = let rest = drop_waiter pid ps in if eqb p pid then rest else p ∷ rest

-- Start: `forked` is what fork() returns. The wake-up of the reap loop has no effect on the state.
unfoldable pub start : Option ℕ → Registry → Registry × Option ℕ
unfolding drop_waiter
start none r = (r, none)
start (some pid) r = (record r { waiters = pid ∷ drop_waiter pid r.waiters }, some pid)

unfoldable pub deliver : ℕ → ℤ → Registry → Registry × Bool
unfolding waits drop_waiter
deliver pid code r =
    if waits pid r.waiters
    then (
      record r { waiters = drop_waiter pid r.waiters; delivered = r.delivered ++ (pid, code) ∷ [] },
      true,
    )
    else (r, false)

unfoldable pub forget : ℕ → Registry → Registry
unfolding drop_waiter
forget pid r = record r { waiters = drop_waiter pid r.waiters }

pub waits-drop_waiter :
    (pid q : ℕ) (ps : List ℕ)
    → waits q (drop_waiter pid ps) ≡ (if eqb pid q then false else waits q ps)
unfolding waits drop_waiter
waits-drop_waiter pid q [] = ground arith
waits-drop_waiter pid q (p ∷ ps) = ground (arith, waits-drop_waiter pid q ps)

-- After a start registers a pid, the first delivery for it is claimed and recorded, the next one is
-- neither, and the other waiters are as they were.
pub deliver_once :
    (pid : ℕ) (code late : ℤ) (r : Registry)
    → let registered = (start (some pid) r).0 in
      let (after, claimed) = deliver pid code registered in
      (claimed ≡ true)
      × (after.delivered ≡ r.delivered ++ (pid, code) ∷ [])
      × (deliver pid late after ≡ (after, false))
      × ((q : ℕ) → q ≢ pid → waits q after.waiters ≡ waits q r.waiters)
unfolding start deliver waits drop_waiter
deliver_once pid code late r =
    let gone : waits pid (drop_waiter pid (drop_waiter pid r.waiters)) ≡ false =
      ground (arith, waits-drop_waiter pid pid (drop_waiter pid r.waiters)) in
    (
      ground arith,
      ground arith,
      ground (arith, gone),
      λ q other. ground (
        arith,
        waits-drop_waiter pid q r.waiters,
        waits-drop_waiter pid q (drop_waiter pid r.waiters),
      ),
    )

-- After a check gives up its probe, a status for that pid is not claimed and changes nothing.
pub forget_silences :
    (pid : ℕ) (code : ℤ) (r : Registry) → deliver pid code (forget pid r) ≡ (forget pid r, false)
unfolding deliver forget
forget_silences pid code r = ground (arith, waits-drop_waiter pid pid r.waiters)
