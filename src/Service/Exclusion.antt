-- ===== src/Service/Exclusion.antt =====
-- excludeProcesses of internal/yml/config.go: nothing refers to an excluded process any more.
use gopherd.Prelude.{
  Text, ◌==◌, ==→eq, Bool, true, false, ◌&&◌, not, List, [], ◌∷◌, if◌then◌else◌, contains, ◌≡◌,
  refl, ap, arith, Bool-cases, inl, inr,
}
use gopherd.Service.Process.{Process, proc_name, strip, stripped, exclude_processes}

-- The edges of a list are those it had, but for the excluded ones.
pub strip-contains :
    (excluded deps : List Text) (d : Text)
    → contains (strip excluded deps) d ≡ (contains deps d && not (contains excluded d))
unfolding contains
strip-contains excluded [] d = refl
strip-contains excluded (x ∷ deps) d = elim (Bool-cases (x == d)) [
  | inl same ↦
      ground (arith, strip-contains excluded deps d, ap (contains excluded) (==→eq x d same))
  | inr other ↦ ground (arith, strip-contains excluded deps d)
]

-- The edges of `new` are those of `old` to processes that are not excluded.
abbrev pub Keeps : (excluded old new : List Text) → Type 0
Keeps excluded old new = (d : Text) → contains new d ≡ (contains old d && not (contains excluded d))

-- Each process that is not excluded is kept, in order, with the edges to such processes.
pub data IsExclusion (excluded : List Text) : (old new : List Process) → Type 0 where
  nothing : IsExclusion excluded [] []
  dropped :
      {p : Process} {old new : List Process}
      → contains excluded (proc_name p) ≡ true
      → IsExclusion excluded old new
      → IsExclusion excluded (p ∷ old) new
  kept :
      {p q : Process} {old new : List Process}
      → contains excluded (proc_name p) ≡ false
      → proc_name q ≡ proc_name p
      → Keeps excluded p.after q.after
      → Keeps excluded p.before q.before
      → Keeps excluded p.requires q.requires
      → IsExclusion excluded old new
      → IsExclusion excluded (p ∷ old) (q ∷ new)

-- Excluding processes keeps the others, in order and with their names, and keeps of their after,
-- before and requires exactly the names that are not excluded.
pub exclude_processes-IsExclusion :
    (ps : List Process) (excluded : List Text)
    → IsExclusion excluded ps (exclude_processes ps excluded)
unfolding exclude_processes proc_name
exclude_processes-IsExclusion [] excluded = nothing
exclude_processes-IsExclusion (p ∷ ps) excluded =
    split (contains excluded (proc_name p)) refl (exclude_processes-IsExclusion ps excluded)
  where
    split :
        (b : Bool)
        → contains excluded (proc_name p) ≡ b
        → IsExclusion excluded ps (exclude_processes ps excluded)
        → IsExclusion excluded (p ∷ ps) (
            if b
            then exclude_processes ps excluded
            else stripped excluded p ∷ exclude_processes ps excluded)
    split true e rest = dropped e rest
    split false e rest =
        kept e refl (strip-contains excluded p.after) (strip-contains excluded p.before)
          (strip-contains excluded p.requires) rest
