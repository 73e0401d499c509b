-- ===== src/Service/Conditions.antt =====
-- service/condition.go: the conditions on files that gate a start. What os.Stat answers is an argument;
-- a reason is what it names, without the rendered text.
use gopherd.Prelude.{Text, Bool, true, false, ◌&&◌, Option, none, some, [], ◌∷◌, ◌≡◌, refl, arith}
use gopherd.Service.Process.{Process}

-- The path is there, or it is missing (ENOENT or ENOTDIR), or Stat fails otherwise.
pub data Stat : Type 0 where
  found absent failed : Stat

pub data Unmet : Type 0 where
  exists_unknown missing_unknown is_missing is_there : (path : Text) → Unmet

-- The two tests of Unmet, each for a path that is given; `later` is what follows.
abbrev must_exist : Text → Stat → Option Unmet → Option Unmet
must_exist path found later = later
must_exist path absent later = some (is_missing path)
must_exist path failed later = some (exists_unknown path)

abbrev must_be_missing : Text → Stat → Option Unmet
must_be_missing path found = some (is_there path)
must_be_missing path absent = none
must_be_missing path failed = some (missing_unknown path)

abbrev missing_gate : (stat : Text → Stat) → Text → Option Unmet
missing_gate stat [] = none
missing_gate stat (c ∷ path) = must_be_missing (c ∷ path) (stat (c ∷ path))

unfoldable pub unmet : (stat : Text → Stat) → (exists missing : Text) → Option Unmet
unmet stat [] missing = missing_gate stat missing
unmet stat (c ∷ path) missing = must_exist (c ∷ path) (stat (c ∷ path)) (missing_gate stat missing)

-- UnmetCondition: the conditions that SetFileConditions has put in place, else those of the process.
unfoldable pub unmet_condition :
    (stat : Text → Stat) → (live : Option (Text × Text)) → Process → Option Unmet
unfolding unmet
unmet_condition stat (some (exists, missing)) p = unmet stat exists missing
unmet_condition stat none p = unmet stat p.condition_file_exists p.condition_file_missing

abbrev is_met : Option Unmet → Bool
is_met none = true
is_met (some u) = false

-- A path that is given and known to be there, or to be missing; a path that is not given asks for nothing.
abbrev pub holds_there : (stat : Text → Stat) → Text → Bool
holds_there stat [] = true
holds_there stat (c ∷ path) = elim (stat (c ∷ path)) [
  | found ↦ true
  | absent ↦ false
  | failed ↦ false
]

abbrev pub holds_missing : (stat : Text → Stat) → Text → Bool
holds_missing stat [] = true
holds_missing stat (c ∷ path) = elim (stat (c ∷ path)) [
  | found ↦ false
  | absent ↦ true
  | failed ↦ false
]

-- A start is let through exactly if both conditions hold; a Stat that fails lets nothing through.
pub unmet_lem :
    (stat : Text → Stat) (exists missing : Text)
    → is_met (unmet stat exists missing) ≡ (holds_there stat exists && holds_missing stat missing)
unfolding unmet
unmet_lem stat [] [] = refl
unmet_lem stat [] (d ∷ missing) = ground (arith)
unmet_lem stat (c ∷ path) [] = ground (arith)
unmet_lem stat (c ∷ path) (d ∷ missing) = ground (arith)
