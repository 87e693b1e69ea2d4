-- ===== src/Academics/Prerequisites.antt =====
-- apps/academics/services.py `assert_no_prerequisite_cycle`: the walk over the catalogue's
-- prerequisites. A set of keys is a list that is only asked for membership; the `while` loop runs
-- on fuel, one more than the rows of the catalogue and one for its last test.
pub mod Walk
pub mod Cycles
pub mod Acyclic
use schapp.Base.{
  ℕ, zero, suc, Bool, true, false, ◌&&◌, not, Option, none, some, List, [], ◌∷◌, ◌++◌, ◌+◌, any,
  length, if◌then◌else◌,
}
use schapp.Academics.Registration.{Subject, member}

-- Some subject of the frontier lists this one.
abbrev pub required_by : List Subject → List ℕ → ℕ → Bool
required_by catalogue frontier k =
    any (λ (f : Subject). member f.pk frontier && member k f.prerequisites) catalogue

-- `Subject.objects.filter(unlocks__id__in=frontier).exclude(pk__in=seen)`, over the rows given.
abbrev pub next_frontier : List Subject → List ℕ → List ℕ → List Subject → List ℕ
next_frontier catalogue seen frontier [] = []
next_frontier catalogue seen frontier (s ∷ rows) =
    let rest = next_frontier catalogue seen frontier rows in
    if required_by catalogue frontier s.pk && not (member s.pk seen) then s.pk ∷ rest else rest

-- The loop: `some true` where it raises, `some false` where it ends, none out of fuel.
unfoldable pub walk : ℕ → List Subject → ℕ → List ℕ → List ℕ → Option Bool
walk zero catalogue target seen frontier = none
walk (suc fuel) catalogue target seen [] = some false
walk (suc fuel) catalogue target seen (f ∷ fs) =
    let seen' = (f ∷ fs) ++ seen in
    let rest =
      walk fuel catalogue target seen' (next_frontier catalogue seen' (f ∷ fs) catalogue) in
    if member target (f ∷ fs) then some true else rest

abbrev pub walk_fuel : List Subject → ℕ
walk_fuel catalogue = length catalogue + 2

-- Whether the proposed prerequisites are refused; an unsaved subject has no key.
unfoldable pub closes_cycle : List Subject → Option ℕ → List ℕ → Option Bool
unfolding walk
closes_cycle catalogue none ids = some false
closes_cycle catalogue (some pk) ids = walk (walk_fuel catalogue) catalogue pk [] ids
