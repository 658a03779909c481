-- ===== src/IdentityMap/Map/Calls.antt =====
-- Sequences of calls of the map, and what they tell of a key.
use ascetic_ddd_rust.Prelude.{ℕ, List, [], ◌∷◌, Option, none, some, if◌then◌else◌}
use ascetic_ddd_rust.Prelude.HashSet.{same}
use ascetic_ddd_rust.IdentityMap.Slot.{Arc, Fact, of_entity, of_absence, entity, absence}
use ascetic_ddd_rust.IdentityMap.Policy.{IsolationLevel, admits}
use ascetic_ddd_rust.IdentityMap.Map
use ascetic_ddd_rust.IdentityMap.Map.{IdentityMap}

-- A call of the map.
pub data Call (K : Type 0) : Type 0 where
  add : K → Arc → Call K
  add_absent get has remove : K → Call K
  clear len is_empty : Call K
  set_size : ℕ → Call K

-- The map after a call.
unfoldable pub step : {K : Type 0} → Discrete K → (Arc → ℕ) → Call K → IdentityMap K → IdentityMap K
step dec held (add key e) m = Map.add dec held key e m
step dec held (add_absent key) m = Map.add_absent dec held key m
step dec held (get key) m = (Map.get dec held key m).0
step dec held (has key) m = (Map.has dec held key m).0
step dec held (remove key) m = Map.remove dec held key m
step dec held clear m = Map.clear dec held m
step dec held len m = (Map.len dec held m).0
step dec held is_empty m = (Map.is_empty dec held m).0
step dec held (set_size size) m = Map.set_size dec held size m

-- The map after calls, each made while the handles of its own `held` stand outside.
unfoldable pub run :
    {K : Type 0} → Discrete K → List ((Arc → ℕ) × Call K) → IdentityMap K → IdentityMap K
run dec [] m = m
run dec ((held, call) ∷ calls) m = run dec calls (step dec held call m)

-- What has last been told of each key.
abbrev pub Told : Type 0 → Type 0
Told K = K → Option Fact

unfoldable pub update : {K : Type 0} → Discrete K → K → Option Fact → Told K → Told K
update dec key o told k = if same dec key k then o else told k

-- A call tells of a key that it adds, where the level admits it, and takes back what it removes.
unfoldable pub tell : {K : Type 0} → Discrete K → IsolationLevel → Call K → Told K → Told K
tell dec level (add key e) told =
    if admits level entity then update dec key (some (of_entity e)) told else told
tell dec level (add_absent key) told =
    if admits level absence then update dec key (some of_absence) told else told
tell dec level (get key) told = told
tell dec level (has key) told = told
tell dec level (remove key) told = update dec key none told
tell dec level clear told = λ _. none
tell dec level len told = told
tell dec level is_empty told = told
tell dec level (set_size size) told = told

unfoldable pub tell_all :
    {K : Type 0} → Discrete K → IsolationLevel → List ((Arc → ℕ) × Call K) → Told K → Told K
tell_all dec level [] told = told
tell_all dec level ((held, call) ∷ calls) told = tell_all dec level calls (tell dec level call told)
