-- ===== src/IdentityMap/Examples.antt =====
-- The identity map on concrete keys and entities: the keys and the entities are numbers.
use ascetic_ddd_rust.Prelude.{
  ℕ, ◌<◌, ◌++◌, List, [], ◌∷◌, none, true, not, ◌&&◌, ◌||◌, ◌≡◌, refl, arith, drop, take, length,
  ℕ_discrete as dec, ◌-◌, ◌==◌, if◌then◌else◌, ◌+◌,
}
use ascetic_ddd_rust.Prelude.HashSet
use ascetic_ddd_rust.Prelude.HashSet.{same}
use ascetic_ddd_rust.IdentityMap.Slot.{Arc, found, of_absence, answer_of}
use ascetic_ddd_rust.IdentityMap.Policy.{serializable, admits}
use ascetic_ddd_rust.IdentityMap.Recency
use ascetic_ddd_rust.IdentityMap.Recency.{Recency, u64_mod}
use ascetic_ddd_rust.IdentityMap.Recency.Entries.{keys}
use ascetic_ddd_rust.IdentityMap.Recency.Lru
use ascetic_ddd_rust.IdentityMap.Recency.Members
use ascetic_ddd_rust.IdentityMap.Generations
use ascetic_ddd_rust.IdentityMap.Generations.{Generations}
use ascetic_ddd_rust.IdentityMap.Generations.Survival
use ascetic_ddd_rust.IdentityMap.Generations.Survival.{admit_all}
use ascetic_ddd_rust.IdentityMap.Window
use ascetic_ddd_rust.IdentityMap.Window.{recency}
use ascetic_ddd_rust.IdentityMap.State
use ascetic_ddd_rust.IdentityMap.State.{State}
use ascetic_ddd_rust.IdentityMap.Map
use ascetic_ddd_rust.IdentityMap.Map.{new, generational}
use ascetic_ddd_rust.IdentityMap.Map.Calls.{
  Call, add, add_absent, get, len, run, tell_all, set_size, step,
}
use ascetic_ddd_rust.IdentityMap.Map.Truth
use ascetic_ddd_rust.IdentityMap.Map.Truth.{Says}
use ascetic_ddd_rust.IdentityMap.Map.Held
use ascetic_ddd_rust.IdentityMap.Map.Fresh.{telling}
use ascetic_ddd_rust.IdentityMap.Map.Fresh

-- A handle of the entity 10 stands outside the map, and none of any other.
abbrev holds_10 : Arc → ℕ
holds_10 e = if e == 10 then 1 else 0

-- Two entities and an absence go through a window of one key.
abbrev calls : List ((Arc → ℕ) × Call ℕ)
calls = (holds_10, add 2 20) ∷ (holds_10, get 2) ∷ (holds_10, add_absent 3) ∷ (holds_10, len) ∷ []

get_held_example :
    ((Map.get dec holds_10 1
        (run dec calls (Map.add dec holds_10 1 10 (run dec calls (new 1 serializable))))).1
      ≡ found 10)
    × ((Map.get dec holds_10 1 (
          run dec calls
            (Map.add dec holds_10 1 10 (run dec calls (generational 1 serializable))))).1
        ≡ found 10)
unfolding admits
get_held_example =
    Map.Held.get_held dec 1 10 1 serializable calls calls holds_10 holds_10 (omega arith) refl
      (omega arith)
      (
        (λ e. omega arith, omega arith),
        (omega arith, ((λ e. omega arith, omega arith), (omega arith, tt))),
      )
      (omega arith)

get_truthful_example :
    Says
      (Map.get dec holds_10 2 (run dec calls (new 1 serializable))).1
      (tell_all dec serializable calls (λ _. none) 2)
    × Says
        (Map.get dec holds_10 2 (run dec calls (generational 1 serializable))).1
        (tell_all dec serializable calls (λ _. none) 2)
get_truthful_example = Map.Truth.get_truthful dec 1 serializable calls holds_10 2 (omega arith)

run-IsValid_example :
    State.Laws.IsValid dec (run dec calls (new 1 serializable)).state
    × State.Laws.IsValid dec (run dec calls (generational 1 serializable)).state
run-IsValid_example = Map.Invariant.run-IsValid dec 1 serializable calls (omega arith)

-- A window of two keys, in which 1 was used after 2.
abbrev one : Recency ℕ
one = (Recency.admit dec 2 (Recency.new 2)).0

abbrev two : Recency ℕ
two = (Recency.admit dec 1 one).0

one_in_time : one.clock + 1 < u64_mod
unfolding Recency.new
one_in_time = omega (arith, Members.clock-admit-le dec 2 (Recency.new 2))

two_in_time : two.clock + 1 < u64_mod
unfolding Recency.new
two_in_time =
    omega (arith, Members.clock-admit-le dec 2 (Recency.new 2), Members.clock-admit-le dec 1 one)

one-IsValid : Lru.IsValid dec one
unfolding Recency.new
one-IsValid = Lru.admit-IsValid dec (Recency.new 2) 2 (Lru.new-IsValid dec 2) (omega arith)

two-IsValid : Lru.IsValid dec two
two-IsValid = Lru.admit-IsValid dec one 1 one-IsValid one_in_time

abbrev touched : List ℕ
touched = HashSet.remove dec 3 (keys two.order) ++ 3 ∷ []

admit-view_example :
    (keys (Recency.admit dec 3 two).0.order ≡ drop (length touched - two.size) touched)
    × ((Recency.admit dec 3 two).1 ≡ take (length touched - two.size) touched)
    × ((Recency.admit dec 3 two).0.size ≡ two.size)
admit-view_example = Lru.admit-view dec two 3 two-IsValid two_in_time

holds-admit_example : Window.Laws.holds dec 2 (Window.admit dec 3 (recency two)).0 ≡ (
    (same dec 3 2 || Window.Laws.holds dec 2 (recency two))
    && not (HashSet.contains dec 2 (Window.admit dec 3 (recency two)).1))
holds-admit_example = Window.Laws.holds-admit dec 3 2 (recency two) two-IsValid two_in_time

abbrev generation : Generations ℕ
generation = record { size = 2; young = 4 ∷ 5 ∷ []; old = 6 ∷ [] }

admit_all-holds_example :
    Generations.Laws.holds dec 1 (admit_all dec (7 ∷ 8 ∷ []) (Generations.admit dec 1 generation).0)
    ≡ true
admit_all-holds_example =
    Survival.admit_all-holds dec 1 (7 ∷ 8 ∷ []) generation (omega arith) (omega arith)

-- The memory after the calls, over the window of last use.
abbrev memory : State ℕ
memory = (run dec calls (new 1 serializable)).state

ready : Map.Invariant.IsReady dec 2 (run dec calls (new 1 serializable))
ready =
    Map.Invariant.run-IsReady dec 2 calls (new 1 serializable)
      (Map.Invariant.new-IsReady dec 6 1 serializable (omega arith))

memory-InTime : Window.Laws.InTime memory.window
memory-InTime = omega (arith, ready.in_time)

-- The calls with another size between them.
abbrev resized : List ((Arc → ℕ) × Call ℕ)
resized = (holds_10, set_size 2) ∷ calls

get_fresh_example :
    ((Map.get dec holds_10 5
        (step dec holds_10 (telling 5 of_absence) (run dec resized (new 1 serializable)))).1
      ≡ answer_of of_absence)
    × ((Map.get dec holds_10 5 (
          step dec holds_10
            (telling 5 of_absence)
            (run dec resized (generational 1 serializable)))).1
        ≡ answer_of of_absence)
unfolding admits
get_fresh_example =
    Map.Fresh.get_fresh dec 1 serializable resized holds_10 holds_10 5 of_absence (omega arith) refl
      (omega arith, tt) (omega arith)
