-- ===== src/Saga/Resolver.antt =====
-- The registry of the names of types of activities (crates/saga/src/activity_resolver.rs). A type
-- and its `TypeId` are one here; names are any type with a decidable equality.
pub mod Registrations
use Prim.Native.String.{String}
use ascetic_ddd_rust.Prelude.{List, [], ◌∷◌, Option, none, some, ◌≡◌, ◌⊎◌, arith}
use ascetic_ddd_rust.Prelude.HashMap
use ascetic_ddd_rust.Prelude.Result.{Result, ok, err}
use ascetic_ddd_rust.Saga.RoutingSlip.{SagaError, activity_type_not_registered}

-- The trait `ActivityTypeResolver`.
pub record ActivityTypeResolver (N T : Type 0) : Type 0 where
  pub resolve : N → Result SagaError T
  pub get_name : T → Result SagaError N

pub record MapBasedResolver (N T : Type 0) : Type 0 where
  pub name_to_type : List (N × T)
  pub type_to_name : List (T × N)

unfoldable pub empty : {N T : Type 0} → MapBasedResolver N T
empty = record { name_to_type = []; type_to_name = [] }

module _ {N T : Type 0} (dec_name : Discrete N) (dec_type : Discrete T) where
  unfoldable pub register : N → T → MapBasedResolver N T → MapBasedResolver N T
  register name t r = record {
    name_to_type = HashMap.insert dec_name name t r.name_to_type;
    type_to_name = HashMap.insert dec_type t name r.type_to_name;
  }

  -- Registrations, one after the other.
  unfoldable pub register_all : List (N × T) → MapBasedResolver N T → MapBasedResolver N T
  register_all [] r = r
  register_all ((name, t) ∷ regs) r = register_all regs (register name t r)

  -- A name that the map has for a type leads back to the type.
  unfoldable pub IsConsistent : MapBasedResolver N T → Type 0
  IsConsistent r =
      (t : T) (name : N)
      → HashMap.find dec_type t r.type_to_name ≡ some name
      → HashMap.find dec_name name r.name_to_type ≡ some t

  pub empty-IsConsistent : IsConsistent empty
  unfolding IsConsistent empty HashMap.find
  empty-IsConsistent t name e = cc

  -- If the names that types have lead back to them, this is so after a registration under a name
  -- that stands for no type yet, or for the same type.
  pub register-IsConsistent :
      (name : N) (t : T) (r : MapBasedResolver N T)
      → (HashMap.find dec_name name r.name_to_type ≡ none)
        ⊎ (HashMap.find dec_name name r.name_to_type ≡ some t)
      → IsConsistent r
      → IsConsistent (register name t r)
  unfolding IsConsistent register
  register-IsConsistent name t r free c u other e = ground (
    arith,
    c u other,
    HashMap.find-insert dec_type u t name r.type_to_name,
    HashMap.find-insert dec_name other name t r.name_to_type,
  )

-- `.ok_or_else(..)`
abbrev pub ok_or : {X : Type 0} → SagaError → Option X → Result SagaError X
ok_or e none = err e
ok_or e (some x) = ok x

-- `text` is the text of a name, `short_name` that of a type, and `type_name` the name that an
-- activity of the type gives itself.
module _ {N T : Type 0} (dec_name : Discrete N) (dec_type : Discrete T) (text : N → String)
    (short_name : T → String) (type_name : T → Option N) where
  unfoldable pub resolve : MapBasedResolver N T → N → Result SagaError T
  resolve r name =
      ok_or (activity_type_not_registered (text name)) (HashMap.find dec_name name r.name_to_type)

  -- The name of a type, given what the map has for it.
  abbrev pub name_or : T → Option N → Result SagaError N
  name_or t (some name) = ok name
  name_or t none = ok_or (activity_type_not_registered (short_name t)) (type_name t)

  unfoldable pub get_name : MapBasedResolver N T → T → Result SagaError N
  get_name r t = name_or t (HashMap.find dec_type t r.type_to_name)

  -- `impl ActivityTypeResolver for MapBasedResolver`
  unfoldable pub resolver_of : MapBasedResolver N T → ActivityTypeResolver N T
  unfolding resolve get_name
  resolver_of r = record { resolve = resolve r; get_name = get_name r }

  -- If the names that types have in the map lead back to them, and so do the names that activities
  -- give themselves, then whatever name the resolver gives for a type it resolves to the type.
  pub resolve-get_name :
      (r : MapBasedResolver N T)
      → IsConsistent dec_name dec_type r
      → ((t : T) (name : N)
          → type_name t ≡ some name
          → HashMap.find dec_name name r.name_to_type ≡ some t)
      → (t : T) (name : N) → (resolver_of r).get_name t ≡ ok name
      → (resolver_of r).resolve name ≡ ok t
  unfolding resolver_of resolve get_name IsConsistent
  resolve-get_name r c own t name e = ground (arith, c t name, own t name)
