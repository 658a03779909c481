-- ===== src/Specification/Record.antt =====
-- A candidate made of plain data (crates/specification/src/domain/record.rs).
use Prim.Native.String.{String}
use text.Mathlib.Text.{◌==◌ as str_eq}
use ascetic_ddd_rust.Prelude.{List, [], ◌∷◌, if◌then◌else◌}
use ascetic_ddd_rust.Prelude.Result.{Result, ok, err, ◌>>=◌}
use ascetic_ddd_rust.Specification.Scope.{
  ContextError, missing, not_a_value, not_an_object, not_a_collection, Element, of_value, Context,
}

-- `Members` is the `BTreeMap` of an object, in the order of its keys.
mutual
  pub data Record (V : Type 0) : Type 0 where
    value : V → Record V
    object : Members V → Record V
    collection : Items V → Record V

  pub data Members (V : Type 0) : Type 0 where
    no_member : Members V
    member_of : String → Record V → Members V → Members V

  pub data Items (V : Type 0) : Type 0 where
    no_item : Items V
    item_of : Record V → Items V → Items V

module _ {V : Type 0} where
  unfoldable pub lookup : String → Members V → Result ContextError (Record V)
  lookup name no_member = err (missing name)
  lookup name (member_of key r members) = if str_eq key name then ok r else lookup name members

  unfoldable pub member : Record V → String → Result ContextError (Record V)
  member (object members) name = lookup name members
  member _ name = err (missing name)

  as_value : String → Record V → Result ContextError V
  as_value name (value v) = ok v
  as_value name _ = err (not_a_value name)

  as_object : String → Record V → Result ContextError (Record V)
  as_object name (object members) = ok (object members)
  as_object name _ = err (not_an_object name)

  -- An item of a collection: a value, or anything else as a context.
  element : Record V → Element (Record V) V
  element (value v) = of_value v
  element r = Element.object r

  elements : Items V → List (Element (Record V) V)
  elements no_item = []
  elements (item_of r items) = element r ∷ elements items

  as_collection : String → Record V → Result ContextError (List (Element (Record V) V))
  as_collection name (collection items) = ok (elements items)
  as_collection name _ = err (not_a_collection name)

  unfoldable pub field : Record V → String → Result ContextError V
  unfolding member lookup as_value
  field r name = do m ← member r name; as_value name m

  unfoldable pub object_at : Record V → String → Result ContextError (Record V)
  unfolding member lookup as_object
  object_at r name = do m ← member r name; as_object name m

  unfoldable pub collection_at :
      Record V → String → Result ContextError (List (Element (Record V) V))
  unfolding member lookup as_collection elements element
  collection_at r name = do m ← member r name; as_collection name m

-- `impl Context for Record`
unfoldable pub record_context : (V : Type 0) → Context (Record V) V
unfolding field object_at collection_at
record_context V = record { field = field; object = object_at; collection = collection_at }
