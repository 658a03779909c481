-- ===== src/Saga/Resolver/Registrations.antt =====
-- The registry after any registrations, in their order.
use Prim.Native.String.{String}
use ascetic_ddd_rust.Prelude.{
  List, [], ◌∷◌, Option, none, some, ◌≡◌, ◌⊎◌, inl, inr, refl, ap, arith,
}
use ascetic_ddd_rust.Prelude.HashMap
use ascetic_ddd_rust.Prelude.Result.{ok}
use ascetic_ddd_rust.Saga.Resolver
use ascetic_ddd_rust.Saga.Resolver.{
  ActivityTypeResolver, MapBasedResolver, empty, register, register_all, IsConsistent,
  register-IsConsistent, empty-IsConsistent, resolver_of, ok_or, name_or,
}

-- A name is registered for a type.
abbrev pub Registered : {N T : Type 0} → List (N × T) → N → T → Type 0
Registered [] name t = ⊥
Registered ((n, u) ∷ regs) name t = ((n ≡ name) × (u ≡ t)) ⊎ Registered regs name t

module _ {K V : Type 0} (dec : Discrete K) where
  -- The map has something for the key.
  abbrev Holds : K → List (K × V) → Type 0
  Holds k m = (v : V) × (HashMap.find dec k m ≡ some v)

  insert-Holds :
      (k j : K) (v : V) (m : List (K × V))
      → (k ≡ j) ⊎ Holds j m
      → Holds j (HashMap.insert dec k v m)
  insert-Holds k j v m h = elim (dec k j) [
    | yes same ↦ (v, ground (arith, HashMap.find-insert dec j k v m))
    | no other ↦ elim h [
      | inl same ↦ absurd (other same)
      | inr (w, e) ↦ (w, ground (arith, HashMap.find-insert dec j k v m))
    ]
  ]

module _ {N T : Type 0} (dec_name : Discrete N) (dec_type : Discrete T) where
  -- What the maps hold was registered, and a type's name leads back to it.
  IsSound : (N → T → Type 0) → MapBasedResolver N T → Type 0
  IsSound P r =
      IsConsistent dec_name dec_type r
      × ((name : N) (t : T) → HashMap.find dec_name name r.name_to_type ≡ some t → P name t)
      × ((name : N) (t : T) → HashMap.find dec_type t r.type_to_name ≡ some name → P name t)

  free_or_same :
      (P : N → T → Type 0) (name : N) (t : T) (r : MapBasedResolver N T)
      → ((n : N) (u u' : T) → P n u → P n u' → u ≡ u')
      → IsSound P r
      → P name t
      → (HashMap.find dec_name name r.name_to_type ≡ none)
        ⊎ (HashMap.find dec_name name r.name_to_type ≡ some t)
  unfolding IsSound
  free_or_same P name t r one sound p = go (HashMap.find dec_name name r.name_to_type) refl
    where
      go :
          (o : Option T)
          → HashMap.find dec_name name r.name_to_type ≡ o
          → (HashMap.find dec_name name r.name_to_type ≡ none)
            ⊎ (HashMap.find dec_name name r.name_to_type ≡ some t)
      go none e = inl e
      go (some u) e = let same = one name u t (sound.1 name u e) p in inr (cc)

  register-IsSound :
      (P : N → T → Type 0) (name : N) (t : T) (r : MapBasedResolver N T)
      → ((n : N) (u u' : T) → P n u → P n u' → u ≡ u')
      → IsSound P r
      → P name t
      → IsSound P (register dec_name dec_type name t r)
  unfolding IsSound register
  register-IsSound P name t r one sound p = (
    register-IsConsistent dec_name dec_type name t r (free_or_same P name t r one sound p) sound.0,
    (λ n u e. ground (arith, HashMap.find-insert dec_name n name t r.name_to_type, sound.1 n u, p)),
    (λ n u e. ground (arith, HashMap.find-insert dec_type u t name r.type_to_name, sound.2 n u, p)),
  )

  register_all-IsSound :
      (P : N → T → Type 0) (regs : List (N × T)) (r : MapBasedResolver N T)
      → ((n : N) (u u' : T) → P n u → P n u' → u ≡ u')
      → ((n : N) (u : T) → Registered regs n u → P n u)
      → IsSound P r
      → IsSound P (register_all dec_name dec_type regs r)
  unfolding register_all
  register_all-IsSound P [] r one all sound = sound
  register_all-IsSound P ((name, t) ∷ regs) r one all sound =
      register_all-IsSound P regs (register dec_name dec_type name t r) one
        (λ n u h. all n u (inr h))
        (register-IsSound P name t r one sound (all name t (inl (refl, refl))))

  empty-IsSound : (P : N → T → Type 0) → IsSound P empty
  unfolding IsSound empty HashMap.find
  empty-IsSound P =
      (empty-IsConsistent dec_name dec_type, (λ n u e. absurd (cc)), λ n u e. absurd (cc))

  register_all-type_to_name :
      (t : T) (regs : List (N × T)) (r : MapBasedResolver N T)
      → ((name : N) × Registered regs name t) ⊎ Holds dec_type t r.type_to_name
      → Holds dec_type t (register_all dec_name dec_type regs r).type_to_name
  unfolding register_all register
  register_all-type_to_name t [] r (inl (n, none_is)) = absurd none_is
  register_all-type_to_name t [] r (inr k) = k
  register_all-type_to_name t ((name, u) ∷ regs) r (inl (n, inl (e, e'))) =
      register_all-type_to_name t regs _
        (inr (insert-Holds dec_type u t name r.type_to_name (inl e')))
  register_all-type_to_name t ((name, u) ∷ regs) r (inl (n, inr later)) =
      register_all-type_to_name t regs _ (inl (n, later))
  register_all-type_to_name t ((name, u) ∷ regs) r (inr k) =
      register_all-type_to_name t regs _
        (inr (insert-Holds dec_type u t name r.type_to_name (inr k)))

  register_all-name_to_type :
      (name : N) (regs : List (N × T)) (r : MapBasedResolver N T)
      → ((t : T) × Registered regs name t) ⊎ Holds dec_name name r.name_to_type
      → Holds dec_name name (register_all dec_name dec_type regs r).name_to_type
  unfolding register_all register
  register_all-name_to_type name [] r (inl (t, none_is)) = absurd none_is
  register_all-name_to_type name [] r (inr k) = k
  register_all-name_to_type name ((n, u) ∷ regs) r (inl (t, inl (e, e'))) =
      register_all-name_to_type name regs _
        (inr (insert-Holds dec_name n name u r.name_to_type (inl e)))
  register_all-name_to_type name ((n, u) ∷ regs) r (inl (t, inr later)) =
      register_all-name_to_type name regs _ (inl (t, later))
  register_all-name_to_type name ((n, u) ∷ regs) r (inr k) =
      register_all-name_to_type name regs _
        (inr (insert-Holds dec_name n name u r.name_to_type (inr k)))

module _ {N T : Type 0} (dec_name : Discrete N) (dec_type : Discrete T) (text : N → String)
    (short_name : T → String) (type_name : T → Option N) where
  -- If no name is registered for two types, then after all the registrations every registered name
  -- resolves to its type, and for every registered type there is a name, one that was registered for
  -- it, which resolves to the type.
  pub resolve-register_all :
      (regs : List (N × T)) (name : N) (t : T)
      → ((n : N) (u u' : T) → Registered regs n u → Registered regs n u' → u ≡ u')
      → Registered regs name t
      → let r =
          resolver_of dec_name dec_type text short_name type_name
            (register_all dec_name dec_type regs empty) in
        (r.resolve name ≡ ok t)
        × ((own : N) × (r.get_name t ≡ ok own) × Registered regs own t × (r.resolve own ≡ ok t))
  unfolding resolver_of Resolver.resolve Resolver.get_name IsSound IsConsistent
  resolve-register_all regs name t one h =
      let sound =
        register_all-IsSound dec_name dec_type (Registered regs) regs empty one (λ n u k. k)
          (empty-IsSound dec_name dec_type (Registered regs)) in
      let (u, known) = register_all-name_to_type dec_name dec_type name regs empty (inl (t, h)) in
      let (own, named) = register_all-type_to_name dec_name dec_type t regs empty (inl (name, h)) in
      let same = one name u t (sound.1 name u known) h in
      let back = sound.0 t own named in
      (rw known (ap ok same), (own, rw named refl, sound.2 own t named, rw back refl))
