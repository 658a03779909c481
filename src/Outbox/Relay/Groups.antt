-- ===== src/Outbox/Relay/Groups.antt =====
-- The generations that an epoch's start finds rows in name every row that the epoch owes.
use Prim.Native.String.{String}
use ascetic_ddd_rust.Prelude.{
  ℕ, suc, List, [], ◌∷◌, true, false, Option, none, some, ◌≡◌, refl, subst, sym, arith, ◌==◌,
  Bool-cases, inl, inr,
}
use ascetic_ddd_rust.Prelude.BTreeSet
use ascetic_ddd_rust.Prelude.BTreeSet.{contains}
use ascetic_ddd_rust.Outbox.Ring.{Ring, generation_of}
use ascetic_ddd_rust.Outbox.Position.{Generation}
use ascetic_ddd_rust.Outbox.Table.{OutboxMessage, Texts, All}
use ascetic_ddd_rust.Outbox.Table.Counts.{All-map, All-zip}
use ascetic_ddd_rust.Outbox.Relay.{widen, group, groups, found_first}
use ascetic_ddd_rust.Outbox.Relay.Batch.{has_name, Distinct, is_named}

abbrev Named : ℕ → Option Generation → Type 0
Named g none = Unit
Named g (some found) = found.generation ≡ g

found-has_name :
    (n g : ℕ) (o : Option Generation) (later : List Generation)
    → Named g o
    → has_name n later ≡ false
    → (g == n) ≡ false
    → has_name n (found_first o later) ≡ false
unfolding found_first has_name
found-has_name n g none later d h e = h
found-has_name n g (some found) later d h e = ground arith

found-Distinct :
    (g : ℕ) (o : Option Generation) (later : List Generation)
    → Named g o
    → has_name g later ≡ false
    → Distinct later
    → Distinct (found_first o later)
unfolding found_first Distinct
found-Distinct g none later n h d = d
found-Distinct g (some found) later n h d = (rw n h, d)

module _ {B : Type 0} (ring : Ring) (texts : Texts) (slot : ℕ) (uri : String) where
  -- What a group of rows says of each of them.
  abbrev Bounds : ℕ → Option Generation → OutboxMessage B → Type 0
  Bounds g none r = (generation_of r.transaction_id ring == g) ≡ false
  Bounds g (some found) r =
      (generation_of r.transaction_id ring == g) ≡ true → is_named ring (found ∷ []) r ≡ true

  widen-Bounds :
      (g : ℕ) (r : OutboxMessage B) (rest : Option Generation) (s : OutboxMessage B)
      → Bounds g rest s
      → Bounds g (widen ring texts slot uri g r rest) s
  unfolding widen is_named
  widen-Bounds g r none s h = λ e. absurd (ground arith)
  widen-Bounds g r (some rest) s h = λ e. ground (arith, h e)

  widen-Bounds_self :
      (g : ℕ) (r : OutboxMessage B) (rest : Option Generation)
      → Named g rest
      → Bounds g (widen ring texts slot uri g r rest) r
  unfolding widen is_named
  widen-Bounds_self g r none n = λ e. ground arith
  widen-Bounds_self g r (some rest) n = λ e. ground arith

  absent-Bounds :
      (g : ℕ) (r : OutboxMessage B) (rest : Option Generation)
      → (generation_of r.transaction_id ring == g) ≡ false
      → Bounds g rest r
  absent-Bounds g r none e = e
  absent-Bounds g r (some rest) e = λ f. absurd (ground arith)

  widen-Named :
      (g : ℕ) (r : OutboxMessage B) (rest : Option Generation)
      → Named g (widen ring texts slot uri g r rest)
  unfolding widen
  widen-Named g r none = refl
  widen-Named g r (some rest) = refl

  group-same :
      (g : ℕ) (r : OutboxMessage B) (rows : List (OutboxMessage B))
      → (generation_of r.transaction_id ring == g) ≡ true
      → group ring texts slot uri g (r ∷ rows)
        ≡ widen ring texts slot uri g r (group ring texts slot uri g rows)
  unfolding group
  group-same g r rows e = rw e refl

  group-other :
      (g : ℕ) (r : OutboxMessage B) (rows : List (OutboxMessage B))
      → (generation_of r.transaction_id ring == g) ≡ false
      → group ring texts slot uri g (r ∷ rows) ≡ group ring texts slot uri g rows
  unfolding group
  group-other g r rows e = rw e refl

  group-Named : (g : ℕ) (rows : List (OutboxMessage B)) → Named g (group ring texts slot uri g rows)
  group-Named g [] = unfold group in tt
  group-Named g (r ∷ rows) = elim (Bool-cases (generation_of r.transaction_id ring == g)) [
    | inl same ↦ rw (group-same g r rows same) (widen-Named g r _)
    | inr other ↦ rw (group-other g r rows other) (group-Named g rows)
  ]

  group-Bounds :
      (g : ℕ) (rows : List (OutboxMessage B))
      → All (Bounds g (group ring texts slot uri g rows)) rows
  group-Bounds g [] = tt
  group-Bounds g (r ∷ rows) = elim (Bool-cases (generation_of r.transaction_id ring == g)) [
    | inl same ↦
        subst (λ o. All (Bounds g o) (r ∷ rows)) (sym (group-same g r rows same))
          (
            widen-Bounds_self g r (group ring texts slot uri g rows) (group-Named g rows),
            All-map _ _ rows (widen-Bounds g r (group ring texts slot uri g rows))
                (group-Bounds g rows),
          )
    | inr other ↦
        subst (λ o. All (Bounds g o) (r ∷ rows)) (sym (group-other g r rows other))
          (absent-Bounds g r (group ring texts slot uri g rows) other, group-Bounds g rows)
  ]

  -- What is found first names the rows of its name.
  found-named :
      (g : ℕ) (o : Option Generation) (later : List Generation) (r : OutboxMessage B)
      → Bounds g o r
      → (((g == generation_of r.transaction_id ring) ≡ false) → is_named ring later r ≡ true)
      → is_named ring (found_first o later) r ≡ true
  unfolding found_first is_named
  found-named g none later r b h = h (ground arith)
  found-named g (some found) later r b h =
      elim (Bool-cases (generation_of r.transaction_id ring == g)) [
        | inl same ↦ ground (arith, b same)
        | inr other ↦ ground (arith, h (ground arith))
      ]

  pub groups-named :
      (names : List ℕ) (rows : List (OutboxMessage B))
      → All
          (λ r.
            contains (generation_of r.transaction_id ring) names ≡ true
            → is_named ring (groups ring texts slot uri names rows) r ≡ true)
          rows
  unfolding groups contains
  groups-named [] rows = All-trivial rows
    where
      All-trivial :
          (xs : List (OutboxMessage B)) → All (λ r. false ≡ true → is_named ring [] r ≡ true) xs
      All-trivial [] = tt
      All-trivial (x ∷ xs) = (λ e. cc, All-trivial xs)
  groups-named (g ∷ names) rows =
      All-map _ _ rows
        (λ r k c.
          found-named g (group ring texts slot uri g rows) (groups ring texts slot uri names rows) r
            k.0 (λ other. k.1 (ground arith)))
        (All-zip _ _ rows (group-Bounds g rows) (groups-named names rows))

  groups-has_name :
      (n : ℕ) (names : List ℕ) (rows : List (OutboxMessage B))
      → contains n names ≡ false
      → has_name n (groups ring texts slot uri names rows) ≡ false
  unfolding groups contains
  groups-has_name n [] rows h = unfold has_name in refl
  groups-has_name n (g ∷ names) rows h =
      found-has_name n g _ _ (group-Named g rows) (groups-has_name n names rows (ground arith))
        (ground arith)

  pub groups-Distinct :
      (low : ℕ) (names : List ℕ) (rows : List (OutboxMessage B))
      → BTreeSet.From low names
      → Distinct (groups ring texts slot uri names rows)
  unfolding groups BTreeSet.From
  groups-Distinct low [] rows f = unfold Distinct in tt
  groups-Distinct low (g ∷ names) rows f =
      found-Distinct g _ _ (group-Named g rows)
        (groups-has_name g names rows (BTreeSet.contains-From g (suc g) names f.1 (omega arith)))
        (groups-Distinct (suc g) names rows f.1)
