-- ===== src/Outbox/Relay/Opening.antt =====
-- An epoch's start finds every row that the epoch owes, and no epoch is opened where it owes none.
use Prim.Native.String.{String}
use ascetic_ddd_rust.Prelude.{
  ℕ, ◌-◌, ◌≤◌, min, List, [], ◌∷◌, true, not, ◌&&◌, Option, none, some, ◌≡◌, ◌≢◌, max, refl, arith,
  map, retain, Bool-cases, Option-cases, inl, inr,
}
use ascetic_ddd_rust.Prelude.BTreeSet.{contains}
use ascetic_ddd_rust.Outbox.Snapshot.{Snapshot, sees}
use ascetic_ddd_rust.Outbox.Ring.{Ring, generation_of, generations_new}
use ascetic_ddd_rust.Outbox.Ring.Names.{IsReady, generations_new-cover, generations_new-From}
use ascetic_ddd_rust.Outbox.Position.{Generation, Epoch}
use ascetic_ddd_rust.Outbox.Table.{OutboxMessage, View, Texts, All}
use ascetic_ddd_rust.Outbox.Table.Counts.{All-map, All-retain}
use ascetic_ddd_rust.Outbox.Relay.{
  Start, in_lane, is_member, groups, start_of, start_rows, least, greatest, opened, begin_epoch,
}
use ascetic_ddd_rust.Outbox.Relay.Batch.{Distinct, is_named}
use ascetic_ddd_rust.Outbox.Relay.Groups.{groups-named, groups-Distinct}

least-cons : (x : ℕ) (xs : List ℕ) → (m : ℕ) × (least (x ∷ xs) ≡ some m)
unfolding least
least-cons x xs = elim (Option-cases (least xs)) [
  | inl e ↦ (x, rw e refl)
  | inr (y, e) ↦ (min x y, rw e refl)
]

greatest-cons : (x : ℕ) (xs : List ℕ) → (m : ℕ) × (greatest (x ∷ xs) ≡ some m)
unfolding greatest
greatest-cons x xs = elim (Option-cases (greatest xs)) [
  | inl e ↦ (x, rw e refl)
  | inr (y, e) ↦ (max x y, rw e refl)
]

opened-ne-none :
    (s : Start) (a b : ℕ) (f l : Option ℕ) → f ≡ some a → l ≡ some b → opened s f l ≢ none
unfolding opened
opened-ne-none s a b none l ef el h = cc
opened-ne-none s a b (some x) none ef el h = cc
opened-ne-none s a b (some x) (some y) ef el h = cc

-- No epoch is opened only where no generation was found.
pub begin_epoch-none :
    (e : Snapshot) (gens : List Generation) → begin_epoch (start_of e gens) ≡ none → gens ≡ []
unfolding begin_epoch start_of
begin_epoch-none e [] h = refl
begin_epoch-none e (g ∷ gens) h =
    let (a, ea) = least-cons g.first (map (λ (x : Generation). x.first) gens) in
    let (b, eb) = greatest-cons g.last (map (λ (x : Generation). x.last) gens) in
    absurd (opened-ne-none _ a b _ _ ea eb h)

opened-some :
    (s : Start) (f l : Option ℕ) (epoch : Epoch)
    → opened s f l ≡ some epoch
    → (first : ℕ) × (last : ℕ) × (f ≡ some first)
      × (record {
        snapshot = s.epoch;
        offset = first - 1;
        end = some last;
        generations = s.generations;
      }
          ≡ epoch)
unfolding opened
opened-some s none l epoch h = absurd (cc)
opened-some s (some x) none epoch h = absurd (cc)
opened-some s (some x) (some y) epoch h = (x, y, refl, cc)

-- An epoch that is opened starts before the first of its generations.
pub begin_epoch-some :
    (e : Snapshot) (gens : List Generation) (epoch : Epoch)
    → begin_epoch (start_of e gens) ≡ some epoch
    → (first : ℕ) × (last : ℕ) × (least (map (λ (g : Generation). g.first) gens) ≡ some first)
      × (record { snapshot = e; offset = first - 1; end = some last; generations = gens } ≡ epoch)
unfolding begin_epoch start_of
begin_epoch-some e gens epoch h = opened-some (start_of e gens) _ _ epoch h

least-le : (x m : ℕ) (xs : List ℕ) → least (x ∷ xs) ≡ some m → m ≤ x
unfolding least
least-le x m xs h = elim (Option-cases (least xs)) [
  | inl e ↦ ground arith
  | inr (y, e) ↦ ground arith
]

least-le_rest :
    (x m : ℕ) (xs : List ℕ) (y : ℕ) → least (x ∷ xs) ≡ some m → least xs ≡ some y → m ≤ y
unfolding least
least-le_rest x m xs y h e = ground arith

pub named-le :
    {B : Type 0} (ring : Ring) (gens : List Generation) (r : OutboxMessage B) (m : ℕ)
    → is_named ring gens r ≡ true
    → least (map (λ (g : Generation). g.first) gens) ≡ some m
    → m ≤ r.position
unfolding is_named
named-le ring [] r m n h = absurd (cc)
named-le ring (g ∷ gens) r m n h =
    let le = least-le g.first m (map (λ (x : Generation). x.first) gens) h in
    elim (Bool-cases (is_named ring gens r)) [
      | inl later ↦ elim (Option-cases (least (map (λ (x : Generation). x.first) gens))) [
        | inl e ↦ absurd (named_least ring gens r later e)
        | inr (y, e) ↦
            let lower = least-le_rest g.first m (map (λ (x : Generation). x.first) gens) y h e in
            omega (arith, named-le ring gens r y later e)
      ]
      | inr here ↦ ground arith
    ]
  where
    named_least :
        {C : Type 0} (ring : Ring) (gs : List Generation) (s : OutboxMessage C)
        → is_named ring gs s ≡ true
        → least (map (λ (x : Generation). x.first) gs) ≢ none
    named_least ring [] s c e = cc
    named_least ring (x ∷ gs) s c e =
        let (a, ea) = least-cons x.first (map (λ (y : Generation). y.first) gs) in cc

module _ {B : Type 0} (ring : Ring) (texts : Texts) (slot : ℕ) (uri : String) where
  owed-member :
      (delivered epoch : Snapshot) (r : OutboxMessage B)
      → epoch.xmin ≤ epoch.xmax
      → (in_lane ring texts slot uri r
          && (sees r.transaction_id epoch && not (sees r.transaction_id delivered)))
        ≡ true
      → is_member ring texts slot uri delivered epoch r ≡ true
  unfolding is_member sees
  owed-member delivered epoch r le o = ground arith

  pub start_rows-named :
      (view : View B) (delivered epoch : Snapshot)
      → IsReady ring
      → epoch.xmin ≤ epoch.xmax
      → All
          (λ r.
            (in_lane ring texts slot uri r
                && (sees r.transaction_id epoch && not (sees r.transaction_id delivered)))
              ≡ true
            → is_named ring (start_rows ring texts slot uri view delivered epoch).generations r
              ≡ true)
          view.rows
  unfolding start_rows start_of
  start_rows-named view delivered epoch ready le =
      All-map _ _ view.rows
        (λ r k o. k (owed-member delivered epoch r le o) (
          generations_new-cover ring ready r.transaction_id delivered epoch le (ground arith)
            (ground arith)))
        (All-retain
          (λ r.
            contains (generation_of r.transaction_id ring) (generations_new ring delivered epoch)
              ≡ true
            → is_named ring
                (groups ring texts slot uri (generations_new ring delivered epoch)
                  (retain (is_member ring texts slot uri delivered epoch) view.rows))
                r
              ≡ true)
          (is_member ring texts slot uri delivered epoch) view.rows
          (groups-named ring texts slot uri (generations_new ring delivered epoch)
            (retain (is_member ring texts slot uri delivered epoch) view.rows)))

  pub start_rows-Distinct :
      (view : View B) (delivered epoch : Snapshot)
      → Distinct (start_rows ring texts slot uri view delivered epoch).generations
  unfolding start_rows start_of
  start_rows-Distinct view delivered epoch =
      groups-Distinct ring texts slot uri 0 _ _ (generations_new-From ring delivered epoch)
