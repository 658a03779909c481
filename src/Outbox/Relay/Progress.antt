-- ===== src/Outbox/Relay/Progress.antt =====
-- Relays that are repeated while an epoch is in flight.
use Prim.Native.String.{String}
use ascetic_ddd_rust.Prelude.{
  ℕ, zero, suc, ◌+◌, ◌-◌, ◌≤◌, ◌<◌, List, [], ◌∷◌, Bool, true, Option, none, some, ◌≡◌, ◌⊎◌, inl,
  inr, refl, sym, subst, ap, ◌∙◌, arith, ltb, length, map, take, retain, Bool-cases,
}
use ascetic_ddd_rust.Prelude.Result.{Result, ok, ◌>>=◌}
use ascetic_ddd_rust.Outbox.Snapshot.{Snapshot}
use ascetic_ddd_rust.Outbox.Ring.{Ring}
use ascetic_ddd_rust.Outbox.Position.{Generation, Epoch, Position}
use ascetic_ddd_rust.Outbox.Table.{OutboxMessage, View, Texts, All, merge_all, last_position}
use ascetic_ddd_rust.Outbox.Table.Counts.{All-map}
use ascetic_ddd_rust.Outbox.Table.Past.{
  left, left-le, left-lt, left-last_position, All-take, retain-All, All-merge,
}
use ascetic_ddd_rust.Outbox.Relay.{
  Error, Start, hand_on, ack, acked, in_branch, read_batch, relay_batch, relay_started,
  relay_in_flight, convert, start_epoch, start_rows, opened, begin_epoch, start_of, relay,
}

unfoldable pub goes_on :
    (Position → Result Error Position) → Position → Option Epoch → Result Error Position
goes_on next p none = ok p
goes_on next p (some e) = next p

module _ {B : Type 0} where
  -- Where a relay heads for: the snapshot of the epoch in flight, or of one that starts now.
  unfoldable pub heads_for : View B → Option Epoch → Snapshot
  heads_for v none = v.now
  heads_for v (some e) = e.snapshot

module _ {B : Type 0} (ring : Ring) (texts : Texts) (slot : ℕ) (uri : String) (limit : ℕ)
    (accepts : OutboxMessage B → Bool) (v : View B) where
  -- A relay is repeated while an epoch is in flight, `fuel` times at most.
  unfoldable pub drain : ℕ → Position → Result Error Position
  drain zero p = ok p
  drain (suc fuel) p = do
    out ← relay ring texts slot uri limit accepts v v p p.epoch
    goes_on (drain fuel) out.0 out.0.epoch

  module _ {ℓ} (Q : OutboxMessage B → Type ℓ) (e : Epoch) (delivered : Snapshot)
      (past : All (λ r. ltb e.offset r.position ≡ true → Q r) v.rows) where
    All-in_branch :
        (g : Generation)
        → All Q (take limit (retain (in_branch ring texts slot uri e delivered g) v.rows))
    unfolding in_branch
    All-in_branch g =
        All-take Q limit _
          (retain-All Q _ v.rows (All-map _ _ v.rows (λ r k i. k (ground arith)) past))

    All-branches :
        (gens : List Generation)
        → All Q (
            merge_all (
              map
                (λ g. take limit (retain (in_branch ring texts slot uri e delivered g) v.rows))
                gens))
    unfolding merge_all
    All-branches [] = tt
    All-branches (g ∷ gens) = All-merge Q _ _ (All-in_branch g) (All-branches gens)

    -- What holds of the rows past the offset holds of a batch.
    All-read_batch : All Q (read_batch ring texts slot uri limit v e delivered)
    unfolding read_batch
    All-read_batch = All-take Q limit _ (All-branches _)

  -- A step ends the epoch, or leaves fewer than `m` rows past its offset.
  abbrev Advances : Snapshot → ℕ → Result Error (Position × List (OutboxMessage B)) → Type 0
  Advances target m outcome =
      (q : Position) × (messages : List (OutboxMessage B)) × (outcome ≡ ok (q, messages))
      × ((q ≡ record { delivered = target; epoch = none })
          ⊎ ((e : Epoch) × (q.epoch ≡ some e) × (e.snapshot ≡ target) × (left e.offset v.rows < m)))

  module _ (willing : (r : OutboxMessage B) → accepts r ≡ true) (positive : 0 < limit) where
    hand_on-accepted :
        (rows : List (OutboxMessage B)) → hand_on ring texts slot uri accepts rows ≡ ok tt
    unfolding hand_on
    hand_on-accepted [] = refl
    hand_on-accepted (r ∷ rows) = rw (willing r) (hand_on-accepted rows)

    acked-cases :
        (messages : List (OutboxMessage B)) (e : Epoch) (p : Position) (m : ℕ)
        → left e.offset v.rows ≤ m
        → All (λ r. left r.position v.rows < left e.offset v.rows) messages
        → let q = acked ring texts slot uri limit messages e p in
          (q ≡ record { delivered = e.snapshot; epoch = none })
          ⊎ ((e' : Epoch) × (q.epoch ≡ some e')
              × (e'.snapshot ≡ e.snapshot)
              × (left e'.offset v.rows < m))
    unfolding acked ack
    acked-cases messages e p m le h = elim (Bool-cases (ltb (length messages) limit)) [
      | inl short ↦ inl (rw short refl)
      | inr full ↦ inr (
        record e { offset = last_position e.offset messages },
        rw full refl,
        refl,
        omega (
          arith,
          left-last_position (left e.offset v.rows) e.offset v.rows messages (ground arith) h,
        ),
      )
    ]

    batch-Advances :
        (p : Position) (e : Epoch) (m : ℕ)
        → left e.offset v.rows ≤ m
        → Advances e.snapshot m (relay_batch ring texts slot uri limit accepts v p e)
    unfolding relay_batch
    batch-Advances p e m le =
        let messages = read_batch ring texts slot uri limit v e p.delivered in
        (
          acked ring texts slot uri limit messages e p,
          messages,
          rw (hand_on-accepted messages) refl,
          acked-cases messages e p m le (All-read_batch _ e p.delivered (left-lt e.offset v.rows)),
        )

    started-Advances :
        (p : Position) (s : Start) (o : Option Epoch)
        → ((e : Epoch) → o ≡ some e → e.snapshot ≡ s.epoch)
        → Advances s.epoch
            (suc (length v.rows))
            (relay_started ring texts slot uri limit accepts v p s o)
    unfolding relay_started ack
    started-Advances p s none same =
        (record { delivered = s.epoch; epoch = none }, [], refl, inl refl)
    started-Advances p s (some e) same =
        subst
          (λ target.
            Advances target (suc (length v.rows))
              (relay_batch ring texts slot uri limit accepts v p e))
          (same e refl)
          (batch-Advances p e (suc (length v.rows)) (omega (arith, left-le e.offset v.rows)))

    opened-snapshot :
        (s : Start) (first last : Option ℕ) (e : Epoch)
        → opened s first last ≡ some e
        → e.snapshot ≡ s.epoch
    unfolding opened
    opened-snapshot s (some first) (some last) e h =
        let started : record {
          snapshot = s.epoch;
          offset = first - 1;
          end = some last;
          generations = s.generations;
        }
            ≡ e =
          cc in
        ap (λ (x : Epoch). x.snapshot) (sym started)
    opened-snapshot s (some first) none e h = absurd (cc)
    opened-snapshot s none last e h = absurd (cc)

    -- More than the steps that are left, once one is made.
    remaining : Option Epoch → ℕ
    remaining none = suc (length v.rows)
    remaining (some e) = left e.offset v.rows

    remaining-lt : (o : Option Epoch) → remaining o < 2 + length v.rows
    unfolding remaining
    remaining-lt none = omega arith
    remaining-lt (some e) = omega (arith, left-le e.offset v.rows)

    in_flight-Advances :
        (p : Position) (e : Epoch) (o : Option ℕ)
        → Advances e.snapshot
            (left e.offset v.rows)
            (relay_in_flight ring texts slot uri limit accepts v v p e o)
    unfolding relay_in_flight start_epoch convert
    in_flight-Advances p e none = batch-Advances p _ _ (omega arith)
    in_flight-Advances p e (some end) = batch-Advances p e _ (omega arith)

    module _ (sequential : v.sequential ≡ true) where
      start_epoch-start_rows :
          (p : Position)
          → start_epoch ring texts slot uri v p.delivered none
            ≡ ok (start_rows ring texts slot uri v p.delivered v.now)
      unfolding start_epoch
      start_epoch-start_rows p = rw sequential refl

      relay-Advances :
          (p : Position) (o : Option Epoch)
          → Advances (heads_for v o) (remaining o) (relay ring texts slot uri limit accepts v v p o)
      unfolding relay start_rows start_of begin_epoch heads_for remaining
      relay-Advances p none =
          let s = start_rows ring texts slot uri v p.delivered v.now in
          rw (start_epoch-start_rows p)
            (started-Advances p s (begin_epoch s) (λ e. opened-snapshot s s.first s.last e))
      relay-Advances p (some e) = in_flight-Advances p e e.end

      goes_on-ends :
          (next : Position → Result Error Position) (q : Position) (e : Epoch) (target : Snapshot)
          → q.epoch ≡ some e
          → e.snapshot ≡ target
          → next q ≡ ok (record { delivered = heads_for v q.epoch; epoch = none })
          → goes_on next q q.epoch ≡ ok (record { delivered = target; epoch = none })
      unfolding goes_on heads_for
      goes_on-ends next q e target flies same ends =
          ap (goes_on next q) flies
          ∙ ends
          ∙ ap (λ s. ok (record { delivered = s; epoch = none })) (ap (heads_for v) flies ∙ same)

      drain-ends :
          (fuel : ℕ) (p : Position)
          → remaining p.epoch < fuel
          → drain fuel p ≡ ok (record { delivered = heads_for v p.epoch; epoch = none })
      unfolding drain remaining goes_on
      drain-ends zero p h = absurd (omega arith)
      drain-ends (suc fuel) p h =
          let (q, messages, e, ends) = relay-Advances p p.epoch in
          rw e (elim ends [
            | inl done ↦ ap (λ (r : Position). goes_on (drain fuel) r r.epoch) done
            | inr (flying, flies, same, less) ↦
                goes_on-ends (drain fuel) q flying (heads_for v p.epoch) flies same
                  (drain-ends fuel q (subst (λ o. remaining o < fuel) (sym flies) (omega arith)))
          ])

      -- Where the subscriber accepts every message, a batch holds one at least and the positions are
      -- drawn one at a time, relay after relay of the same table drains it, from any position: within
      -- two relays more than the table has rows no epoch is in flight, and everything is delivered
      -- that the epoch in flight saw, or where none was, that the server saw.
      pub relay-drains :
          (fuel : ℕ) (p : Position)
          → 2 + length v.rows ≤ fuel
          → drain fuel p ≡ ok (record { delivered = heads_for v p.epoch; epoch = none })
      relay-drains fuel p h = drain-ends fuel p (omega (arith, remaining-lt p.epoch))
