-- ===== src/Outbox/Relay/Steps.antt =====
-- A relay's step, from the position that the look took to the one it leaves.
use Prim.Native.String.{String}
use ascetic_ddd_rust.Prelude.{
  ℕ, ◌-◌, List, [], ◌++◌, Bool, true, Option, none, some, ◌≡◌, refl, subst, Bool-cases, inl, inr,
}
use mathlib.Core.List.{append-nil}
use ascetic_ddd_rust.Prelude.Result.{ok}
use ascetic_ddd_rust.Outbox.Snapshot.{Snapshot}
use ascetic_ddd_rust.Outbox.Ring.{Ring}
use ascetic_ddd_rust.Outbox.Ring.Names.{IsReady}
use ascetic_ddd_rust.Outbox.Position.{Epoch, Position}
use ascetic_ddd_rust.Outbox.Table.{OutboxMessage, View, Texts, All}
use ascetic_ddd_rust.Outbox.Relay.{
  start_of, start_rows, start_epoch, begin_epoch, convert, ack, relay_batch, relay_started,
  relay_in_flight, relay,
}
use ascetic_ddd_rust.Outbox.Relay.Batch.{Distinct, is_named, is_owed}
use ascetic_ddd_rust.Outbox.Relay.Lane.{Later, Owed, Finds, Finds-Later, IsRelayed, Later-IsRelayed}
use ascetic_ddd_rust.Outbox.Relay.Opening.{start_rows-Distinct, begin_epoch-none, begin_epoch-some}
use ascetic_ddd_rust.Outbox.Relay.Delivery.{relay_batch-IsRelayed}
use ascetic_ddd_rust.Outbox.Relay.Started.{read-named, opened-IsRelayed, idle-IsRelayed}

module _ {B : Type 0} (ring : Ring) (ready : IsReady ring) (texts : Texts) (slot : ℕ) (uri : String)
    (limit : ℕ) (accepts : OutboxMessage B → Bool) where
  module _ (started read : View B) (l : Later started read) (log : List (OutboxMessage B))
      (p' : Position) (messages : List (OutboxMessage B)) where
    -- What a batch needs of its epoch.
    Ready : Snapshot → Epoch → Type 0
    Ready d e =
        IsRelayed ring texts slot uri read (record { delivered = d; epoch = some e }) log
        × Distinct e.generations
        × All (λ r. Owed ring texts slot uri e d r → is_named ring e.generations r ≡ true) read.rows

    -- A new epoch.
    started-IsRelayed :
        (d : Snapshot)
        → IsRelayed ring texts slot uri started (record { delivered = d; epoch = none }) log
        → (o : Option Epoch)
        → begin_epoch (start_rows ring texts slot uri started d started.now) ≡ o
        → relay_started ring texts slot uri limit accepts read
            (record { delivered = d; epoch = none })
            (start_rows ring texts slot uri started d started.now)
            o
          ≡ ok (p', messages)
        → IsRelayed ring texts slot uri read p' (log ++ messages)
    unfolding relay_started ack start_rows start_of Ready is_owed
    started-IsRelayed d h none e r =
        let gens = (start_rows ring texts slot uri started d started.now).generations in
        let idle =
          idle-IsRelayed ring texts slot uri ready started read l d started.now h.valid (λ x s. s)
            log (Later-IsRelayed ring texts slot uri started read _ log l h) h.past
            (begin_epoch-none started.now gens e) in
        let moved : record { delivered = started.now; epoch = none } ≡ p' = cc in
        let no_message : [] ≡ messages = cc in
        subst (λ m. IsRelayed ring texts slot uri read p' (log ++ m)) no_message
          (rw append-nil (subst (λ q. IsRelayed ring texts slot uri read q log) moved idle))
    started-IsRelayed d h (some epoch) e r =
        let gens = (start_rows ring texts slot uri started d started.now).generations in
        let (first, last, e_first, shape) = begin_epoch-some started.now gens epoch e in
        let hr = Later-IsRelayed ring texts slot uri started read _ log l h in
        let opened_now : Ready d (record {
          snapshot = started.now;
          offset = first - 1;
          end = some last;
          generations = gens;
        }) =
          (
            opened-IsRelayed ring texts slot uri ready started read l d started.now h.valid
                (λ x s. s) log hr h.past first last e_first,
            start_rows-Distinct ring texts slot uri started d started.now,
            read-named ring texts slot uri ready started read l d started.now h.valid (λ x s. s),
          ) in
        let now : Ready d epoch = subst (Ready d) shape opened_now in
        relay_batch-IsRelayed ring texts slot uri limit accepts read _ epoch log p' messages now.0
          now.1 now.2 r

    -- An epoch of the positions before the snapshots, which gets its end.
    converted-IsRelayed :
        (d : Snapshot) (e : Epoch)
        → IsRelayed ring texts slot uri started (record { delivered = d; epoch = some e }) log
        → relay_batch ring texts slot uri limit accepts read
            (record { delivered = d; epoch = some e })
            (convert e (start_rows ring texts slot uri started d e.snapshot))
          ≡ ok (p', messages)
        → IsRelayed ring texts slot uri read p' (log ++ messages)
    unfolding convert is_owed
    converted-IsRelayed d e h r =
        let f = h.in_flight in
        let hr = Later-IsRelayed ring texts slot uri started read _ log l h in
        let distinct = start_rows-Distinct ring texts slot uri started d e.snapshot in
        let named =
          read-named ring texts slot uri ready started read l d e.snapshot f.valid f.past in
        relay_batch-IsRelayed ring texts slot uri limit accepts read _ _ log p' messages
          (record {
            order = hr.order;
            valid = hr.valid;
            past = hr.past;
            in_flight = record {
              valid = f.valid;
              after = f.after;
              past = λ x s. l.grows x (f.past x s);
              finds = (distinct, named);
            };
            once = hr.once;
            known = hr.known;
          })
          distinct named r

    in_flight-IsRelayed :
        (d : Snapshot) (e : Epoch)
        → IsRelayed ring texts slot uri started (record { delivered = d; epoch = some e }) log
        → (o : Option ℕ) → Finds ring texts slot uri o e d started.rows
        → relay_in_flight ring texts slot uri limit accepts started read
            (record { delivered = d; epoch = some e })
            e
            o
          ≡ ok (p', messages)
        → IsRelayed ring texts slot uri read p' (log ++ messages)
    unfolding relay_in_flight start_epoch
    in_flight-IsRelayed d e h none f r = converted-IsRelayed d e h r
    in_flight-IsRelayed d e h (some end) f r =
        let fl = h.in_flight in
        let found = Finds-Later ring texts slot uri (some end) e d started read l fl.past f in
        relay_batch-IsRelayed ring texts slot uri limit accepts read _ e log p' messages
          (Later-IsRelayed ring texts slot uri started read _ log l h) found.0 found.1 r

    pub relay-IsRelayed :
        (d : Snapshot) (o : Option Epoch)
        → IsRelayed ring texts slot uri started (record { delivered = d; epoch = o }) log
        → relay ring texts slot uri limit accepts started read
            (record { delivered = d; epoch = o })
            o
          ≡ ok (p', messages)
        → IsRelayed ring texts slot uri read p' (log ++ messages)
    unfolding relay start_epoch start_rows
    relay-IsRelayed d none h r = elim (Bool-cases started.sequential) [
      | inl sequential ↦
          started-IsRelayed d h (begin_epoch (start_rows ring texts slot uri started d started.now))
            refl (rw sequential at r)
      | inr cached ↦ absurd (cc (rw cached at r))
    ]
    relay-IsRelayed d (some e) h r = in_flight-IsRelayed d e h e.end h.in_flight.finds r
