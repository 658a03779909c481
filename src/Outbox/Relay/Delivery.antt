-- ===== src/Outbox/Relay/Delivery.antt =====
-- A relay's step hands on what its position then counts.
use Prim.Native.String.{String}
use ascetic_ddd_rust.Prelude.{
  ℕ, List, ◌++◌, Bool, true, Option, none, some, ◌≡◌, refl, ap, subst, ltb, ltb→lt, length,
  Bool-cases, inl, inr,
}
use ascetic_ddd_rust.Prelude.Result.{ok, bind-ok_const}
use ascetic_ddd_rust.Outbox.Snapshot.{Snapshot}
use ascetic_ddd_rust.Outbox.Ring.{Ring}
use ascetic_ddd_rust.Outbox.Position.{Epoch, Position}
use ascetic_ddd_rust.Outbox.Table.{OutboxMessage, View, Texts, All, last_position}
use ascetic_ddd_rust.Outbox.Relay.{read_batch, hand_on, ack, acked, relay_batch}
use ascetic_ddd_rust.Outbox.Relay.Batch.{Distinct, is_named, is_owed}
use ascetic_ddd_rust.Outbox.Relay.Lane.{Finds, Owed, IsRelayed}
use ascetic_ddd_rust.Outbox.Relay.Counting.{drained-once, moved-once, batch-known}

module _ {B : Type 0} (ring : Ring) (texts : Texts) (slot : ℕ) (uri : String) where
  Finds-moved :
      (o : Option ℕ) (e : Epoch) (n : ℕ) (d : Snapshot) (rows : List (OutboxMessage B))
      → Finds ring texts slot uri o e d rows
      → Finds ring texts slot uri o (record e { offset = n }) d rows
  unfolding is_owed
  Finds-moved none e n d rows f = tt
  Finds-moved (some end) e n d rows f = f

  -- The batch of an epoch that is in flight, or has just begun.
  module _ (limit : ℕ) (read : View B) (d : Snapshot) (e : Epoch) (log : List (OutboxMessage B))
      (h : IsRelayed ring texts slot uri read (record { delivered = d; epoch = some e }) log)
      (distinct : Distinct e.generations)
      (named : All
        (λ r. Owed ring texts slot uri e d r → is_named ring e.generations r ≡ true)
        read.rows) where
    abbrev offset_after : ℕ
    offset_after = last_position e.offset (read_batch ring texts slot uri limit read e d)

    acked-IsRelayed :
        (p : Position)
        → p.delivered ≡ d
        → IsRelayed ring texts slot uri read
            (acked ring texts slot uri limit (read_batch ring texts slot uri limit read e d) e p)
            (log ++ read_batch ring texts slot uri limit read e d)
    unfolding acked ack
    acked-IsRelayed p same =
        let f = h.in_flight in
        elim (Bool-cases (ltb (length (read_batch ring texts slot uri limit read e d)) limit)) [
          | inl short ↦ rw short (record {
            order = h.order;
            valid = h.valid;
            past = f.past;
            in_flight = tt;
            once =
                drained-once ring texts slot uri limit read d e log h.order f.after distinct named
                  h.once (ltb→lt _ _ short);
            known =
                batch-known ring texts slot uri limit read d e log h.order f.after distinct named
                  h.once h.known;
          })
          | inr full ↦
              rw (full, same)
                (record {
                  order = h.order;
                  valid = h.valid;
                  past = h.past;
                  in_flight = record {
                    valid = f.valid;
                    after = f.after;
                    past = f.past;
                    finds = Finds-moved e.end e offset_after d read.rows f.finds;
                  };
                  once =
                      moved-once ring texts slot uri limit read d e log h.order f.after distinct
                        named h.once;
                  known =
                      batch-known ring texts slot uri limit read d e log h.order f.after distinct
                        named h.once h.known;
                })
        ]

  -- What a batch that was handed on comes to.
  relay_batch-ok :
      (limit : ℕ) (accepts : OutboxMessage B → Bool) (read : View B) (p : Position) (e : Epoch)
      (p' : Position) (messages : List (OutboxMessage B))
      → relay_batch ring texts slot uri limit accepts read p e ≡ ok (p', messages)
      → (acked ring texts slot uri limit
            (read_batch ring texts slot uri limit read e p.delivered)
            e
            p
          ≡ p')
        × (read_batch ring texts slot uri limit read e p.delivered ≡ messages)
  unfolding relay_batch
  relay_batch-ok limit accepts read p e p' messages h =
      let e : ◌≡◌ {A = Position × List (OutboxMessage B)}
          (
            acked ring texts slot uri limit
                (read_batch ring texts slot uri limit read e p.delivered) e p,
            read_batch ring texts slot uri limit read e p.delivered,
          )
          (p', messages) =
        bind-ok_const
          (hand_on ring texts slot uri accepts
            (read_batch ring texts slot uri limit read e p.delivered))
          _ _ h in
      (ap (λ x. x.0) e, ap (λ x. x.1) e)

  pub relay_batch-IsRelayed :
      (limit : ℕ) (accepts : OutboxMessage B → Bool) (read : View B) (p : Position) (e : Epoch)
      (log : List (OutboxMessage B)) (p' : Position) (messages : List (OutboxMessage B))
      → IsRelayed ring texts slot uri read (record { delivered = p.delivered; epoch = some e }) log
      → Distinct e.generations
      → All
          (λ r. Owed ring texts slot uri e p.delivered r → is_named ring e.generations r ≡ true)
          read.rows
      → relay_batch ring texts slot uri limit accepts read p e ≡ ok (p', messages)
      → IsRelayed ring texts slot uri read p' (log ++ messages)
  relay_batch-IsRelayed limit accepts read p e log p' messages h distinct named eq =
      let (ep, em) = relay_batch-ok limit accepts read p e p' messages eq in
      subst (λ q. IsRelayed ring texts slot uri read q (log ++ messages)) ep
        (subst
          (λ rows.
            IsRelayed ring texts slot uri read
              (acked ring texts slot uri limit
                (read_batch ring texts slot uri limit read e p.delivered) e p)
              (log ++ rows))
          em (acked-IsRelayed limit read p.delivered e log h distinct named p refl))
