-- ===== src/Outbox/Relay/Counting.antt =====
-- How often the rows of a lane stand in what was handed on, once a batch is added.
use Prim.Native.String.{String}
use ascetic_ddd_rust.Prelude.{
  ℕ, ◌+◌, ◌≤◌, ◌<◌, List, ◌++◌, Bool, true, false, not, ◌&&◌, ◌||◌, ◌≡◌, refl, sym, ap, subst, ◌∙◌,
  arith, leb, ltb, ltb→lt, length, take, retain,
}
use ascetic_ddd_rust.Outbox.Snapshot.{Snapshot, sees}
use ascetic_ddd_rust.Outbox.Ring.{Ring}
use ascetic_ddd_rust.Outbox.Position.{Epoch}
use ascetic_ddd_rust.Outbox.Table.{
  OutboxMessage, View, Texts, All, Above, times, one_if, last_position,
}
use ascetic_ddd_rust.Outbox.Table.Counts.{
  All-map, All-zip, times-append, times-retain, times-retain_absent, times-take_first,
  times-take_absent, take-all, last_position-le, retain-Above_past,
}
use ascetic_ddd_rust.Outbox.Relay.{in_lane, read_batch}
use ascetic_ddd_rust.Outbox.Relay.Batch.{Distinct, is_named, is_owed, read_batch_lem}
use ascetic_ddd_rust.Outbox.Relay.Lane.{Within, Owed}

-- What a drained epoch counts.
drained_count :
    (lane d e : Bool) (offset position : ℕ)
    → (d ≡ true → e ≡ true)
    → one_if (lane && (d || (e && leb position offset)))
        + one_if ((lane && (e && not d)) && ltb offset position)
      ≡ one_if (lane && (e || false))
drained_count lane true e offset position h = ground (arith, h refl)
drained_count lane false e offset position h = ground arith

-- What an epoch counts whose offset has moved.
moved_count :
    (lane d e : Bool) (offset offset' position : ℕ)
    → offset ≤ offset'
    → one_if (lane && (d || (e && leb position offset)))
        + one_if (((lane && (e && not d)) && ltb offset position) && leb position offset')
      ≡ one_if (lane && (d || (e && leb position offset')))
moved_count lane d e offset offset' position h = ground arith

module _ {B : Type 0} (ring : Ring) (texts : Texts) (slot : ℕ) (uri : String) where
  module _ (limit : ℕ) (read : View B) (d : Snapshot) (e : Epoch) (log : List (OutboxMessage B))
      (order : Above 0 read.rows) (after : Within d e.snapshot) (distinct : Distinct e.generations)
      (named : All
        (λ r. Owed ring texts slot uri e d r → is_named ring e.generations r ≡ true)
        read.rows)
      (once : All
        (λ r.
          times r.position log
          ≡ one_if (
              in_lane ring texts slot uri r
              && (sees r.transaction_id d
                  || (sees r.transaction_id e.snapshot && leb r.position e.offset))))
        read.rows) where
    abbrev batch : List (OutboxMessage B)
    batch = read_batch ring texts slot uri limit read e d

    abbrev is_next : OutboxMessage B → Bool
    is_next r = is_owed ring texts slot uri e d r && ltb e.offset r.position

    batch-first : batch ≡ take limit (retain is_next read.rows)
    batch-first = read_batch_lem ring texts slot uri e d limit read order distinct named

    next-Above : Above e.offset (retain is_next read.rows)
    next-Above =
        retain-Above_past is_next e.offset 0 read.rows (λ r h. ltb→lt _ _ (ground arith)) order

    batch-all : length batch < limit → batch ≡ retain is_next read.rows
    batch-all short =
        batch-first
        ∙ take-all limit (retain is_next read.rows)
            (subst (λ rows. length rows < limit) batch-first short)

    -- A short batch is all that the epoch still owes.
    pub drained-once :
        length batch < limit
        → All
            (λ r.
              times r.position (log ++ batch)
              ≡ one_if
                  (in_lane ring texts slot uri r && (sees r.transaction_id e.snapshot || false)))
            read.rows
    unfolding is_owed
    drained-once short =
        All-map _ _ read.rows
          (λ r k.
            times-append r.position log batch
            ∙ (ap (λ rows. times r.position log + times r.position rows) (batch-all short)
                ∙ (ap (λ n. n + times r.position (retain is_next read.rows)) k.0
                    ∙ (ap
                          (λ n.
                            one_if (
                              in_lane ring texts slot uri r
                              && (sees r.transaction_id d
                                  || (sees r.transaction_id e.snapshot && leb r.position e.offset)))
                            + n)
                          k.1
                        ∙ drained_count (in_lane ring texts slot uri r) (sees r.transaction_id d)
                            (sees r.transaction_id e.snapshot) e.offset r.position
                            (after r.transaction_id)))))
          (All-zip _ _ read.rows once (times-retain is_next 0 read.rows order))

    abbrev offset' : ℕ
    offset' = last_position e.offset batch

    offset-le : e.offset ≤ offset'
    offset-le = rw batch-first (last_position-le limit e.offset _ next-Above)

    -- A row stands in the batch if it is next and no further than the last.
    batch-times :
        All (λ r. times r.position batch ≡ one_if (is_next r && leb r.position offset')) read.rows
    batch-times = All-map _ _ read.rows in_batch (times-retain is_next 0 read.rows order)
      where
        in_batch :
            (r : OutboxMessage B)
            → times r.position (retain is_next read.rows) ≡ one_if (is_next r)
            → times r.position batch ≡ one_if (is_next r && leb r.position offset')
        in_batch r k =
            subst
              (λ rows.
                times r.position rows
                ≡ one_if (is_next r && leb r.position (last_position e.offset rows)))
              (sym batch-first)
              (times-take_first limit r.position e.offset (is_next r) (retain is_next read.rows)
                next-Above (λ before. ground arith) k)

    pub moved-once :
        All
          (λ r.
            times r.position (log ++ batch)
            ≡ one_if (
                in_lane ring texts slot uri r
                && (sees r.transaction_id d
                    || (sees r.transaction_id e.snapshot && leb r.position offset'))))
          read.rows
    unfolding is_owed
    moved-once =
        All-map _ _ read.rows
          (λ r k.
            times-append r.position log batch
            ∙ (ap (λ n. n + times r.position batch) k.0
                ∙ (ap
                      (λ n.
                        one_if (
                          in_lane ring texts slot uri r
                          && (sees r.transaction_id d
                              || (sees r.transaction_id e.snapshot && leb r.position e.offset)))
                        + n)
                      k.1
                    ∙ moved_count (in_lane ring texts slot uri r) (sees r.transaction_id d)
                        (sees r.transaction_id e.snapshot) e.offset offset' r.position offset-le)))
          (All-zip _ _ read.rows once batch-times)

    pub batch-known :
        ((n : ℕ) → times n read.rows ≡ 0 → times n log ≡ 0)
        → (n : ℕ) → times n read.rows ≡ 0
        → times n (log ++ batch) ≡ 0
    batch-known known n z =
        times-append n log batch
        ∙ (ap (λ m. m + times n batch) (known n z)
            ∙ (ap (λ rows. 0 + times n rows) batch-first
                ∙ ap (λ m. 0 + m)
                    (times-take_absent limit n _ (times-retain_absent is_next n read.rows z))))
