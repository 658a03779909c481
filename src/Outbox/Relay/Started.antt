-- ===== src/Outbox/Relay/Started.antt =====
-- An epoch that is started, and one that finds nothing.
use Prim.Native.String.{String}
use ascetic_ddd_rust.Prelude.{
  ℕ, ◌-◌, ◌≤◌, ◌<◌, List, [], Bool, true, false, not, ◌&&◌, ◌||◌, Option, none, some, ◌≡◌, refl,
  subst, ◌∙◌, arith, leb, map,
}
use ascetic_ddd_rust.Outbox.Snapshot.{Snapshot, sees}
use ascetic_ddd_rust.Outbox.Ring.{Ring}
use ascetic_ddd_rust.Outbox.Ring.Names.{IsReady}
use ascetic_ddd_rust.Outbox.Position.{Generation, Epoch}
use ascetic_ddd_rust.Outbox.Table.{OutboxMessage, View, Texts, All, one_if}
use ascetic_ddd_rust.Outbox.Table.Counts.{All-map, All-zip, All-above}
use ascetic_ddd_rust.Outbox.Relay.{least, start_rows, in_lane}
use ascetic_ddd_rust.Outbox.Relay.Batch.{is_named, is_owed}
use ascetic_ddd_rust.Outbox.Relay.Lane.{Within, Later, Finds-Later, IsRelayed}
use ascetic_ddd_rust.Outbox.Relay.Opening.{start_rows-named, start_rows-Distinct, named-le}

-- Where nothing is owed, `delivered` moves to the epoch at once.
none_owed :
    (lane d e : Bool)
    → (d ≡ true → e ≡ true)
    → ((lane && (e && not d)) ≡ true → false ≡ true)
    → one_if (lane && (d || false)) ≡ one_if (lane && (e || false))
none_owed lane true e h k = ground (arith, h refl)
none_owed lane false true h k = ground arith
none_owed lane false false h k = refl

-- A row that is owed lies past the offset that an epoch starts at.
not_started :
    (lane d e : Bool) (first position : ℕ)
    → 0 < position
    → ((lane && (e && not d)) ≡ true → first ≤ position)
    → one_if (lane && (d || false)) ≡ one_if (lane && (d || (e && leb position (first - 1))))
not_started lane d false first position pos h = ground arith
not_started lane true true first position pos h = ground arith
not_started false false true first position pos h = ground arith
not_started true false true first position pos h = ground (arith, h refl)

module _ {B : Type 0} (ring : Ring) (texts : Texts) (slot : ℕ) (uri : String) where
  module _ (ready : IsReady ring) (started read : View B) (l : Later started read) (d e : Snapshot)
      (valid : e.xmin ≤ e.xmax) (past : Within e started.now) where
    abbrev gens : List Generation
    gens = (start_rows ring texts slot uri started d e).generations

    abbrev at_offset : ℕ → Option ℕ → Epoch
    at_offset n end = record { snapshot = e; offset = n; end = end; generations = gens }

    -- The generations that were found at the start name the rows owed when they are read.
    pub read-named :
        All
          (λ r.
            (in_lane ring texts slot uri r
                && (sees r.transaction_id e && not (sees r.transaction_id d)))
              ≡ true
            → is_named ring gens r ≡ true)
          read.rows
    unfolding is_owed
    read-named =
        (Finds-Later ring texts slot uri (some 0) (at_offset 0 none) d started read l past (
          start_rows-Distinct ring texts slot uri started d e,
          start_rows-named ring texts slot uri started d e ready valid,
        )).1

    module _ (log : List (OutboxMessage B))
        (h : IsRelayed ring texts slot uri read (record { delivered = d; epoch = none }) log)
        (after : Within d e) where
      pub opened-IsRelayed :
          (first last : ℕ)
          → least (map (λ (g : Generation). g.first) gens) ≡ some first
          → IsRelayed ring texts slot uri read
              (record { delivered = d; epoch = some (at_offset (first - 1) (some last)) })
              log
      unfolding is_owed
      opened-IsRelayed first last e_first = record {
        order = h.order;
        valid = h.valid;
        past = h.past;
        in_flight = record {
          valid = valid;
          after = after;
          past = λ x s. l.grows x (past x s);
          finds = (start_rows-Distinct ring texts slot uri started d e, read-named);
        };
        once =
            All-map _ _ read.rows
              (λ r k.
                k.0.1
                ∙ not_started (in_lane ring texts slot uri r) (sees r.transaction_id d)
                    (sees r.transaction_id e) first r.position k.0.0
                    (λ o. named-le ring gens r first (k.1 o) e_first))
              (All-zip _ _ read.rows (All-zip _ _ read.rows (All-above 0 read.rows h.order) h.once)
                read-named);
        known = h.known;
      }

      -- Nothing was found, so nothing was owed.
      pub idle-IsRelayed :
          gens ≡ []
          → IsRelayed ring texts slot uri read (record { delivered = e; epoch = none }) log
      unfolding is_named
      idle-IsRelayed nothing = record {
        order = h.order;
        valid = h.valid;
        past = λ x s. l.grows x (past x s);
        in_flight = tt;
        once =
            All-map _ _ read.rows
              (λ r k.
                k.0
                ∙ none_owed (in_lane ring texts slot uri r) (sees r.transaction_id d)
                    (sees r.transaction_id e) (after r.transaction_id)
                    (λ o. subst (λ gs. is_named ring gs r ≡ true) nothing (k.1 o)))
              (All-zip _ _ read.rows h.once read-named);
        known = h.known;
      }
