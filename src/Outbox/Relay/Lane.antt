-- ===== src/Outbox/Relay/Lane.antt =====
-- What is true between two looks of a relay: the rows that were handed on are those that its
-- position says.
use Prim.Native.String.{String}
use ascetic_ddd_rust.Prelude.{
  ℕ, ◌≤◌, List, Bool, true, false, ◌&&◌, ◌||◌, Option, none, some, ◌≡◌, sym, arith, leb, retain,
  Bool-cases, inl, inr, subst, ap, ◌∙◌,
}
use ascetic_ddd_rust.Outbox.Snapshot.{Snapshot, sees}
use ascetic_ddd_rust.Outbox.Ring.{Ring}
use ascetic_ddd_rust.Outbox.Position.{Epoch, Position}
use ascetic_ddd_rust.Outbox.Table.{OutboxMessage, View, Texts, All, Above, times, one_if}
use ascetic_ddd_rust.Outbox.Table.Counts.{
  All-map, All-zip, All-retain, times-retain, times-retain_absent,
}
use ascetic_ddd_rust.Outbox.Relay.{in_lane}
use ascetic_ddd_rust.Outbox.Relay.Batch.{Distinct, is_named, is_owed}

-- What a snapshot sees, another sees.
abbrev pub Within : Snapshot → Snapshot → Type 0
Within s t = (x : ℕ) → sees x s ≡ true → sees x t ≡ true

-- The server goes on: transactions end, whose rows no snapshot so far sees.
pub record Later {B : Type 0} (v v' : View B) : Type 0 where
  pub order : Above 0 v'.rows
  pub valid : v'.now.xmin ≤ v'.now.xmax
  pub grows : Within v.now v'.now
  pub kept : retain (λ r. sees r.transaction_id v.now) v'.rows ≡ v.rows

-- Whether a position counts a row as handed on.
abbrev pub past_epoch : {B : Type 0} → Option Epoch → OutboxMessage B → Bool
past_epoch none r = false
past_epoch (some e) r = sees r.transaction_id e.snapshot && leb r.position e.offset

abbrev pub handed : {B : Type 0} → Position → OutboxMessage B → Bool
handed p r = sees r.transaction_id p.delivered || past_epoch p.epoch r

none_counted : (a b : Bool) → b ≡ false → 0 ≡ one_if (a && b)
none_counted a b h = ground arith

module _ {B : Type 0} (ring : Ring) (texts : Texts) (slot : ℕ) (uri : String) where
  abbrev pub Owed : Epoch → Snapshot → OutboxMessage B → Type 0
  Owed e delivered r = is_owed ring texts slot uri e delivered r ≡ true

  -- The generations of an epoch that has its end name the rows that it owes.
  abbrev pub Finds : Option ℕ → Epoch → Snapshot → List (OutboxMessage B) → Type 0
  Finds none e delivered rows = Unit
  Finds (some end) e delivered rows =
      Distinct e.generations
      × All (λ r. Owed e delivered r → is_named ring e.generations r ≡ true) rows

  pub record EpochIsValid (e : Epoch) (delivered now : Snapshot) (rows : List (OutboxMessage B))
      : Type 0 where
    pub valid : e.snapshot.xmin ≤ e.snapshot.xmax
    pub after : Within delivered e.snapshot
    pub past : Within e.snapshot now
    pub finds : Finds e.end e delivered rows

  abbrev pub InFlight : Option Epoch → Snapshot → View B → Type 0
  InFlight none delivered v = Unit
  InFlight (some e) delivered v = EpochIsValid e delivered v.now v.rows

  pub record IsRelayed (v : View B) (p : Position) (log : List (OutboxMessage B)) : Type 0 where
    pub order : Above 0 v.rows
    pub valid : v.now.xmin ≤ v.now.xmax
    pub past : Within p.delivered v.now
    pub in_flight : InFlight p.epoch p.delivered v
    -- Each row of the lane was handed on once, if the position counts it, and none other.
    pub once :
        All
          (λ r. times r.position log ≡ one_if (in_lane ring texts slot uri r && handed p r))
          v.rows
    -- What was handed on are rows of the table.
    pub known : (n : ℕ) → times n v.rows ≡ 0 → times n log ≡ 0

  Owed-seen :
      (e : Epoch) (delivered : Snapshot) (r : OutboxMessage B)
      → Owed e delivered r
      → sees r.transaction_id e.snapshot ≡ true
  unfolding is_owed
  Owed-seen e delivered r o = ground arith

  pub Finds-Later :
      (o : Option ℕ) (e : Epoch) (delivered : Snapshot) (v v' : View B)
      → Later v v'
      → Within e.snapshot v.now
      → Finds o e delivered v.rows
      → Finds o e delivered v'.rows
  Finds-Later none e delivered v v' l past f = tt
  Finds-Later (some end) e delivered v v' l past f = (
    f.0,
    All-map _ _ v'.rows (λ r k o. k (past r.transaction_id (Owed-seen e delivered r o)) o)
        (All-retain (λ r. Owed e delivered r → is_named ring e.generations r ≡ true)
          (λ r. sees r.transaction_id v.now) v'.rows
          (subst (λ rows. All (λ r. Owed e delivered r → is_named ring e.generations r ≡ true) rows)
            (sym l.kept) f.1)),
  )

  InFlight-later :
      (o : Option Epoch) (delivered : Snapshot) (v v' : View B)
      → Later v v'
      → InFlight o delivered v
      → InFlight o delivered v'
  InFlight-later none delivered v v' l h = tt
  InFlight-later (some e) delivered v v' l h = record {
    valid = h.valid;
    after = h.after;
    past = λ x s. l.grows x (h.past x s);
    finds = Finds-Later e.end e delivered v v' l h.past h.finds;
  }

  past_epoch-seen :
      (o : Option Epoch) (delivered : Snapshot) (v : View B) (r : OutboxMessage B)
      → InFlight o delivered v
      → past_epoch o r ≡ true
      → sees r.transaction_id v.now ≡ true
  past_epoch-seen none delivered v r h e = cc
  past_epoch-seen (some ep) delivered v r h e = h.past r.transaction_id (ground arith)

  -- A row that was not there is not counted.
  new-handed :
      (v : View B) (p : Position) (log : List (OutboxMessage B)) (r : OutboxMessage B)
      → IsRelayed v p log
      → sees r.transaction_id v.now ≡ false
      → handed p r ≡ false
  new-handed v p log r h e = elim (Bool-cases (handed p r)) [
    | inl was ↦ elim (Bool-cases (sees r.transaction_id p.delivered)) [
      | inl d ↦ absurd (ground (arith, h.past r.transaction_id d))
      | inr d ↦ absurd (ground (arith, past_epoch-seen p.epoch p.delivered v r h.in_flight))
    ]
    | inr not_yet ↦ not_yet
  ]

  -- What holds between two looks goes on holding while transactions end.
  pub Later-IsRelayed :
      (v v' : View B) (p : Position) (log : List (OutboxMessage B))
      → Later v v'
      → IsRelayed v p log
      → IsRelayed v' p log
  Later-IsRelayed v v' p log l h = record {
    order = l.order;
    valid = l.valid;
    past = λ x s. l.grows x (h.past x s);
    in_flight = InFlight-later p.epoch p.delivered v v' l h.in_flight;
    once = All-map _ _ v'.rows once_of (
        All-zip _ _ v'.rows
          (All-retain _ (λ r. sees r.transaction_id v.now) v'.rows
            (subst (λ rows. All Once rows) (sym l.kept) h.once))
          (times-retain (λ r. sees r.transaction_id v.now) 0 v'.rows l.order));
    known = λ n z. h.known n (rw (← l.kept) (times-retain_absent _ n v'.rows z));
  }
    where
      Once : OutboxMessage B → Type 0
      Once r = times r.position log ≡ one_if (in_lane ring texts slot uri r && handed p r)

      once_of :
          (r : OutboxMessage B)
          → (sees r.transaction_id v.now ≡ true → Once r)
            × (times r.position (retain (λ r. sees r.transaction_id v.now) v'.rows)
                ≡ one_if (sees r.transaction_id v.now))
          → Once r
      once_of r k = elim (Bool-cases (sees r.transaction_id v.now)) [
        | inl old ↦ k.0 old
        | inr new ↦
            let absent : times r.position v.rows ≡ 0 =
              sym (ap (times r.position) l.kept) ∙ k.1 ∙ ap one_if new in
            let out = new-handed v p log r h new in
            h.known r.position absent ∙ none_counted (in_lane ring texts slot uri r) _ out
      ]
