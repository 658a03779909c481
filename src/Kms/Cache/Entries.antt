-- ===== src/Kms/Cache/Entries.antt =====
-- What holds of every entry of the cache.
use ascetic_ddd_rust.Prelude.Bytes.{bytes_eq-eq}
use ascetic_ddd_rust.Prelude.{
  ℕ, zero, suc, ◌-◌, ◌<◌, List, [], ◌∷◌, Bool, true, Option, none, some, ◌≡◌, refl, subst, arith,
  ltb, length, retain, Bool-cases, inl, inr,
}
use ascetic_ddd_rust.Kms.Key.{Bytes, Key}
use ascetic_ddd_rust.Kms.Cache.{
  Entry, is_of, is_fresh, find, remove, key_if_fresh, oldest, evicted, make_room,
}

abbrev pub AllEntries {ℓ} : (Entry → Type ℓ) → List Entry → Type ℓ
AllEntries P [] = Unit
AllEntries P (entry ∷ entries) = P entry × AllEntries P entries

pub AllEntries-retain {ℓ κ} :
    (P : Entry → Type ℓ) (Q : Entry → Type κ) (keep : Entry → Bool) (entries : List Entry)
    → ((entry : Entry) → keep entry ≡ true → P entry → Q entry)
    → AllEntries P entries
    → AllEntries Q (retain keep entries)
AllEntries-retain P Q keep [] f h = tt
AllEntries-retain P Q keep (entry ∷ entries) f h =
    let rest = AllEntries-retain P Q keep entries f h.1 in
    elim (Bool-cases (keep entry)) [
      | inl kept ↦ rw kept (f entry kept h.0, rest)
      | inr gone ↦ rw gone rest
    ]

AllEntries-evicted {ℓ} :
    (P : Entry → Type ℓ) (o : Option Entry) (entries : List Entry)
    → AllEntries P entries
    → AllEntries P (evicted o entries)
unfolding evicted remove
AllEntries-evicted P none entries h = h
AllEntries-evicted P (some entry) entries h = AllEntries-retain P P _ entries (λ e kept k. k) h

pub AllEntries-make_room {ℓ} :
    (P : Entry → Type ℓ) (fuel capacity : ℕ) (entries : List Entry)
    → AllEntries P entries
    → AllEntries P (make_room fuel capacity entries)
unfolding make_room
AllEntries-make_room P zero capacity entries h = h
AllEntries-make_room P (suc fuel) capacity entries h =
    let rest =
      AllEntries-make_room P fuel capacity _ (AllEntries-evicted P (oldest entries) entries h) in
    elim (Bool-cases (ltb (length entries) capacity)) [
      | inl fits ↦ rw fits h
      | inr full ↦ rw full rest
    ]

pub AllEntries-map {ℓ κ} :
    (P : Entry → Type ℓ) (Q : Entry → Type κ) (entries : List Entry)
    → ((entry : Entry) → P entry → Q entry)
    → AllEntries P entries
    → AllEntries Q entries
AllEntries-map P Q [] f h = tt
AllEntries-map P Q (entry ∷ entries) f h = (f entry h.0, AllEntries-map P Q entries f h.1)

pub find-AllEntries {ℓ} :
    (P : Entry → Type ℓ) (tenant_id wrapped : Bytes) (entry : Entry) (entries : List Entry)
    → AllEntries P entries
    → find tenant_id wrapped entries ≡ some entry
    → P entry × (entry.tenant_id ≡ tenant_id) × (entry.wrapped ≡ wrapped)
unfolding find is_of
find-AllEntries P tenant_id wrapped entry [] h found = absurd (cc)
find-AllEntries P tenant_id wrapped entry (e ∷ entries) h found =
    elim (Bool-cases (is_of tenant_id wrapped e)) [
      | inl here ↦
          let same : e ≡ entry = cc (rw here at found) in
          subst (λ x. P x × (x.tenant_id ≡ tenant_id) × (x.wrapped ≡ wrapped)) same
            (
              h.0,
              bytes_eq-eq e.tenant_id tenant_id (ground arith),
              bytes_eq-eq e.wrapped wrapped (ground arith),
            )
      | inr other ↦ find-AllEntries P tenant_id wrapped entry entries h.1 (rw other at found)
    ]

pub key_if_fresh-some :
    (now ttl : ℕ) (o : Option Entry) (key : Key)
    → key_if_fresh now ttl o ≡ some key
    → (entry : Entry) × (o ≡ some entry) × (entry.key ≡ key) × (now - entry.since < ttl)
unfolding key_if_fresh is_fresh
key_if_fresh-some now ttl none key h = absurd (cc)
key_if_fresh-some now ttl (some entry) key h = elim (Bool-cases (ltb (now - entry.since) ttl)) [
  | inl fresh ↦ (entry, refl, cc (rw fresh at h), ground arith)
  | inr stale ↦ absurd (cc (rw stale at h))
]
