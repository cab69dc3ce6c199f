-- ===== src/Session/Entries/Maps.antt =====
-- pkgs/host/session/src/store.rs: the table `entries` is a map from keys to entries.
use jan_klod.Common.{
  ℕ, ◌≡◌, ◌≢◌, ◌↔◌, inl, inr, refl, sym, ap, ◌∙◌, String, Bool, true, false, ◌&&◌, List, [], ◌∷◌,
  Option, none, some, str_eq, eq_iff, eq_refl, min, format, subst, find-cases, some-injective,
  retain, find, Bool-cases, Result, ok, err, ok_or, if◌then◌else◌,
}
use mathlib.Core.Option
use jan_klod.Permission.Rules.{or_else}
use jan_klod.Session.Store.{StoreError, not_found, i64_max}
use jan_klod.Session.Store.Rows.{str_eq-ne}
use jan_klod.Session.Entries.{
  Entry, EntryRow, is_at, entry_of, upsert, get, new_row, set, delete, purge_namespace,
}

-- The row that a key stands for.
abbrev pub row_at : List EntryRow → String → String → Option EntryRow
row_at rows namespace key = find (is_at namespace key) rows

-- A row after an upsert at its key, which is the new row where there was none.
abbrev pub renewed : EntryRow → Option EntryRow → EntryRow
renewed new none = new
renewed new (some old) = record old { value = new.value; updated_at = new.updated_at }

is_at_self : (r : EntryRow) → is_at r.namespace r.key r ≡ true
is_at_self r = rw (eq_refl r.namespace, eq_refl r.key) refl

row_at-upsert :
    (new : EntryRow) (rows : List EntryRow)
    → row_at (upsert new rows) new.namespace new.key
      ≡ some (renewed new (row_at rows new.namespace new.key))
unfolding upsert
row_at-upsert new [] = rw (is_at_self new) refl
row_at-upsert new (r ∷ rs) = elim (Bool-cases (is_at new.namespace new.key r)) [
  | inl e ↦ rw e (rw e refl)
  | inr e ↦ rw e (rw e (row_at-upsert new rs))
]

is_at_iff :
    (ns k : String) (r : EntryRow) → (is_at ns k r ≡ true) ↔ ((r.namespace ≡ ns) × (r.key ≡ k))
is_at_iff ns k r =
    both (str_eq r.namespace ns) (str_eq r.key k) (eq_iff r.namespace ns) (eq_iff r.key k)
  where
    both :
        {A B : Type 0} (a b : Bool) → (a ≡ true) ↔ A → (b ≡ true) ↔ B → ((a && b) ≡ true) ↔ (A × B)
    both true true f g = (λ h. (f.0 refl, g.0 refl), λ h. refl)
    both true false f g = (λ h. cc, λ h. g.1 h.1)
    both false b f g = (λ h. cc, λ h. f.1 h.0)

-- Two keys that differ are not both those of a row.
is_at-other :
    (ns ns' k k' : String) (r : EntryRow)
    → (ns ≡ ns' → k ≡ k' → ⊥)
    → is_at ns k r ≡ true
    → is_at ns' k' r ≡ false
is_at-other ns ns' k k' r h e = elim (Bool-cases (is_at ns' k' r)) [
  | inl f ↦
      let (n, m) = (is_at_iff ns k r).0 e in
      let (n', m') = (is_at_iff ns' k' r).0 f in absurd (h (sym n ∙ n') (sym m ∙ m'))
  | inr f ↦ f
]

row_at-upsert_other :
    (new : EntryRow) (rows : List EntryRow) (ns k : String)
    → (new.namespace ≡ ns → new.key ≡ k → ⊥)
    → row_at (upsert new rows) ns k ≡ row_at rows ns k
unfolding upsert
row_at-upsert_other new [] ns k h =
    rw (is_at-other new.namespace ns new.key k new h (is_at_self new)) refl
row_at-upsert_other new (r ∷ rs) ns k h = elim (Bool-cases (is_at new.namespace new.key r)) [
  | inl e ↦ rw e (rw (is_at-other new.namespace ns new.key k r h e) refl)
  | inr e ↦ rw e (ap (λ o. if is_at ns k r then some r else o) (row_at-upsert_other new rs ns k h))
]

row_at-retain :
    (p : EntryRow → Bool) (rows : List EntryRow) (ns k : String)
    → ((r : EntryRow) → is_at ns k r ≡ true → p r ≡ true)
    → row_at (retain p rows) ns k ≡ row_at rows ns k
row_at-retain p [] ns k h = refl
row_at-retain p (r ∷ rs) ns k h = elim (Bool-cases (p r)) [
  | inl e ↦ rw e (ap (λ o. if is_at ns k r then some r else o) (row_at-retain p rs ns k h))
  | inr e ↦ elim (Bool-cases (is_at ns k r)) [
    | inl f ↦ let g = h r f in cc
    | inr f ↦ rw (e, f) (row_at-retain p rs ns k h)
  ]
]

row_at-gone :
    (p : EntryRow → Bool) (rows : List EntryRow) (ns k : String)
    → ((r : EntryRow) → is_at ns k r ≡ true → p r ≡ false)
    → row_at (retain p rows) ns k ≡ none
row_at-gone p [] ns k h = refl
row_at-gone p (r ∷ rs) ns k h = elim (Bool-cases (p r)) [
  | inr e ↦ rw e (row_at-gone p rs ns k h)
  | inl e ↦ elim (Bool-cases (is_at ns k r)) [
    | inl f ↦ let g = h r f in cc
    | inr f ↦ rw (e, f) (row_at-gone p rs ns k h)
  ]
]

-- The entry of a key, `none` where it has no row.
abbrev pub lookup : List EntryRow → String → String → Option Entry
lookup rows ns k = Option.map entry_of (row_at rows ns k)

module _ (rows : List EntryRow) (ns k : String) where
  get-lookup : get rows ns k ≡ ok_or (lookup rows ns k) not_found
  unfolding get
  get-lookup = refl

  -- The entry that a `set` at `now` leaves: the value and the time of the update are new, the time of
  -- the first insert is that of the entry before, if there was one.
  abbrev pub entry_after : String → ℕ → Option Entry → Entry
  entry_after value now old = record {
    id = format (ns ∷ "/" ∷ k ∷ []);
    namespace = ns;
    key = k;
    value = value;
    created_at = or_else (Option.map (λ (e : Entry). e.created_at) old) (min now i64_max);
    updated_at = min now i64_max;
  }

  abbrev answer : Option EntryRow → Result Entry StoreError
  answer found = ok_or (Option.map entry_of found) not_found

  entry_of-renewed :
      (value : String) (now : ℕ) (old : Option EntryRow)
      → row_at rows ns k ≡ old
      → entry_of (renewed (new_row ns k value now) old)
        ≡ entry_after value now (Option.map entry_of old)
  entry_of-renewed value now none e = refl
  entry_of-renewed value now (some old) e = elim (find-cases (is_at ns k) rows) [
    | inl (f, g) ↦ absurd (none_ne (sym f ∙ e))
    | inr (r, f, first) ↦
        let (n, m) = (is_at_iff ns k r).0 first.passes in
        let same : r ≡ old = some-injective (sym f ∙ e) in
        subst
          (λ x.
            entry_of (renewed (new_row ns k value now) (some x))
            ≡ entry_after value now (some (entry_of x)))
          same (rw (n, m) refl)
  ]
    where
      none_ne : {x : EntryRow} → ◌≡◌ {A = Option EntryRow} none (some x) → ⊥
      none_ne h = cc

  -- The table is a map. `set` answers with the entry that it leaves at its key, which `get` then finds,
  -- and keeps the entry of every other key; after `delete` its key has no entry and every other entry
  -- is kept; after `purge_namespace` its namespace has no entry, and the others are kept.
  pub set-delete-purge_lem :
      (value : String) (now : ℕ) (ns' k' : String) (other : String)
      → (ns ≡ ns' → k ≡ k' → ⊥)
      → ns ≢ other
      → ((set rows ns k value now).0 ≡ ok (entry_after value now (lookup rows ns k)))
        × (get (set rows ns k value now).1 ns k ≡ ok (entry_after value now (lookup rows ns k)))
        × (get (set rows ns k value now).1 ns' k' ≡ get rows ns' k')
        × (get (delete rows ns k) ns k ≡ err not_found)
        × (get (delete rows ns k) ns' k' ≡ get rows ns' k')
        × (get (purge_namespace rows ns) ns k' ≡ err not_found)
        × (get (purge_namespace rows ns) other k' ≡ get rows other k')
  set-delete-purge_lem value now ns' k' other h apart = (
    unfold set in got,
    unfold set in got,
    unfold get set in ap answer (row_at-upsert_other (new_row ns k value now) rows ns' k' h),
    unfold get delete in ap answer (row_at-gone _ rows ns k (λ r e. rw e refl)),
    unfold get delete in
        ap answer (
          row_at-retain _ rows ns' k'
            (λ r e. rw (is_at-other ns' ns k' k r (λ n m. h (sym n) (sym m)) e) refl)),
    unfold get purge_namespace in
        ap answer (
          row_at-gone _ rows ns k'
            (λ r e. rw (((eq_iff r.namespace ns).1 ((is_at_iff ns k' r).0 e).0)) refl)),
    unfold get purge_namespace in
        ap answer (
          row_at-retain _ rows other k' (λ r e.
            rw (str_eq-ne r.namespace ns (λ n. apart (sym n ∙ ((is_at_iff other k' r).0 e).0)))
              refl)),
  )
    where
      got :
          get (upsert (new_row ns k value now) rows) ns k
          ≡ ok (entry_after value now (lookup rows ns k))
      got =
          unfold get in
          (ap answer (row_at-upsert (new_row ns k value now) rows)
            ∙ ap ok (entry_of-renewed value now (row_at rows ns k) refl))
