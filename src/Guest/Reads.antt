-- ===== src/Guest/Reads.antt =====
-- pkgs/host/wasm/src/guest_storage.rs: what a component reads of its own storage.
use jan_klod.Common.{
  ℕ, ◌≡◌, refl, sym, subst, ap, ◌∙◌, inl, inr, String, Bool, List, [], ◌∷◌, some, find, eq_refl,
  format, Option, Result, Result-cases, ok, err, ok_or,
}
use mathlib.Core.Option
use jan_klod.Guest.{
  StorageFault, Row, Entries, StoredEntry, Held, Backing, ephemeral, durable, GuestStorage, map_ok,
  within, scope, unscope, present, row_entry,
}
use jan_klod.Guest.Calls.{
  is_cell, insert_cell, cell_entry, tick, new_cell, set, get, delete, entries_in, recent,
}
use jan_klod.Guest.Placed.{unscope-scope}

-- What a store answers to a write, and then to a read of it.
pub record Written {W : Type 0} (rows : Entries W) (ns k v : String) (w : W) : Type 0 where
  pub row : Row
  pub in_place : row.namespace ≡ ns
  pub of_key : row.key ≡ k
  pub of_value : row.value ≡ v
  pub answered : (rows.set ns k v w).0 ≡ ok row
  pub read_back : rows.get ns k (rows.set ns k v w).1 ≡ ok row

-- A private map, or a store that takes every write and reads it back.
pub data IsReliable {W : Type 0} : Backing W → Type 0 where
  private_map : (cells : List Held) (clock : ℕ) → IsReliable (ephemeral cells clock)
  store :
      (rows : Entries W) (owner : String)
      → ((ns k v : String) (w : W) → Written rows ns k v w)
      → IsReliable (durable rows owner)

-- The entry that a component wrote: in its own words, whatever the namespace it is stored under.
pub record IsEntry (ns k v : String) (e : StoredEntry) : Type 0 where
  pub id_is : e.id ≡ format (ns ∷ "/" ∷ k ∷ [])
  pub namespace_is : e.namespace ≡ ns
  pub key_is : e.key ≡ k
  pub value_is : e.value ≡ v

row_entry-IsEntry :
    (ns k v : String) (row : Row) → row.key ≡ k → row.value ≡ v → IsEntry ns k v (row_entry ns row)
row_entry-IsEntry ns k v row ek ev = record {
  id_is = ap (λ x. format (ns ∷ "/" ∷ x ∷ [])) ek;
  namespace_is = refl;
  key_is = ek;
  value_is = ev;
}

find-insert_cell :
    (c : Held) (cells : List Held) → find (is_cell c.namespace c.key) (insert_cell c cells) ≡ some c
unfolding insert_cell
find-insert_cell c cells = rw (eq_refl c.namespace, eq_refl c.key) refl

module _ {W : Type 0} (by : Bool) (session : Option String) (ns k v scoped : String) (w : W) where
  -- What `set-get` states of a storage whose namespace has a scope.
  abbrev over : Backing W → GuestStorage W
  over b = record { backing = b; by_session = by; session = session }

  abbrev IsSetGet : Backing W → Type 0
  IsSetGet b =
      (e : StoredEntry) × ((set (over b) ns k v w).0 ≡ ok e)
      × (get (set (over b) ns k v w).1.0 ns k (set (over b) ns k v w).1.1 ≡ ok e)
      × IsEntry ns k v e

  scope-ephemeral :
      (cells cells' : List Held) (n n' : ℕ)
      → scope (over (ephemeral cells n)) ns ≡ scope (over (ephemeral cells' n')) ns
  unfolding scope
  scope-ephemeral cells cells' n n' = elim (Result-cases (within by session ns)) [
    | inl (inner, e) ↦ rw e refl
    | inr (fault, e) ↦ rw e refl
  ]

  set-get_private :
      (cells : List Held) (clock : ℕ)
      → scope (over (ephemeral cells clock)) ns ≡ ok scoped
      → IsSetGet (ephemeral cells clock)
  unfolding set get
  set-get_private cells clock e =
      let cell = new_cell scoped k v (tick clock) (find (is_cell scoped k) cells) in
      let after = sym (scope-ephemeral cells (insert_cell cell cells) clock (tick clock)) ∙ e in
      (
        cell_entry ns cell,
        rw e refl,
        rw e (
            rw after (
              ap (λ found. ok_or (Option.map (cell_entry ns) found) StorageFault.not_found)
                (find-insert_cell cell cells))),
        record { id_is = refl; namespace_is = refl; key_is = refl; value_is = refl },
      )

  present-row :
      (b : Backing W) (row : Row)
      → scope (over b) ns ≡ ok scoped
      → row.namespace ≡ scoped
      → present (over b) row ≡ row_entry ns row
  unfolding present
  present-row b row e at =
      ap (λ n. row_entry n row) (ap (unscope (over b)) at ∙ unscope-scope (over b) ns scoped e)

  set-get_store :
      (rows : Entries W) (owner : String)
      → Written rows scoped k v w
      → scope (over (durable rows owner)) ns ≡ ok scoped
      → IsSetGet (durable rows owner)
  unfolding set get
  set-get_store rows owner written e =
      let shown = present-row (durable rows owner) written.row e written.in_place in
      let as_shown = ap ok shown in
      (
        row_entry ns written.row,
        rw e (ap (map_ok (present (over (durable rows owner)))) written.answered ∙ as_shown),
        rw e
            (rw e (ap (map_ok (present (over (durable rows owner)))) written.read_back ∙ as_shown)),
        row_entry-IsEntry ns k v written.row written.of_key written.of_value,
      )

  set-get_bound : (b : Backing W) → IsReliable b → scope (over b) ns ≡ ok scoped → IsSetGet b
  set-get_bound _ (private_map cells clock) e = set-get_private cells clock e
  set-get_bound _ (store rows owner written) e = set-get_store rows owner (written scoped k v w) e

module _ {W : Type 0} (g : GuestStorage W) (ns k v : String) (limit : ℕ) (w : W) where
  -- What the calls on a namespace answer, by the scope that it has.
  abbrev pub Served : Result String StorageFault → Type 0
  Served (ok scoped) =
      (e : StoredEntry) × ((set g ns k v w).0 ≡ ok e)
      × (get (set g ns k v w).1.0 ns k (set g ns k v w).1.1 ≡ ok e)
      × IsEntry ns k v e
  Served (err fault) =
      (set g ns k v w ≡ (err fault, (g, w)))
      × (get g ns k w ≡ err fault)
      × (delete g ns k w ≡ (err fault, (g, w)))
      × (entries_in g ns w ≡ err fault)
      × (recent g ns limit w ≡ err fault)

  listed : (fault : StorageFault) → scope g ns ≡ err fault → entries_in g ns w ≡ err fault
  listed fault e = unfold entries_in in rw e refl

  -- Over a private map, or a store that takes every write and reads it back: what is set in a namespace
  -- that has a scope, `get` gives back, in the namespace and under the id that was asked for; in a
  -- namespace that has none, every call fails with the fault of the scope, and nothing is written.
  pub set-get : IsReliable g.backing → Served (scope g ns)
  set-get reliable = elim (Result-cases (scope g ns)) [
    | inl (scoped, e) ↦
        subst Served (sym e)
          (set-get_bound g.by_session g.session ns k v scoped w g.backing reliable e)
    | inr (fault, e) ↦ subst Served (sym e) (
      unfold set in rw e refl,
      unfold get in rw e refl,
      unfold delete in rw e refl,
      listed fault e,
      unfold recent in ap (map_ok _) (listed fault e),
    )
  ]
