-- ===== src/Session/Store/Updates.antt =====
-- pkgs/host/session/src/store.rs: what an update of a digest does to the rows of a session.
use jan_klod.Common.{
  ℕ, ◌≡◌, ◌≢◌, refl, sym, ap, ◌∙◌, arith, inl, inr, String, Bool, true, false, ◌&&◌, List, [], ◌∷◌,
  map, some, str_eq, eq_iff, eq_refl, ◌==◌, leb, All, All-map, Bool-cases, if◌then◌else◌,
}
use jan_klod.Session.Store.{Row, logged, insert_by_seq, order_by_seq, of_session, session_rows}
use jan_klod.Session.Store.Rows.{str_eq-ne}
use jan_klod.Session.Store.Digests.{set_prev, update_digest}

abbrev pub rows_of : List Row → String → List Row
rows_of table s = session_rows (record { events = table }) s

-- A row keeps its place under an update of its digest.
insert_by_seq-map :
    (f : Row → Row)
    → ((r : Row) → (f r).seq ≡ r.seq)
    → (r : Row) (xs : List Row) → insert_by_seq (f r) (map f xs) ≡ map f (insert_by_seq r xs)
unfolding insert_by_seq
insert_by_seq-map f same r [] = refl
insert_by_seq-map f same r (x ∷ xs) =
    both (leb (f r).seq (f x).seq) (leb r.seq x.seq) (rw (same r, same x) refl)
      (insert_by_seq-map f same r xs)
  where
    both :
        (b c : Bool)
        → b ≡ c
        → insert_by_seq (f r) (map f xs) ≡ map f (insert_by_seq r xs)
        → (if b then f r ∷ (f x ∷ map f xs) else f x ∷ insert_by_seq (f r) (map f xs))
          ≡ map f (if c then r ∷ (x ∷ xs) else x ∷ insert_by_seq r xs)
    both true true e h = refl
    both false false e h = ap (λ l. f x ∷ l) h
    both true false e h = cc
    both false true e h = cc

order_by_seq-map :
    (f : Row → Row)
    → ((r : Row) → (f r).seq ≡ r.seq)
    → (xs : List Row) → order_by_seq (map f xs) ≡ map f (order_by_seq xs)
unfolding order_by_seq
order_by_seq-map f same [] = refl
order_by_seq-map f same (x ∷ xs) =
    rw (order_by_seq-map f same xs) (insert_by_seq-map f same x (order_by_seq xs))

of_session-map :
    (f : Row → Row)
    → ((r : Row) → (f r).session ≡ r.session)
    → (s : String) (xs : List Row) → of_session s (map f xs) ≡ map f (of_session s xs)
of_session-map f same s [] = refl
of_session-map f same s (x ∷ xs) =
    both (str_eq (f x).session s) (str_eq x.session s) (ap (λ t. str_eq t s) (same x))
      (of_session-map f same s xs)
  where
    both :
        (b c : Bool)
        → b ≡ c
        → of_session s (map f xs) ≡ map f (of_session s xs)
        → (if b then f x ∷ of_session s (map f xs) else of_session s (map f xs))
          ≡ map f (if c then x ∷ of_session s xs else of_session s xs)
    both true true e h = ap (λ l. f x ∷ l) h
    both false false e h = h
    both true false e h = cc
    both false true e h = cc

All-insert_by_seq :
    (P : Row → Type 0) (r : Row) (xs : List Row) → P r → All P xs → All P (insert_by_seq r xs)
unfolding insert_by_seq
All-insert_by_seq P r [] h k = (h, k)
All-insert_by_seq P r (x ∷ xs) h (k, ks) = elim (Bool-cases (leb r.seq x.seq)) [
  | inl e ↦ rw e (h, (k, ks))
  | inr e ↦ rw e (k, All-insert_by_seq P r xs h ks)
]

All-order_by_seq : (P : Row → Type 0) (xs : List Row) → All P xs → All P (order_by_seq xs)
unfolding order_by_seq
All-order_by_seq P [] h = tt
All-order_by_seq P (x ∷ xs) (h, hs) =
    All-insert_by_seq P x (order_by_seq xs) h (All-order_by_seq P xs hs)

of_session-session :
    (s : String) (xs : List Row) → All (λ (r : Row). r.session ≡ s) (of_session s xs)
of_session-session s [] = tt
of_session-session s (x ∷ xs) = elim (Bool-cases (str_eq x.session s)) [
  | inl e ↦ rw e ((eq_iff x.session s).0 e, of_session-session s xs)
  | inr e ↦ rw e (of_session-session s xs)
]

pub session_rows-session :
    (table : List Row) (s : String) → All (λ (r : Row). r.session ≡ s) (rows_of table s)
unfolding session_rows
session_rows-session table s =
    All-order_by_seq (λ (r : Row). r.session ≡ s) (of_session s table) (of_session-session s table)

if-field :
    {B : Type 0} (g : Row → B) (b : Bool) (x y : Row) → g x ≡ g y → g (if b then x else y) ≡ g y
if-field g true x y e = e
if-field g false x y e = refl

map_same : (f : Row → Row) (xs : List Row) → All (λ r. f r ≡ r) xs → map f xs ≡ xs
map_same f [] h = refl
map_same f (x ∷ xs) (h, hs) = rw h (ap (λ l. x ∷ l) (map_same f xs hs))

module _ (d t : String) (n : ℕ) where
  abbrev is_hit : Row → Bool
  is_hit r = str_eq r.session t && r.seq == n

  abbrev pub hit : Row → Row
  hit r = record r { prev_digest = some d }

  pub rows_of-update :
      (table : List Row) (s : String)
      → rows_of (update_digest d t n table) s ≡ map (set_prev d t n) (rows_of table s)
  unfolding session_rows update_digest
  rows_of-update table s =
      rw
        (of_session-map (set_prev d t n)
          (λ r. if-field (λ (x : Row). x.session) (is_hit r) (hit r) r refl) s table)
        (order_by_seq-map (set_prev d t n)
          (λ r. if-field (λ (x : Row). x.seq) (is_hit r) (hit r) r refl) (of_session s table))

  pub set_prev-logged : (xs : List Row) → map logged (map (set_prev d t n) xs) ≡ map logged xs
  set_prev-logged [] = refl
  set_prev-logged (x ∷ xs) =
      ap (λ l. l ∷ map logged (map (set_prev d t n) xs)) (if-field logged (is_hit x) (hit x) x refl)
      ∙ ap (λ l. logged x ∷ l) (set_prev-logged xs)

  set_prev-miss : (r : Row) → is_hit r ≡ false → set_prev d t n r ≡ r
  set_prev-miss r e = ap (λ b. if b then hit r else r) e

  pub set_prev-hit : (r : Row) → r.session ≡ t → r.seq ≡ n → set_prev d t n r ≡ hit r
  set_prev-hit r e k = ap (λ b. if b then hit r else r) found
    where
      found : is_hit r ≡ true
      found = rw (e, k) (rw (eq_refl t) (ground arith))

  -- Rows of other sessions, and rows of other numbers, are left alone.
  pub set_prev-other_session :
      (s : String) (xs : List Row)
      → t ≢ s
      → All (λ (r : Row). r.session ≡ s) xs
      → map (set_prev d t n) xs ≡ xs
  set_prev-other_session s xs h k = map_same _ xs (
      All-map (λ (r : Row). r.session ≡ s) (λ r. set_prev d t n r ≡ r)
        (λ r e. set_prev-miss r (rw (str_eq-ne r.session t (λ f. h (sym f ∙ e))) refl)) xs k)

  pub set_prev-other_seq :
      (xs : List Row) → All (λ (r : Row). r.seq ≢ n) xs → map (set_prev d t n) xs ≡ xs
  set_prev-other_seq xs k = map_same _ xs (
      All-map (λ (r : Row). r.seq ≢ n) (λ r. set_prev d t n r ≡ r)
        (λ r h. set_prev-miss r (both (str_eq r.session t) (r.seq == n) (differs r h))) xs k)
    where
      differs : (r : Row) → r.seq ≢ n → (r.seq == n) ≡ false
      differs r h = ground arith

      both : (a b : Bool) → b ≡ false → (a && b) ≡ false
      both a b e = ground arith
