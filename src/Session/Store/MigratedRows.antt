-- ===== src/Session/Store/MigratedRows.antt =====
-- pkgs/host/session/src/store.rs: the rows of each session after `migrate_digests`.
use jan_klod.Common.{
  ◌<◌, ◌≡◌, ◌≢◌, refl, sym, subst, ap, ◌∙◌, arith, inl, inr, String, Bool, true, false, ◌||◌, List,
  [], ◌∷◌, ◌++◌, map, append_assoc, map-append, str_eq, eq_iff, any, All, All-append, All-map,
  Bool-cases, if◌then◌else◌,
}
use jan_klod.Session.Store.{
  Row, Store, of_session, session_rows, compute_event_digest, order_by_seq,
}
use jan_klod.Session.Store.Rows.{IsIncreasing, Below, str_eq-ne}
use jan_klod.Session.Entries.{text_before}
use jan_klod.Session.Store.Updates.{
  rows_of, hit, rows_of-update, set_prev-hit, set_prev-other_session, set_prev-other_seq,
  session_rows-session,
}
use jan_klod.Session.Store.Digests.{
  insert_session, distinct_sessions, set_prev, update_digest, migrate_events, migrate_rows,
  migrate_session, migrate_sessions, migrate_digests,
}
use jan_klod.Session.Store.Relinks.{relinked, relink, relink-relink, IsIncreasing-relink}

module _ (sha256 : String → String) where
  module _ (s : String) where
    -- The rows `before` are done and stand below the rows to come.
    step :
        (before : List Row) (d : String) (r : Row) (rs table : List Row)
        → rows_of table s ≡ before ++ r ∷ rs
        → r.session ≡ s
        → Below r.seq before
        → All (λ (x : Row). r.seq < x.seq) rs
        → rows_of (update_digest d s r.seq table) s ≡ (before ++ hit d s r.seq r ∷ []) ++ rs
    step before d r rs table e same below above =
        rows_of-update d s r.seq table s
        ∙ ap (map (set_prev d s r.seq)) e
        ∙ map-append (set_prev d s r.seq) before (r ∷ rs)
        ∙ ap (λ l. l ++ map (set_prev d s r.seq) (r ∷ rs))
            (set_prev-other_seq d s r.seq before (
              All-map (λ (x : Row). x.seq < r.seq) (λ (x : Row). x.seq ≢ r.seq) under before below))
        ∙ ap (λ l. before ++ l ∷ map (set_prev d s r.seq) rs) (set_prev-hit d s r.seq r same refl)
        ∙ ap (λ l. before ++ hit d s r.seq r ∷ l)
            (set_prev-other_seq d s r.seq rs
              (All-map (λ (x : Row). r.seq < x.seq) (λ (x : Row). x.seq ≢ r.seq) over rs above))
        ∙ sym (append_assoc before (hit d s r.seq r ∷ []) rs)
      where
        under : (x : Row) → x.seq < r.seq → x.seq ≢ r.seq
        under x h k = omega arith

        over : (x : Row) → r.seq < x.seq → x.seq ≢ r.seq
        over x h k = omega arith

    done-Below :
        (before : List Row) (r : Row) (rs : List Row)
        → All (λ (x : Row). Below x.seq before) rs
        → All (λ (x : Row). r.seq < x.seq) rs
        → All (λ (x : Row). Below x.seq (before ++ r ∷ [])) rs
    done-Below before r [] h k = tt
    done-Below before r (x ∷ rs) (h, hs) (k, ks) = (
      All-append (λ (y : Row). y.seq < x.seq) before (r ∷ []) h (k, tt),
      done-Below before r rs hs ks,
    )

    migrate_events-rows :
        (before : List Row) (prev : Row) (rs table : List Row)
        → rows_of table s ≡ before ++ rs
        → All (λ (r : Row). r.session ≡ s) rs
        → All (λ (r : Row). Below r.seq before) rs
        → IsIncreasing rs
        → rows_of (migrate_events sha256 s prev rs table) s ≡ before ++ (relinked sha256) prev rs
    unfolding migrate_events
    migrate_events-rows before prev [] table e same below up = e
    migrate_events-rows before prev (r ∷ rs) table e (same, sames) (below, belows) (above, up) =
        migrate_events-rows (before ++ _ ∷ []) r rs _
          (step before (compute_event_digest sha256 prev) r rs table e same below above) sames
          (done-Below before _ rs belows above) up
        ∙ append_assoc before _ ((relinked sha256) r rs)

    migrate_rows-rows :
        (table rows : List Row)
        → rows_of table s ≡ rows
        → IsIncreasing rows
        → rows_of (migrate_rows sha256 s rows table) s ≡ (relink sha256) rows
    unfolding migrate_rows
    migrate_rows-rows table [] e up = e
    migrate_rows-rows table (first ∷ rs) e (above, up) =
        migrate_events-rows (first ∷ []) first rs table e sames (belows rs above) up
      where
        sames : All (λ (r : Row). r.session ≡ s) rs
        sames = (subst (All (λ (r : Row). r.session ≡ s)) e (session_rows-session table s)).1

        belows :
            (rs : List Row)
            → All (λ (r : Row). first.seq < r.seq) rs
            → All (λ (r : Row). Below r.seq (first ∷ [])) rs
        belows rs h =
            All-map (λ (r : Row). first.seq < r.seq) (λ (r : Row). Below r.seq (first ∷ []))
              (λ r k. (k, tt)) rs h

    migrate_session-rows :
        (table : List Row)
        → IsIncreasing (rows_of table s)
        → rows_of (migrate_session sha256 s table) s ≡ (relink sha256) (rows_of table s)
    unfolding migrate_session
    migrate_session-rows table up = migrate_rows-rows table (rows_of table s) refl up

    -- Other sessions are left alone.
    migrate_events-other :
        (t : String) (prev : Row) (rs table : List Row)
        → t ≢ s
        → rows_of (migrate_events sha256 t prev rs table) s ≡ rows_of table s
    unfolding migrate_events
    migrate_events-other t prev [] table h = refl
    migrate_events-other t prev (r ∷ rs) table h =
        migrate_events-other t r rs (update_digest (compute_event_digest sha256 prev) t r.seq table)
          h
        ∙ rows_of-update _ t r.seq table s
        ∙ set_prev-other_session _ t r.seq s (rows_of table s) h (session_rows-session table s)

    migrate_session-other :
        (t : String) (table : List Row)
        → t ≢ s
        → rows_of (migrate_session sha256 t table) s ≡ rows_of table s
    unfolding migrate_session
    migrate_session-other t table h = of_rows (rows_of table t)
      where
        of_rows : (rows : List Row) → rows_of (migrate_rows sha256 t rows table) s ≡ rows_of table s
        of_rows [] = unfold migrate_rows in refl
        of_rows (first ∷ rs) = unfold migrate_rows in migrate_events-other t first rs table h

    migrate_sessions-rows :
        (names : List String) (table : List Row)
        → IsIncreasing (rows_of table s)
        → rows_of (migrate_sessions sha256 names table) s
          ≡ (if any (str_eq s) names then (relink sha256) (rows_of table s) else rows_of table s)
    unfolding migrate_sessions
    migrate_sessions-rows [] table up = refl
    migrate_sessions-rows (t ∷ names) table up = elim (Bool-cases (str_eq s t)) [
      | inl e ↦ rw e (
          let k =
            subst
              (λ u. rows_of (migrate_session sha256 u table) s ≡ (relink sha256) (rows_of table s))
              ((eq_iff s t).0 e) (migrate_session-rows table up) in
          migrate_sessions-rows names (migrate_session sha256 t table)
            (subst IsIncreasing (sym k) ((IsIncreasing-relink sha256) (rows_of table s) up))
          ∙ again (any (str_eq s) names) (rows_of (migrate_session sha256 t table) s) k)
      | inr e ↦ rw e (
          let k = migrate_session-other t table (differs e) in
          migrate_sessions-rows names (migrate_session sha256 t table)
            (subst IsIncreasing (sym k) up)
          ∙ ap (λ l. if any (str_eq s) names then (relink sha256) l else l) k)
    ]
      where
        again :
            (b : Bool) (rows : List Row)
            → rows ≡ (relink sha256) (rows_of table s)
            → (if b then (relink sha256) rows else rows) ≡ (relink sha256) (rows_of table s)
        again true rows k = ap (relink sha256) k ∙ (relink-relink sha256) (rows_of table s)
        again false rows k = k

        differs : str_eq s t ≡ false → t ≢ s
        differs e k = let e2 = (eq_iff s t).1 (sym k) in cc

    any-insert_session :
        (n : String) (xs : List String)
        → any (str_eq s) (insert_session n xs) ≡ (str_eq s n || any (str_eq s) xs)
    unfolding insert_session
    any-insert_session n [] = refl
    any-insert_session n (x ∷ xs) = elim (Bool-cases (str_eq n x)) [
      | inl e ↦
          rw e
            (twice (str_eq s n) (str_eq s x) (any (str_eq s) xs) (ap (str_eq s) ((eq_iff n x).0 e)))
      | inr e ↦ elim (Bool-cases (text_before n x)) [
        | inl f ↦ rw (e, f) refl
        | inr f ↦
            rw (e, f)
              (swap (str_eq s n) (str_eq s x) (any (str_eq s) xs) _ (any-insert_session n xs))
      ]
    ]
      where
        twice : (a b c : Bool) → a ≡ b → (b || c) ≡ (a || (b || c))
        twice a b c e = ground arith

        swap : (a b c d : Bool) → d ≡ (a || c) → (b || d) ≡ (a || (b || c))
        swap a b c d e = ground arith

    -- A session of which there is a row is among the names.
    any-distinct_sessions :
        (rows : List Row) → any (str_eq s) (distinct_sessions rows) ≡ false → of_session s rows ≡ []
    unfolding distinct_sessions
    any-distinct_sessions [] h = refl
    any-distinct_sessions (r ∷ rs) h =
        let (miss, rest) =
          neither _ _ (sym (any-insert_session r.session (distinct_sessions rs)) ∙ h) in
        rw (str_eq-ne r.session s (differs miss)) (any-distinct_sessions rs rest)
      where
        neither : (a b : Bool) → (a || b) ≡ false → (a ≡ false) × (b ≡ false)
        neither a b e = ground arith

        differs : str_eq s r.session ≡ false → r.session ≢ s
        differs e k = let e2 = (eq_iff s r.session).1 (sym k) in cc

    pub migrate_digests-rows :
        (store : Store)
        → IsIncreasing (session_rows store s)
        → session_rows (migrate_digests sha256 store).1 s ≡ (relink sha256) (session_rows store s)
    unfolding migrate_digests
    migrate_digests-rows store up =
        migrate_sessions-rows (distinct_sessions store.events) store.events up
        ∙ listed (any (str_eq s) (distinct_sessions store.events)) refl
      where
        listed :
            (b : Bool)
            → any (str_eq s) (distinct_sessions store.events) ≡ b
            → (if b then (relink sha256) (session_rows store s) else session_rows store s)
              ≡ (relink sha256) (session_rows store s)
        listed true e = refl
        listed false e =
            unfold session_rows in
            rw (any-distinct_sessions store.events e) (unfold order_by_seq in refl)
