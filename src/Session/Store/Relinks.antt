-- ===== src/Session/Store/Relinks.antt =====
-- pkgs/host/session/src/store.rs: the digests that `migrate_digests` gives to the rows of a session.
use jan_klod.Common.{ℕ, ◌<◌, ◌≡◌, refl, ap, ◌∙◌, String, List, [], ◌∷◌, some, All}
use jan_klod.Session.Store.{Row, compute_event_digest}
use jan_klod.Session.Store.Rows.{IsIncreasing}
use jan_klod.Session.Store.Chain.{Follows}

module _ (sha256 : String → String) where
  -- The chain that a session's rows make once each but the first holds the digest of its predecessor.
  abbrev pub relinked : Row → List Row → List Row
  relinked prev [] = []
  relinked prev (r ∷ rs) =
      record r { prev_digest = some (compute_event_digest sha256 prev) } ∷ relinked r rs

  abbrev pub relink : List Row → List Row
  relink [] = []
  relink (first ∷ rs) = first ∷ relinked first rs

  pub Follows-relinked :
      (prev prev' : Row) (rs : List Row)
      → compute_event_digest sha256 prev ≡ compute_event_digest sha256 prev'
      → Follows sha256 prev' (relinked prev rs)
  Follows-relinked prev prev' [] e = tt
  Follows-relinked prev prev' (r ∷ rs) e =
      (ap some e, Follows-relinked r _ rs (unfold compute_event_digest in refl))

  relinked-relinked :
      (prev prev' : Row) (rs : List Row)
      → compute_event_digest sha256 prev' ≡ compute_event_digest sha256 prev
      → relinked prev' (relinked prev rs) ≡ relinked prev rs
  relinked-relinked prev prev' [] e = refl
  relinked-relinked prev prev' (r ∷ rs) e =
      ap
        (λ d.
          record r { prev_digest = some d }
          ∷ relinked (record r { prev_digest = some (compute_event_digest sha256 prev) })
              (relinked r rs))
        e
      ∙ ap (λ l. record r { prev_digest = some (compute_event_digest sha256 prev) } ∷ l)
          (relinked-relinked r (record r { prev_digest = some (compute_event_digest sha256 prev) })
            rs (unfold compute_event_digest in refl))

  pub relink-relink : (rs : List Row) → relink (relink rs) ≡ relink rs
  relink-relink [] = refl
  relink-relink (r ∷ rs) = ap (λ l. r ∷ l) (relinked-relinked r r rs refl)

  All-relinked :
      (P : ℕ → Type 0) (prev : Row) (rs : List Row)
      → All (λ (r : Row). P r.seq) rs
      → All (λ (r : Row). P r.seq) (relinked prev rs)
  All-relinked P prev [] h = tt
  All-relinked P prev (r ∷ rs) (h, hs) = (h, All-relinked P r rs hs)

  IsIncreasing-relinked :
      (prev : Row) (rs : List Row) → IsIncreasing rs → IsIncreasing (relinked prev rs)
  IsIncreasing-relinked prev [] h = tt
  IsIncreasing-relinked prev (r ∷ rs) (h, hs) =
      (All-relinked (λ n. r.seq < n) r rs h, IsIncreasing-relinked r rs hs)

  pub IsIncreasing-relink : (rs : List Row) → IsIncreasing rs → IsIncreasing (relink rs)
  IsIncreasing-relink [] h = tt
  IsIncreasing-relink (r ∷ rs) (h, hs) =
      (All-relinked (λ n. r.seq < n) r rs h, IsIncreasing-relinked r rs hs)
