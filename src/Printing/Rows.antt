-- ===== src/Printing/Rows.antt =====
-- backend/src/services/printJob.service.ts: what the update and the choice of rows keep.
use generic_ecommerce_store.Common.{
  ◌≡◌, refl, subst, Bool, Option, none, some, List, [], ◌∷◌, true, leb, if-elim,
}
use mathlib.Core.Option.{some-injective}
use generic_ecommerce_store.Common.Lists.{All, keep}
use generic_ecommerce_store.Printing.{PrintJob, older, oldest, update_where}

-- An update keeps what holds of all rows, if it holds of the rows that it changes.
pub update_where-All :
    (P : PrintJob → Type 0) (p : PrintJob → Bool) (f : PrintJob → PrintJob) (js : List PrintJob)
    → ((j : PrintJob) → P j → p j ≡ true → P (f j))
    → All P js
    → All P (update_where p f js)
update_where-All P p f [] keeps h = tt
update_where-All P p f (j ∷ js) keeps (h, hs) =
    (if-elim P (p j) (keeps j h) (λ other. h), update_where-All P p f js keeps hs)

-- The oldest of the rows that pass a test passes it.
pub keep-All :
    (P : PrintJob → Type 0) (p : PrintJob → Bool) (js : List PrintJob)
    → All P js
    → All (λ j. P j × (p j ≡ true)) (keep p js)
keep-All P p [] h = tt
keep-All P p (j ∷ js) (h, hs) =
    if-elim (All (λ j. P j × (p j ≡ true))) (p j) (λ passes. ((h, passes), keep-All P p js hs))
      (λ fails. keep-All P p js hs)

pub oldest-All :
    (P : PrintJob → Type 0) (js : List PrintJob) (j : PrintJob)
    → All P js
    → oldest js ≡ some j
    → P j
oldest-All P [] j h e = absurd (cc)
oldest-All P (i ∷ js) j (h, hs) e = go (oldest js) refl (λ m. oldest-All P js m hs) e
  where
    go :
        (o : Option PrintJob)
        → oldest js ≡ o
        → ((m : PrintJob) → oldest js ≡ some m → P m)
        → some (older i o) ≡ some j
        → P j
    go none same below found = subst P (some-injective i j found) h
    go (some m) same below found =
        subst P (some-injective (older i (some m)) j found)
          (if-elim P (leb i.created_at m.created_at) (λ e. h) (λ e. below m same))
