-- ===== src/Approval/Pending.antt =====
-- backend/src/services/user.approval.service.ts: what getPendingRegistrations lists.
use generic_ecommerce_store.Common.{
  ℕ, ◌+◌, ◌≡◌, refl, ap, ◌∙◌, Bool, List, [], ◌∷◌, ◌++◌, map, true, false, ◌&&◌, ◌||◌, arith, ◌==◌,
  inl, inr, Bool-cases,
}
use generic_ecommerce_store.Common.Lists.{keep, length}
use generic_ecommerce_store.Approval.{
  Registrant, Registry, formatted, is_pending, is_among, ids_of, pending_user_ids, newest_first,
  insert_newest, get_pending_registrations, get_pending_registration_count,
}

-- Sorting keeps the ids.
is_among-insert_newest :
    (id : ℕ) (u : Registrant) (us : List Registrant)
    → is_among (ids_of (insert_newest u us)) id ≡ ((u.id == id) || is_among (ids_of us) id)
is_among-insert_newest id u [] = refl
is_among-insert_newest id u (v ∷ vs) = ground (arith, is_among-insert_newest id u vs)

is_among-newest_first :
    (id : ℕ) (us : List Registrant)
    → is_among (ids_of (newest_first us)) id ≡ is_among (ids_of us) id
is_among-newest_first id [] = refl
is_among-newest_first id (u ∷ us) =
    is_among-insert_newest id u (newest_first us)
    ∙ ap (λ b. (u.id == id) || b) (is_among-newest_first id us)

is_among-append : (id : ℕ) (is js : List ℕ) → is_among is id ≡ true → is_among (is ++ js) id ≡ true
is_among-append id [] js h = absurd (cc)
is_among-append id (i ∷ is) js h = ground (arith, is_among-append id is js)

and_false : (b : Bool) → (b && false) ≡ false
and_false b = ground arith

-- A test that all pending users pass can be left out.
keep_pending :
    (us : List Registrant) (p : ℕ → Bool)
    → ((id : ℕ) → is_among (ids_of (keep is_pending us)) id ≡ true → p id ≡ true)
    → keep (λ u. p u.id && is_pending u) us ≡ keep is_pending us
keep_pending [] p h = refl
keep_pending (u ∷ us) p h = elim (Bool-cases (is_pending u)) [
  | inl waits ↦
      let passes : p u.id ≡ true = h u.id (rw waits (ground arith)) in
      let rest = keep_pending us p (λ id e. h id (rw waits (ground (arith, e)))) in
      rw passes (rw waits (ap (λ l. u ∷ l) rest))
  | inr decided ↦
      let rest = keep_pending us p (λ id e. h id (rw decided e)) in
      rw decided (rw (and_false (p u.id)) rest)
]

length-insert_newest :
    (u : Registrant) (us : List Registrant) → length (insert_newest u us) ≡ length us + 1
length-insert_newest u [] = refl
length-insert_newest u (v ∷ vs) = ground (arith, length-insert_newest u vs)

length-newest_first : (us : List Registrant) → length (newest_first us) ≡ length us
length-newest_first [] = refl
length-newest_first (u ∷ us) =
    omega (arith, length-insert_newest u (newest_first us), length-newest_first us)

length-map : {A B : Type 0} (f : A → B) (xs : List A) → length (map f xs) ≡ length xs
length-map f [] = refl
length-map f (x ∷ xs) = omega (arith, length-map f xs)

-- The pending registrations are the users that are neither approved nor rejected, the newest first: the
-- users without roles, which are looked up on top, add none, and the count is that of the list.
pub get_pending_registrations-IsPending :
    (r : Registry)
    → (get_pending_registrations r ≡ map (formatted r) (newest_first (keep is_pending r.users)))
      × (length (get_pending_registrations r) ≡ get_pending_registration_count r)
unfolding get_pending_registrations get_pending_registration_count
get_pending_registrations-IsPending r =
    let same = keep_pending r.users (is_among (pending_user_ids r)) among in
    let listed = ap (λ us. map (formatted r) (newest_first us)) same in
    (
      listed,
      ap length listed
          ∙ (length-map (formatted r) (newest_first (keep is_pending r.users))
              ∙ length-newest_first (keep is_pending r.users)),
    )
  where
    among :
        (id : ℕ)
        → is_among (ids_of (keep is_pending r.users)) id ≡ true
        → is_among (pending_user_ids r) id ≡ true
    among id h =
        is_among-append id (ids_of (newest_first (keep is_pending r.users))) _
          (is_among-newest_first id (keep is_pending r.users) ∙ h)
