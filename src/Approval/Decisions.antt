-- ===== src/Approval/Decisions.antt =====
-- backend/src/services/user.approval.service.ts: what a decision leaves behind.
use mathlib.Core.Option.{some-injective}
use generic_ecommerce_store.Common.{
  ℕ, ◌≡◌, ◌≢◌, refl, sym, ap, subst, ◌∙◌, Bool, Option, none, some, List, [], ◌∷◌, ◌++◌, true,
  false, arith, ◌==◌, if◌then◌else◌, inl, inr, Bool-cases, ==_iff, Option-cases, if-elim, leb, map,
}
use generic_ecommerce_store.Common.Lists.{find?, find?-IsIn, keep, IsIn}
use generic_ecommerce_store.Common.Counting.{IsIn-keep}
use generic_ecommerce_store.Approval.{
  Registrant, Registry, Formatted, UserRole, Response, refused, answered, find_user, has_id,
  update_user, roles_of, with_default_role, approve, approve_with, approve_user, approve_found,
  insert_newest, newest_first, get_rejected_users, unreject, unreject_user, unreject_found,
  formatted, customer_role, RoleRow,
}

-- An update that keeps the id is found under it.
find?-update_user :
    (id : ℕ) (f : Registrant → Registrant) (us : List Registrant) (u : Registrant)
    → ((v : Registrant) → (f v).id ≡ v.id)
    → find? (has_id id) us ≡ some u
    → find? (has_id id) (update_user id f us) ≡ some (f u)
find?-update_user id f [] u keeps h = absurd (cc)
find?-update_user id f (v ∷ us) u keeps h = elim (Bool-cases (v.id == id)) [
  | inl here ↦
      let same : v ≡ u =
        some-injective v u (ap (λ b. if b then some v else find? (has_id id) us) (sym here) ∙ h) in
      let kept : ((f v).id == id) ≡ true = ap (λ n. n == id) (keeps v) ∙ here in
      rw here (rw kept (ap (λ x. some (f x)) same))
  | inr other ↦
      let below = ap (λ b. if b then some v else find? (has_id id) us) (sym other) ∙ h in
      rw other (rw other (find?-update_user id f us u keeps below))
]

found_id : (r : Registry) (id : ℕ) (u : Registrant) → find_user r id ≡ some u → u.id ≡ id
found_id r id u h = (==_iff u.id id).0 (find?-IsIn (has_id id) r.users u h).1

eq_self : (n : ℕ) → (n == n) ≡ true
eq_self n = ground arith

-- The user of an answer, or else the one given.
abbrev answer_of : Formatted → Response → Formatted
answer_of other (refused e) = other
answer_of other (answered f) = f

keep_last :
    {A : Type 0} (p : A → Bool) (xs : List A) (x : A) → p x ≡ true → keep p (xs ++ x ∷ []) ≢ []
keep_last p [] x h e = absurd (ground (arith, h, e))
keep_last p (y ∷ xs) x h e = elim (Bool-cases (p y)) [
  | inl yes_y ↦ absurd (ground (arith, yes_y, e))
  | inr no_y ↦
      keep_last p xs x h
        (ap (λ b. if b then y ∷ keep p (xs ++ x ∷ []) else keep p (xs ++ x ∷ [])) (sym no_y) ∙ e)
]

-- After the default was assigned the user has a role.
with_default_role-NonEmpty :
    (r : Registry) (id : ℕ) (urs : List UserRole)
    → with_default_role r id ≡ some urs
    → keep (λ ur. ur.user_id == id) urs ≢ []
with_default_role-NonEmpty r id urs h = go (roles_of r id) refl h
  where
    assigned : Option RoleRow → Option (List UserRole)
    assigned none = none
    assigned (some x) =
        some (r.user_roles ++ record { user_id = id; role_id = x.id; store_id = 0 } ∷ [])

    defaulted :
        (o : Option RoleRow) → assigned o ≡ some urs → keep (λ ur. ur.user_id == id) urs ≢ []
    defaulted none e = absurd (cc)
    defaulted (some x) e =
        let given : UserRole = record { user_id = id; role_id = x.id; store_id = 0 } in
        subst (λ l. keep (λ ur. ur.user_id == id) l ≢ [])
          (some-injective (r.user_roles ++ given ∷ []) urs e)
          (keep_last (λ ur. ur.user_id == id) r.user_roles given (eq_self id))

    go :
        (o : List UserRole)
        → roles_of r id ≡ o
        → elim o as (λ x. Option (List UserRole)) [
          | ur ∷ rest ↦ some r.user_roles
          | [] ↦ assigned (customer_role r)
        ]
          ≡ some urs
        → keep (λ ur. ur.user_id == id) urs ≢ []
    go [] e k = defaulted (customer_role r) k
    go (ur ∷ rest) e k =
        subst (λ l. keep (λ x. x.user_id == id) l ≢ []) (some-injective r.user_roles urs k)
          (λ empty. absurd (ground (arith, e, empty)))

-- What an answered approval was.
abbrev Ran : Registry → ℕ → Registrant → Type 0
Ran r id u =
    (urs : List UserRole) × (u.approved ≡ false)
    × (with_default_role r u.id ≡ some urs)
    × (approve_user id r ≡ approve_with r u (some urs))

approve_user-Ran :
    (r : Registry) (id : ℕ) (u : Registrant) (answer : Formatted)
    → find_user r id ≡ some u
    → (approve_user id r).0 ≡ answered answer
    → Ran r id u
unfolding approve_user
approve_user-Ran r id u answer found h =
    let opened : approve_user id r ≡ approve_found r (some u) = ap (approve_found r) found in
    let said : (approve_found r (some u)).0 ≡ answered answer =
      ap (λ (x : Response × Registry). x.0) (sym opened) ∙ h in
    elim (Bool-cases u.approved) [
      | inl approved ↦ absurd (ground (arith, approved, said))
      | inr waits ↦ elim (Option-cases (with_default_role r u.id)) [
        | inl missing ↦ absurd (ground (arith, waits, missing, said))
        | inr (urs, given) ↦ (urs, waits, given, opened ∙ rw waits (ap (approve_with r u) given))
      ]
    ]

-- An approval is answered only for a user who was not approved, and approves him; he has a role then, and
-- a rejection stays as it was.
pub approve_user-Approved :
    (r : Registry) (id : ℕ) (u : Registrant) (answer : Formatted)
    → find_user r id ≡ some u
    → (approve_user id r).0 ≡ answered answer
    → let after = (approve_user id r).1 in
      (u.approved ≡ false)
      × (find_user after id ≡ some (approve u))
      × (roles_of after id ≢ [])
      × (answer ≡ formatted after (approve u))
approve_user-Approved r id u answer found h =
    let (urs, waits, given, ran) = approve_user-Ran r id u answer found h in
    let same_id = found_id r id u found in
    subst
      (λ (x : Response × Registry).
        x.0 ≡ answered answer
        → (u.approved ≡ false)
          × (find_user x.1 id ≡ some (approve u))
          × (roles_of x.1 id ≢ [])
          × (answer ≡ formatted x.1 (approve u)))
      (sym ran)
      (λ said. (
        waits,
        subst (λ k. find? (has_id id) (update_user k approve r.users) ≡ some (approve u))
            (sym same_id) (find?-update_user id approve r.users u (λ v. refl) found),
        subst (λ k. keep (λ ur. ur.user_id == k) urs ≢ []) same_id
            (with_default_role-NonEmpty r u.id urs given),
        ap (answer_of answer) (sym said),
      ))
      h

insert_newest-IsIn :
    (v u : Registrant) (us : List Registrant) → IsIn u (v ∷ us) → IsIn u (insert_newest v us)
insert_newest-IsIn v u [] i = i
insert_newest-IsIn v u (w ∷ us) i =
    if-elim (IsIn u) (leb w.created_at v.created_at) (λ newer. i)
      (λ older. go (insert_newest-IsIn v u us) i)
  where
    go :
        (IsIn u (v ∷ us) → IsIn u (insert_newest v us))
        → IsIn u (v ∷ w ∷ us)
        → IsIn u (w ∷ insert_newest v us)
    go below (inl here) = inr (below (inl here))
    go below (inr (inl next)) = inl next
    go below (inr (inr later)) = inr (below (inr later))

newest_first-IsIn : (u : Registrant) (us : List Registrant) → IsIn u us → IsIn u (newest_first us)
newest_first-IsIn u [] i = i
newest_first-IsIn u (v ∷ us) (inl here) = insert_newest-IsIn v u (newest_first us) (inl here)
newest_first-IsIn u (v ∷ us) (inr later) =
    insert_newest-IsIn v u (newest_first us) (inr (newest_first-IsIn u us later))

formatted-IsIn :
    (r : Registry) (u : Registrant) (us : List Registrant)
    → IsIn u us
    → IsIn (formatted r u) (map (formatted r) us)
formatted-IsIn r u [] i = elim i [ ]
formatted-IsIn r u (v ∷ us) (inl here) = inl (ap (formatted r) here)
formatted-IsIn r u (v ∷ us) (inr later) = inr (formatted-IsIn r u us later)

-- Who is rejected is listed as rejected.
get_rejected_users-IsIn :
    (r : Registry) (id : ℕ) (u : Registrant)
    → find_user r id ≡ some u
    → u.rejected ≡ true
    → IsIn (formatted r u) (get_rejected_users r)
unfolding get_rejected_users
get_rejected_users-IsIn r id u found rejected =
    let listed = keep (λ (v : Registrant). v.rejected) r.users in
    formatted-IsIn r u (newest_first listed) (
      newest_first-IsIn u listed (
        IsIn-keep (λ (v : Registrant). v.rejected) r.users u
          (find?-IsIn (has_id id) r.users u found).0 rejected))

-- A rejected user who is approved is on the list of rejected users still, as approved, and the call that
-- un-rejects him is answered and takes the approval away.
pub approve_user-rejected :
    (r : Registry) (id : ℕ) (u : Registrant) (answer : Formatted)
    → find_user r id ≡ some u
    → u.rejected ≡ true
    → (approve_user id r).0 ≡ answered answer
    → let after = (approve_user id r).1 in
      let last = (unreject_user id after).1 in
      (find_user after id ≡ some (approve u))
      × ((approve u).approved ≡ true)
      × IsIn (formatted after (approve u)) (get_rejected_users after)
      × ((unreject_user id after).0 ≡ answered (formatted last (unreject u)))
      × (find_user last id ≡ some (unreject u))
      × ((unreject u).approved ≡ false)
unfolding unreject_user
approve_user-rejected r id u answer found rejected h =
    let (_, now_approved, _, _) = approve_user-Approved r id u answer found h in
    let after = (approve_user id r).1 in
    let last = record after { users = update_user u.id unreject after.users } in
    let ran : unreject_user id after ≡ (answered (formatted last (unreject u)), last) =
      ap (unreject_found after) now_approved ∙ rw rejected refl in
    (
      now_approved,
      refl,
      get_rejected_users-IsIn after id (approve u) now_approved rejected,
      ap (λ (x : Response × Registry). x.0) ran
          ∙ ap (λ (x : Response × Registry). answered (formatted x.1 (unreject u))) (sym ran),
      ap (λ (x : Response × Registry). find_user x.1 id) ran
          ∙ subst (λ k. find? (has_id id) (update_user k unreject after.users) ≡ some (unreject u))
              (sym (found_id r id u found))
              (find?-update_user id unreject after.users (approve u) (λ v. refl) now_approved),
      refl,
    )
