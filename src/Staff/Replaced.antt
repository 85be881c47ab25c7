-- ===== src/Staff/Replaced.antt =====
-- backend/src/services/staffAssignment.service.ts: which rows a call replaces, and by which.
use generic_ecommerce_store.Common.{
  ◌==◌, Bool, ℕ, ◌≡◌, refl, sym, ap, subst, ◌∙◌, Option, none, some, List, [], ◌∷◌, ◌++◌, true,
  false, not, arith, ◌&&◌, ◌||◌, ltb, if◌then◌else◌, if-elim, inl, inr, Bool-cases,
}
use text.Mathlib.Text.{◌==◌ as str_eq}
use generic_ecommerce_store.Approval.{RoleRow}
use mathlib.Core.Option.{some-injective}
use generic_ecommerce_store.Common.Lists.{any, keep, All, All-append, length, find?}
use generic_ecommerce_store.Staff.{
  all_stores, listed, valid_ids, unique_from, is_role_name, is_pair, clashes, StoreIds,
  StoreRoleInput, Assigned, Tables, Attempt, fails, gives, is_own_store, check_ids, check_listed,
  resolve_ids, rows_for, Processed, process_ids, process_role, process, create_rows, is_replaced,
  replace_rows, replace, set_user_role_assignments, has,
}

-- A row of the user at all stores, or at a store of the tenant.
abbrev pub IsGranted : Tables → ℕ → ℕ → Assigned → Type 0
IsGranted t user tenant a =
    (a.user_id ≡ user)
    × (a.tenant_id ≡ some tenant)
    × ((s : ℕ) × (a.store_id ≡ some s) × (is_own_store t tenant s ≡ true))

-- What holds of the value of an attempt.
abbrev Gives : {A : Type 0} → (A → Type 0) → Attempt A → Type 0
Gives P (fails e) = Unit
Gives P (gives a) = P a

append_nil : (xs : List Assigned) → xs ++ [] ≡ xs
append_nil [] = refl
append_nil (x ∷ xs) = ap (λ l. x ∷ l) (append_nil xs)

append_assoc :
    (xs : List Assigned) (a : Assigned) (ys : List Assigned) → (xs ++ a ∷ []) ++ ys ≡ xs ++ a ∷ ys
append_assoc [] a ys = refl
append_assoc (x ∷ xs) a ys = ap (λ l. x ∷ l) (append_assoc xs a ys)

module _ (t : Tables) (user tenant : ℕ) where
  own_ids :
      (ids : List ℕ)
      → any (λ n. not (is_own_store t tenant n)) ids ≡ false
      → All (λ n. is_own_store t tenant n ≡ true) ids
  own_ids [] h = tt
  own_ids (n ∷ ids) h = elim (Bool-cases (is_own_store t tenant n)) [
    | inl own ↦ (
      own,
      own_ids ids (ap (λ b. not b || any (λ m. not (is_own_store t tenant m)) ids) (sym own) ∙ h),
    )
    | inr foreign ↦ absurd (ground (arith, foreign, h))
  ]

  check_ids-IsOwn :
      (ids : List ℕ) → Gives (All (λ n. is_own_store t tenant n ≡ true)) (check_ids t tenant ids)
  check_ids-IsOwn ids =
      let P = Gives (All (λ n. is_own_store t tenant n ≡ true)) in
      if-elim P (has ids 0 && ltb 1 (length ids)) (λ mixed. tt)
        (λ plain.
          if-elim P (any (λ n. not (is_own_store t tenant n)) ids) (λ missing. tt)
            (λ own. own_ids ids own))

  resolve_ids-IsOwn :
      (ids : StoreIds)
      → Gives (All (λ n. is_own_store t tenant n ≡ true)) (resolve_ids t tenant ids)
  resolve_ids-IsOwn all_stores = (refl, tt)
  resolve_ids-IsOwn (listed []) = tt
  resolve_ids-IsOwn (listed (id ∷ ids)) = go (valid_ids (id ∷ ids))
    where
      go :
          (o : Option (List ℕ))
          → Gives (All (λ n. is_own_store t tenant n ≡ true)) (check_listed t tenant o)
      go none = tt
      go (some ns) = check_ids-IsOwn (unique_from [] ns)

  rows_for-IsGranted :
      (role : ℕ) (ids : List ℕ)
      → All (λ n. is_own_store t tenant n ≡ true) ids
      → All (IsGranted t user tenant) (rows_for user tenant role ids)
  rows_for-IsGranted role [] h = tt
  rows_for-IsGranted role (s ∷ ss) (own, h) =
      ((refl, refl, (s, refl, own)), rows_for-IsGranted role ss h)

  -- The ids are those of the roles that the assignments name, one for each.
  abbrev pub AreNamed : List StoreRoleInput → List ℕ → Type 0
  AreNamed [] [] = Unit
  AreNamed [] (id ∷ ids) = ⊥
  AreNamed (a ∷ later) [] = ⊥
  AreNamed (a ∷ later) (id ∷ ids) =
      ((role : RoleRow) × (find? (λ r. str_eq r.name a.role_name) t.roles ≡ some role)
        × (role.id ≡ id))
      × AreNamed later ids

  -- The roles of an attempt are those named, and its rows are granted.
  abbrev AreGranted : List StoreRoleInput → Attempt Processed → Type 0
  AreGranted inputs =
      Gives (λ (x : Processed). AreNamed inputs x.0 × All (IsGranted t user tenant) x.1)

  module _ (a : StoreRoleInput) (later : List StoreRoleInput) where
    process_ids-AreGranted :
        (role : RoleRow) (r : Attempt (List ℕ)) (rest : Attempt Processed)
        → find? (λ s. str_eq s.name a.role_name) t.roles ≡ some role
        → Gives (All (λ n. is_own_store t tenant n ≡ true)) r
        → AreGranted later rest
        → AreGranted (a ∷ later) (process_ids user tenant role.id r rest)
    process_ids-AreGranted role (fails e) rest found own h = tt
    process_ids-AreGranted role (gives ids) (fails e) found own h = tt
    process_ids-AreGranted role (gives ids) (gives (roles, rows)) found own (named, granted) = (
      ((role, found, refl), named),
      All-append (IsGranted t user tenant) (rows_for user tenant role.id ids) rows
          (rows_for-IsGranted role.id ids own) granted,
    )

    process_role-AreGranted :
        (ids : StoreIds) (o : Option RoleRow) (rest : Attempt Processed)
        → find? (λ s. str_eq s.name a.role_name) t.roles ≡ o
        → AreGranted later rest
        → AreGranted (a ∷ later) (process_role t user tenant ids o rest)
    process_role-AreGranted ids none rest found h = tt
    process_role-AreGranted ids (some role) rest found h =
        process_ids-AreGranted role (resolve_ids t tenant ids) rest found (resolve_ids-IsOwn ids) h

  process-AreGranted :
      (inputs : List StoreRoleInput) → AreGranted inputs (process t user tenant inputs)
  unfolding process
  process-AreGranted [] = (tt, tt)
  process-AreGranted (a ∷ later) =
      if-elim (AreGranted (a ∷ later)) (not (is_role_name a.role_name)) (λ unknown. tt)
        (λ known.
          process_role-AreGranted a later a.store_ids
            (find? (λ r. str_eq r.name a.role_name) t.roles) (process t user tenant later) refl
            (process-AreGranted later))

  -- `createMany` adds all rows at the end, or none.
  create_rows-append :
      (rows table after : List Assigned)
      → create_rows rows table ≡ some after
      → after ≡ table ++ rows
  create_rows-append [] table after h = sym (some-injective table after h) ∙ sym (append_nil table)
  create_rows-append (a ∷ rows) table after h = elim (Bool-cases (any (clashes a) table)) [
    | inl clash ↦ absurd (ground (arith, clash, h))
    | inr free ↦
        let below : create_rows rows (table ++ a ∷ []) ≡ some after =
          ap (λ b. if b then none else create_rows rows (table ++ a ∷ [])) (sym free) ∙ h in
        create_rows-append rows (table ++ a ∷ []) after below ∙ append_assoc table a rows
  ]

  -- The row is one of this user and tenant, for one of these roles.
  abbrev pub is_named_row : List ℕ → Assigned → Bool
  is_named_row roles a =
      a.user_id == user
      && elim a.tenant_id [ none ↦ false | some n ↦ n == tenant ]
      && any (λ id. id == a.role_id) roles

  is_replaced_iff :
      (roles : List ℕ) (a : Assigned) → is_replaced user tenant roles a ≡ is_named_row roles a
  is_replaced_iff roles a = ground arith

  keep_named :
      (roles : List ℕ) (rows : List Assigned)
      → keep (λ a. not (is_replaced user tenant roles a)) rows
        ≡ keep (λ a. not (is_named_row roles a)) rows
  keep_named roles [] = refl
  keep_named roles (a ∷ rows) = rw (is_replaced_iff roles a, keep_named roles rows) refl

  -- What a call that succeeds leaves of the roles.
  pub Replaced : List StoreRoleInput → Tables → Type 0
  Replaced inputs after =
      (roles : List ℕ) × (rows : List Assigned) × AreNamed inputs roles
      × (after.user_roles ≡ keep (λ a. not (is_named_row roles a)) t.user_roles ++ rows)
      × All (IsGranted t user tenant) rows

  module _ (inputs : List StoreRoleInput) where
    replace_rows-Replaced :
        (roles : List ℕ) (rows : List Assigned) (o : Option (List Assigned))
        → create_rows rows (keep (λ a. not (is_replaced user tenant roles a)) t.user_roles) ≡ o
        → AreNamed inputs roles
        → All (IsGranted t user tenant) rows
        → Gives (Replaced inputs) (replace_rows t o)
    unfolding Replaced
    replace_rows-Replaced roles rows none e named h = tt
    replace_rows-Replaced roles rows (some after) e named h = (
      roles,
      rows,
      named,
      create_rows-append rows (keep (λ a. not (is_replaced user tenant roles a)) t.user_roles) after
            e
          ∙ ap (λ kept. kept ++ rows) (keep_named roles t.user_roles),
      h,
    )

    replace-Replaced :
        (x : Attempt Processed)
        → AreGranted inputs x
        → Gives (Replaced inputs) (replace t user tenant x)
    replace-Replaced (fails e) h = tt
    replace-Replaced (gives (roles, rows)) (named, granted) =
        replace_rows-Replaced roles rows _ refl named granted

  -- A call that succeeds removes the rows of this user and tenant for the roles that the request names, one
  -- role for each assignment, and no others, and what it adds are rows of this user and tenant, each for
  -- all stores or for a store of this tenant.
  pub set_user_role_assignments-Replaced :
      (inputs : List StoreRoleInput) (after : Tables)
      → set_user_role_assignments t user tenant inputs ≡ gives after
      → Replaced inputs after
  unfolding set_user_role_assignments
  set_user_role_assignments-Replaced inputs after h = subst (Gives (Replaced inputs)) h (
      if-elim (Gives (Replaced inputs)) (any (is_pair user tenant) t.users)
        (λ known.
          replace-Replaced inputs (process t user tenant inputs) (process-AreGranted inputs))
        (λ missing. tt))
