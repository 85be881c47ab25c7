-- ===== src/Approval.antt =====
-- backend/src/services/user.approval.service.ts: the registrations of a tenant, from pending to approved
-- or rejected. A list is ordered by `createdAt`, the newest first; which of two of the same time comes
-- first is open, and here it is the one that stands first in the table.
pub mod Pending
pub mod Decisions
mod Tests
use generic_ecommerce_store.Common.{
  ℕ, Bool, Option, none, some, List, [], ◌∷◌, ◌++◌, map, String, leb, ◌==◌, ◌&&◌, not,
  if◌then◌else◌, true, false,
}
use text.Mathlib.Text.{◌==◌ as str_eq}
use generic_ecommerce_store.Common.Lists.{any, find?, keep, length}
use generic_ecommerce_store.Text.{is_empty}

-- A row of `users`, as far as the approval reads it.
pub record Registrant : Type 0 where
  pub id : ℕ
  pub username : String
  pub approved : Bool
  pub rejected : Bool
  pub rejection_note : Option String
  pub created_at : ℕ

pub record RoleRow : Type 0 where
  pub id : ℕ
  pub name : String

pub record UserRole : Type 0 where
  pub user_id : ℕ
  pub role_id : ℕ
  pub store_id : ℕ

pub data Notice : Type 0 where
  account_approved account_rejected : ℕ → Notice

pub record Registry : Type 0 where
  pub users : List Registrant
  pub roles : List RoleRow
  pub user_roles : List UserRole
  pub notices : List Notice

pub data Refusal : Type 0 where
  user_not_found already_approved customer_role_missing : Refusal
  cannot_reject_approved already_rejected not_rejected : Refusal

-- A user as it is answered: the row, and the names of its roles, null for a role that is gone.
abbrev pub Formatted : Type 0
Formatted = Registrant × List (Option String)

pub data Response : Type 0 where
  refused : Refusal → Response
  answered : Formatted → Response

abbrev pub has_id : ℕ → Registrant → Bool
has_id id u = u.id == id

abbrev pub find_user : Registry → ℕ → Option Registrant
find_user r id = find? (has_id id) r.users

-- The update of the row with an id.
abbrev pub update_user : ℕ → (Registrant → Registrant) → List Registrant → List Registrant
update_user id f [] = []
update_user id f (u ∷ us) = (if u.id == id then f u else u) ∷ update_user id f us

abbrev pub roles_of : Registry → ℕ → List UserRole
roles_of r id = keep (λ ur. ur.user_id == id) r.user_roles

-- `roleMap.get(ur.roleId)`, and its name.
abbrev role_name : Registry → UserRole → Option String
role_name r ur = elim (find? (λ x. x.id == ur.role_id) r.roles) [
  | none ↦ none
  | some x ↦ some x.name
]

abbrev pub formatted : Registry → Registrant → Formatted
formatted r u = (u, map (role_name r) (roles_of r u.id))

abbrev customer_role : Registry → Option RoleRow
customer_role r = find? (λ x. str_eq x.name "CUSTOMER") r.roles

-- The roles after the default was assigned: `none` if there is no CUSTOMER role to assign.
abbrev pub with_default_role : Registry → ℕ → Option (List UserRole)
with_default_role r id = elim (roles_of r id) [
  | ur ∷ urs ↦ some r.user_roles
  | [] ↦ elim (customer_role r) [
    | none ↦ none
    | some x ↦ some (r.user_roles ++ record { user_id = id; role_id = x.id; store_id = 0 } ∷ [])
  ]
]

abbrev pub approve : Registrant → Registrant
approve u = record u { approved = true }

abbrev notice : Notice → Registry → Registry
notice n r = record r { notices = n ∷ r.notices }

-- The rest of `approveUser`, once the roles are there.
abbrev pub approve_with : Registry → Registrant → Option (List UserRole) → Response × Registry
approve_with r u none = (refused customer_role_missing, r)
approve_with r u (some user_roles) =
    let after = record r { user_roles = user_roles; users = update_user u.id approve r.users } in
    (answered (formatted after (approve u)), notice (account_approved u.id) after)

abbrev pub approve_found : Registry → Option Registrant → Response × Registry
approve_found r none = (refused user_not_found, r)
approve_found r (some u) =
    if u.approved
    then (refused already_approved, r)
    else approve_with r u (with_default_role r u.id)

unfoldable pub approve_user : ℕ → Registry → Response × Registry
approve_user id r = approve_found r (find_user r id)

-- `rejectionNote || null`
abbrev non_empty : Option String → Option String
non_empty none = none
non_empty (some s) = if is_empty s then none else some s

abbrev pub reject : Option String → Registrant → Registrant
reject why u = record u { rejected = true; rejection_note = non_empty why }

abbrev pub reject_found : Option String → Registry → Option Registrant → Response × Registry
reject_found why r none = (refused user_not_found, r)
reject_found why r (some u) =
    let after = record r { users = update_user u.id (reject why) r.users } in
    if u.approved
    then (refused cannot_reject_approved, r)
    else if u.rejected
    then (refused already_rejected, r)
    else (answered (formatted after (reject why u)), notice (account_rejected u.id) after)

unfoldable pub reject_user : ℕ → Option String → Registry → Response × Registry
reject_user id why r = reject_found why r (find_user r id)

abbrev pub unreject : Registrant → Registrant
unreject u = record u { rejected = false; approved = false; rejection_note = none }

abbrev pub unreject_found : Registry → Option Registrant → Response × Registry
unreject_found r none = (refused user_not_found, r)
unreject_found r (some u) =
    let after = record r { users = update_user u.id unreject r.users } in
    if not u.rejected
    then (refused not_rejected, r)
    else (answered (formatted after (unreject u)), after)

unfoldable pub unreject_user : ℕ → Registry → Response × Registry
unreject_user id r = unreject_found r (find_user r id)

abbrev pub insert_newest : Registrant → List Registrant → List Registrant
insert_newest u [] = u ∷ []
insert_newest u (v ∷ vs) =
    let rest = insert_newest u vs in if leb v.created_at u.created_at then u ∷ v ∷ vs else v ∷ rest

-- `orderBy: { createdAt: 'desc' }`
abbrev pub newest_first : List Registrant → List Registrant
newest_first [] = []
newest_first (u ∷ us) = insert_newest u (newest_first us)

abbrev pub is_pending : Registrant → Bool
is_pending u = not u.approved && not u.rejected

abbrev pub is_among : List ℕ → ℕ → Bool
is_among ids id = any (λ i. i == id) ids

abbrev ids_of : List Registrant → List ℕ
ids_of = map (λ u. u.id)

-- `pendingUserIds`
abbrev pub pending_user_ids : Registry → List ℕ
pending_user_ids r =
    let unapproved = newest_first (keep is_pending r.users) in
    let all = keep is_pending r.users in
    let without_roles = keep (λ u. not (any (λ ur. ur.user_id == u.id) r.user_roles)) all in
    ids_of unapproved ++ ids_of without_roles

unfoldable pub get_pending_registrations : Registry → List Formatted
get_pending_registrations r =
    let ids = pending_user_ids r in
    map (formatted r) (newest_first (keep (λ u. is_among ids u.id && is_pending u) r.users))

unfoldable pub get_rejected_users : Registry → List Formatted
get_rejected_users r = map (formatted r) (newest_first (keep (λ u. u.rejected) r.users))

unfoldable pub get_pending_registration_count : Registry → ℕ
get_pending_registration_count r = length (keep is_pending r.users)
