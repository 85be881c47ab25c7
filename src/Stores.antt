-- ===== src/Stores.antt =====
-- backend/src/services/store.service.ts, and `resolveActiveStore` of
-- backend/src/middleware/tenant.middleware.ts: the stores of the tenants and the one a request is for.
-- A row of no tenant matches none of these queries and is left out; so are the listings.
pub mod Defaults
pub mod Open
pub mod Inventory
pub mod Seeded
pub mod Race
mod Tests
use text.Mathlib.Text.{◌==◌ as str_eq}
use generic_ecommerce_store.Pricing.{or_else}
use generic_ecommerce_store.Common.{
  ℕ, suc, Bool, Option, none, some, List, [], ◌∷◌, ◌++◌, map, String, ◌==◌, ◌&&◌, not,
  if◌then◌else◌, true, false,
}
use generic_ecommerce_store.Common.Lists.{any, find?, keep, length}

pub data StoreStatus : Type 0 where
  active suspended : StoreStatus

-- A row of `stores`.
pub record Store : Type 0 where
  pub id : ℕ
  pub tenant_id : ℕ
  pub name : String
  pub slug : String
  pub is_default : Bool
  pub status : StoreStatus

-- The table, and the id that the next row gets.
pub record Stores : Type 0 where
  pub rows : List Store
  pub next_id : ℕ

-- What the service throws.
pub data StoreError : Type 0 where
  slug_taken store_missing default_needed store_suspended : StoreError

-- The table after the call with the answer, or the error.
pub data Outcome : Type 0 where
  refused : StoreError → Outcome
  done : Stores → Store → Outcome

abbrev pub is_active : StoreStatus → Bool
is_active active = true
is_active suspended = false

-- `where: { id, tenantId }`
abbrev pub is_row : ℕ → ℕ → Store → Bool
is_row tenant id s = s.id == id && s.tenant_id == tenant

-- `where: { tenantId, isDefault: true }`
abbrev pub is_default_of : ℕ → Store → Bool
is_default_of tenant s = s.tenant_id == tenant && s.is_default

-- `where: { tenantId, isDefault: true, status: 'ACTIVE' }`
abbrev pub is_open_default : ℕ → Store → Bool
is_open_default tenant s = is_default_of tenant s && is_active s.status

abbrev has_slug : ℕ → String → Store → Bool
has_slug tenant slug s = s.tenant_id == tenant && str_eq s.slug slug

-- The rows that `updateMany` leaves.
abbrev pub update_rows : (Store → Bool) → (Store → Store) → List Store → List Store
update_rows p f rows = map (λ s. if p s then f s else s) rows

-- The table after `updateMany` on one row, with that row, or the error of a count of 0.
abbrev pub read_back : ℕ → ℕ → Stores → List Store → Option Store → Outcome
read_back tenant id t rows none = refused store_missing
read_back tenant id t rows (some updated) = done (record t { rows = rows }) updated

abbrev pub write_row : ℕ → ℕ → Stores → List Store → (Store → Store) → Outcome
write_row tenant id t rows f =
    let after = update_rows (is_row tenant id) f rows in
    let answer = read_back tenant id t after (find? (is_row tenant id) after) in
    if length (keep (is_row tenant id) rows) == 0 then refused store_missing else answer

abbrev pub new_store : Stores → ℕ → String → String → Store
new_store t tenant name slug = record {
  id = t.next_id;
  tenant_id = tenant;
  name = name;
  slug = slug;
  is_default = false;
  status = active;
}

unfoldable pub create_store : Stores → ℕ → String → String → Outcome
create_store t tenant name slug =
    let s = new_store t tenant name slug in
    if any (has_slug tenant slug) t.rows
    then refused slug_taken
    else done (record { rows = t.rows ++ s ∷ []; next_id = suc t.next_id }) s

-- The `data` of `updateStore`
pub record Patch : Type 0 where
  pub name : Option String
  pub slug : Option String
  pub status : Option StoreStatus

-- Only the given fields change.
abbrev pub patched : Patch → Store → Store
patched p s = record s {
  name = or_else p.name s.name;
  slug = or_else p.slug s.slug;
  status = or_else p.status s.status;
}

-- Another store of the tenant has the slug.
abbrev pub collides : ℕ → ℕ → Option String → List Store → Bool
collides tenant id none rows = false
collides tenant id (some slug) rows = any (λ s. has_slug tenant slug s && not (s.id == id)) rows

abbrev is_default_row : Option Store → Bool
is_default_row none = false
is_default_row (some s) = s.is_default

-- The default store is not suspended.
abbrev pub suspends_default : Option StoreStatus → Option Store → Bool
suspends_default (some suspended) current = is_default_row current
suspends_default _ current = false

unfoldable pub update_store : Stores → ℕ → ℕ → Patch → Outcome
update_store t tenant id p =
    if collides tenant id p.slug t.rows
    then refused slug_taken
    else if suspends_default p.status (find? (is_row tenant id) t.rows)
    then refused default_needed
    else write_row tenant id t t.rows (patched p)

abbrev pub unset : Store → Store
unset s = record s { is_default = false }

abbrev pub set : Store → Store
set s = record s { is_default = true }

-- The two writes of the transaction, after the reads.
abbrev pub move_default : Stores → ℕ → ℕ → Option Store → Outcome
move_default t tenant id none = refused store_missing
move_default t tenant id (some store) =
    let moved = write_row tenant id t (update_rows (is_default_of tenant) unset t.rows) set in
    if not (is_active store.status) then refused store_suspended else moved

unfoldable pub set_default_store : Stores → ℕ → ℕ → Outcome
set_default_store t tenant id = move_default t tenant id (find? (is_row tenant id) t.rows)

-- The `X-Store-Id` header: absent, 0, or else its value if that is a positive integer.
pub data StoreHeader : Type 0 where
  no_store all_stores : StoreHeader
  asked : Option ℕ → StoreHeader

-- The store of the request and whether it is the default.
abbrev pub default_store : ℕ → List Store → Option (ℕ × Bool)
default_store tenant rows = elim (find? (is_open_default tenant) rows) [
  | none ↦ none
  | some def ↦ some (def.id, true)
]

abbrev pub selected_or : Option (ℕ × Bool) → Option Store → Option (ℕ × Bool)
selected_or other none = other
selected_or other (some s) = some (s.id, s.is_default)

unfoldable pub resolve_active_store : List Store → ℕ → StoreHeader → Bool → Option (ℕ × Bool)
resolve_active_store rows tenant all_stores is_admin =
    if is_admin then some (0, false) else default_store tenant rows
resolve_active_store rows tenant (asked (some id)) is_admin =
    selected_or (default_store tenant rows)
      (find? (λ s. is_row tenant id s && is_active s.status) rows)
resolve_active_store rows tenant _ is_admin = default_store tenant rows
