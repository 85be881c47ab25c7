-- ===== src/Tenants/Audited.antt =====
-- backend/src/services/tenantManagement.service.ts: the audit log explains the status of every tenant.
use Prim.Native.Nat.{◌≤◌}
use generic_ecommerce_store.Common.{
  ℕ, suc, Option, none, some, List, [], ◌∷◌, ◌++◌, String, ◌==◌, if◌then◌else◌, true, false, ◌≡◌,
  refl, sym, ap, ◌∙◌, subst, arith, if-elim, Bool-cases, inl, inr,
}
use generic_ecommerce_store.Common.Lists.{any, find?, find?-IsIn}
use generic_ecommerce_store.Common.Counting.{
  find?-some, option_map, find?-map, find?-append_one, find?-append_other,
}
use generic_ecommerce_store.Approval.{RoleRow}
use generic_ecommerce_store.Tenants.{
  active, creation, transition, fails, gives, tenant_created, TenantStatus, Tenant, Detail,
  AuditActor, AuditRow, AuditAction, Platform, Result, CreateTenantInput, has_id, audit_row,
  new_tenant, admin_role, provision, update_tenants, change_tenant,
}

-- The status that the table has for an id.
abbrev pub status_of : ℕ → List Tenant → Option TenantStatus
status_of id tenants = option_map (λ (t : Tenant). t.status) (find? (has_id id) tenants)

-- The status that a row of the audit leaves.
abbrev pub effect : Detail → Option TenantStatus → Option TenantStatus
effect (creation slug name plan) before = some active
effect (transition from to) before = some to
effect _ before = before

-- The status of a tenant by its audit alone, which is newest first.
abbrev pub replay : ℕ → List AuditRow → Option TenantStatus
replay id [] = none
replay id (r ∷ older) =
    if r.target_tenant_id == id then effect r.detail (replay id older) else replay id older

-- What a row says of the status before it: none at a creation, `from` at a transition, else any.
abbrev pub Fits : Detail → Option TenantStatus → Type 0
Fits (creation slug name plan) before = before ≡ none
Fits (transition from to) before = before ≡ some from
Fits _ before = (s : TenantStatus) × (before ≡ some s)

-- Every row fits the rows before it.
abbrev pub IsHistory : List AuditRow → Type 0
IsHistory [] = Unit
IsHistory (r ∷ older) = Fits r.detail (replay r.target_tenant_id older) × IsHistory older

pub record IsAudited (p : Platform) : Type 0 where
  pub replayed : (id : ℕ) → replay id p.audit ≡ status_of id p.tenants
  pub history : IsHistory p.audit
  pub unused : (i : ℕ) → p.next_tenant ≤ i → status_of i p.tenants ≡ none

-- The platform that a call leaves; a refused call writes nothing.
abbrev pub left : Platform → Result → Platform
left p (fails e) = p
left p (gives after) = after

status_append_other :
    (i : ℕ) (ts : List Tenant) (t : Tenant)
    → (t.id == i) ≡ false
    → status_of i (ts ++ t ∷ []) ≡ status_of i ts
status_append_other i ts t h =
    ap (option_map (λ (t : Tenant). t.status)) (find?-append_other (has_id i) ts t h)

status_append_new :
    (i : ℕ) (ts : List Tenant) (t : Tenant)
    → (t.id == i) ≡ true
    → status_of i ts ≡ none
    → status_of i (ts ++ t ∷ []) ≡ some t.status
status_append_new i ts t hit none_yet = elim (Bool-cases (any (has_id i) ts)) [
  | inl there ↦
      let (a, e) = find?-some (has_id i) ts there in
      absurd (ground (arith, none_yet, ap (option_map (λ (t : Tenant). t.status)) e))
  | inr absent ↦
      ap (option_map (λ (t : Tenant). t.status))
        (find?-append_one (has_id i) ts t absent ∙ ap (λ b. if b then some t else none) hit)
]

module _ (p : Platform) (sound : IsAudited p) where
  -- A change that keeps ids, with a detail that tells of the status before and after.
  module _ (id : ℕ) (actor : AuditActor) (action : AuditAction) (f : Tenant → Tenant)
      (detail : Tenant → Detail) (ids : (t : Tenant) → (f t).id ≡ t.id)
      (fits : (t : Tenant) → Fits (detail t) (some t.status))
      (tells : (t : Tenant) → effect (detail t) (some t.status) ≡ some (f t).status) where
    abbrev changed : Tenant → Tenant
    changed t = if t.id == id then f t else t

    changed_id : (i : ℕ) (t : Tenant) → has_id i (changed t) ≡ has_id i t
    changed_id i t =
        if-elim (λ (x : Tenant). has_id i x ≡ has_id i t) (t.id == id)
          (λ hit. ap (λ n. n == i) (ids t)) (λ miss. refl)

    status_changed :
        (i : ℕ)
        → status_of i (update_tenants id f p.tenants)
          ≡ option_map (λ (t : Tenant). (changed t).status) (find? (has_id i) p.tenants)
    status_changed i =
        ap (option_map (λ (t : Tenant). t.status))
          (find?-map (has_id i) changed (changed_id i) p.tenants)
        ∙ twice (find? (has_id i) p.tenants)
      where
        twice :
            (o : Option Tenant)
            → option_map (λ (t : Tenant). t.status) (option_map changed o)
              ≡ option_map (λ (t : Tenant). (changed t).status) o
        twice none = refl
        twice (some t) = refl

    status_other :
        (i : ℕ)
        → (id == i) ≡ false
        → status_of i (update_tenants id f p.tenants) ≡ status_of i p.tenants
    status_other i differ = status_changed i ∙ go (find? (has_id i) p.tenants) refl
      where
        go :
            (o : Option Tenant)
            → find? (has_id i) p.tenants ≡ o
            → option_map (λ (t : Tenant). (changed t).status) o
              ≡ option_map (λ (t : Tenant). t.status) o
        go none e = refl
        go (some t) e =
            let (j, hit) = find?-IsIn (has_id i) p.tenants t e in
            let miss : (t.id == id) ≡ false = ground (arith, hit, differ) in
            ap (λ b. some (if b then f t else t).status) miss

    status_hit :
        (t : Tenant)
        → find? (has_id id) p.tenants ≡ some t
        → status_of id (update_tenants id f p.tenants) ≡ some (f t).status
    status_hit t e =
        let (j, hit) = find?-IsIn (has_id id) p.tenants t e in
        status_changed id
        ∙ (ap (option_map (λ (t : Tenant). (changed t).status)) e
            ∙ ap (λ b. some (if b then f t else t).status) hit)

    pub change_tenant-IsAudited :
        (o : Option Tenant)
        → find? (has_id id) p.tenants ≡ o
        → IsAudited (left p (change_tenant p id actor action f detail o))
    change_tenant-IsAudited none e = sound
    change_tenant-IsAudited (some t) e =
        let before : replay id p.audit ≡ some t.status =
          sound.replayed id ∙ ap (option_map (λ (t : Tenant). t.status)) e in
        record {
          replayed = λ i.
              if-elim (λ o. o ≡ status_of i (update_tenants id f p.tenants)) (id == i)
                (λ same.
                  subst
                    (λ n.
                      effect (detail t) (replay n p.audit)
                      ≡ status_of n (update_tenants id f p.tenants))
                    (ground (arith, same))
                    (ap (effect (detail t)) before ∙ (tells t ∙ sym (status_hit t e))))
                (λ differ. sound.replayed i ∙ sym (status_other i differ));
          history = (subst (Fits (detail t)) (sym before) (fits t), sound.history);
          unused = λ i h. elim (Bool-cases (id == i)) [
            | inl same ↦
                let missing : status_of id p.tenants ≡ none =
                  ap (λ n. status_of n p.tenants) (ground (arith, same)) ∙ sound.unused i h in
                absurd (ground (arith, missing, ap (option_map (λ (t : Tenant). t.status)) e))
            | inr differ ↦ status_other i differ ∙ sound.unused i h
          ];
        }

  pub provision-IsAudited :
      (input : CreateTenantInput) (actor : AuditActor) (reporting print : String)
      (o : Option RoleRow)
      → IsAudited (provision p input actor reporting print (admin_role p o))
  provision-IsAudited input actor reporting print o =
      let new = new_tenant p input reporting print in
      let row =
        audit_row tenant_created p.next_tenant actor (creation input.slug input.name input.plan) in
      record {
        replayed = λ i.
            subst (λ log. replay i (row ∷ log) ≡ status_of i (p.tenants ++ new ∷ []))
              (sym (log_kept o))
              (if-elim (λ s. s ≡ status_of i (p.tenants ++ new ∷ [])) (p.next_tenant == i)
                (λ same.
                  sym (
                    status_append_new i p.tenants new same (sound.unused i (ground (arith, same)))))
                (λ differ. sound.replayed i ∙ sym (status_append_other i p.tenants new differ)));
        history =
            subst (λ log. IsHistory (row ∷ log)) (sym (log_kept o))
              (
                sound.replayed p.next_tenant ∙ sound.unused p.next_tenant (ground (arith)),
                sound.history,
              );
        unused = λ i h.
            status_append_other i p.tenants new (unequal i h) ∙ sound.unused i (omega (arith, h));
      }
    where
      log_kept : (o : Option RoleRow) → (admin_role p o).1.audit ≡ p.audit
      log_kept none = refl
      log_kept (some r) = refl

      unequal : (i : ℕ) → suc p.next_tenant ≤ i → (p.next_tenant == i) ≡ false
      unequal i h = ground (arith, h)
