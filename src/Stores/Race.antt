-- ===== src/Stores/Race.antt =====
-- backend/src/services/store.service.ts: `updateStore` outside of a transaction, with a change of the
-- default between its reading and its writing.
use generic_ecommerce_store.Common.{
  ℕ, Bool, none, some, List, [], ◌∷◌, map, ◌==◌, not, if◌then◌else◌, true, false, ◌≡◌, refl, ap,
  ◌∙◌, arith, if-elim, if-ind,
}
use generic_ecommerce_store.Common.Lists.{find?, keep, length, find?-IsIn}
use generic_ecommerce_store.Common.Counting.{length-keep, count_positive, find?-map, option_map}
use generic_ecommerce_store.Stores.{
  refused, store_suspended, Store, Stores, Patch, active, suspended, no_store, is_active, is_row,
  is_default_of, is_open_default, update_rows, read_back, write_row, patched, suspends_default,
  unset, set, set_default_store, move_default, default_store, resolve_active_store,
}
use generic_ecommerce_store.Stores.Defaults.{left}

abbrev pub suspension : Patch
suspension = record { name = none; slug = none; status = some suspended }

module _ (tenant id : ℕ) where
  abbrev step : (Store → Store) → Store → Store
  step f s = if is_row tenant id s then f s else s

  -- A write that finds its row is done.
  write_row_found :
      (t : Stores) (rows : List Store) (f : Store → Store) (s : Store)
      → ((x : Store) → is_row tenant id (f x) ≡ is_row tenant id x)
      → find? (is_row tenant id) rows ≡ some s
      → left t (write_row tenant id t rows f)
        ≡ record t { rows = update_rows (is_row tenant id) f rows }
  write_row_found t rows f s keys e =
      let (i, hit) = find?-IsIn (is_row tenant id) rows s e in
      if-elim (λ o. left t o ≡ record t { rows = update_rows (is_row tenant id) f rows })
        (length (keep (is_row tenant id) rows) == 0)
        (λ empty. absurd (
          ground (
            arith,
            empty,
            length-keep (is_row tenant id) rows,
            count_positive (is_row tenant id) rows s i hit,
          )))
        (λ some_row.
          ap (λ o. left t (read_back tenant id t (update_rows (is_row tenant id) f rows) o))
            (find?-map (is_row tenant id) (step f)
                (λ x.
                  if-ind (λ y. is_row tenant id y ≡ is_row tenant id x) (is_row tenant id x)
                    (keys x) refl)
                rows
              ∙ ap (option_map (step f)) e))

  abbrev unset_step : Store → Store
  unset_step s = if is_default_of tenant s then unset s else s

  -- No row is an open default after both writes.
  none_open :
      (x : Store)
      → is_open_default tenant (step (patched suspension) (step set (unset_step x))) ≡ false
  none_open x = ground arith

  none_found :
      (rows : List Store)
      → find?
          (is_open_default tenant)
          (map (step (patched suspension)) (map (step set) (map unset_step rows)))
        ≡ none
  none_found [] = refl
  none_found (x ∷ rows) =
      ap
        (λ b.
          if b
          then some (step (patched suspension) (step set (unset_step x)))
          else find? (is_open_default tenant)
              (map (step (patched suspension)) (map (step set) (map unset_step rows))))
        (none_open x)
      ∙ none_found rows

  module _ (t : Stores) (s : Store) (e : find? (is_row tenant id) t.rows ≡ some s)
      (on : s.status ≡ active) where
    abbrev moved : List Store
    moved = map (step set) (map unset_step t.rows)

    unset_found : find? (is_row tenant id) (map unset_step t.rows) ≡ some (unset_step s)
    unset_found =
        find?-map (is_row tenant id) unset_step
          (λ x.
            if-ind (λ y. is_row tenant id y ≡ is_row tenant id x) (is_default_of tenant x) refl
              refl)
          t.rows
        ∙ ap (option_map unset_step) e

    set_default_done : left t (set_default_store t tenant id) ≡ record t { rows = moved }
    unfolding set_default_store
    set_default_done =
        ap (λ o. left t (move_default t tenant id o)) e
        ∙ (ap
              (λ st. left t (
                if not (is_active st)
                then refused store_suspended
                else write_row tenant id t (map unset_step t.rows) set))
              on
            ∙ write_row_found t (map unset_step t.rows) set (unset_step s) (λ x. refl) unset_found)

    set_found : find? (is_row tenant id) moved ≡ some (step set (unset_step s))
    set_found =
        find?-map (is_row tenant id) (step set)
          (λ x.
            if-ind (λ y. is_row tenant id y ≡ is_row tenant id x) (is_row tenant id x) refl refl)
          (map unset_step t.rows)
        ∙ ap (option_map (step set)) unset_found

    -- A store that is active and not the default passes the guard of a suspension. If it is made the default
    -- before the suspension is written, a request that names no store gets none, an administrator's too.
    pub update_store_race :
        (is_admin : Bool)
        → s.is_default ≡ false
        → let t' = left t (set_default_store t tenant id) in
          (suspends_default suspension.status (find? (is_row tenant id) t.rows) ≡ false)
          × (resolve_active_store
                (left t' (write_row tenant id t' t'.rows (patched suspension))).rows
                tenant
                no_store
                is_admin
              ≡ none)
    unfolding resolve_active_store
    update_store_race is_admin plain = (
      ap (suspends_default (some suspended)) e ∙ plain,
      ap
            (λ u.
              default_store tenant
                (left u (write_row tenant id u u.rows (patched suspension))).rows)
            set_default_done
          ∙ (ap (λ u. default_store tenant u.rows)
                (write_row_found (record t { rows = moved }) moved (patched suspension)
                  (step set (unset_step s)) (λ x. refl) set_found)
              ∙ ap (λ o. elim o [ none ↦ none | some def ↦ some (def.id, true) ])
                  (none_found t.rows)),
    )
