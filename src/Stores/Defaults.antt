-- ===== src/Stores/Defaults.antt =====
-- backend/src/services/store.service.ts: each tenant keeps one default store, and it is active.
use Prim.Native.Nat.{◌≤◌}
use generic_ecommerce_store.Common.{
  none, some, refl, keep, if-ind, false, length, find?-IsIn, IsIn, some, if◌then◌else◌, Option,
  List, find?, ℕ, Bool, [], ◌∷◌, ◌++◌, map, String, ◌==◌, true, ◌≡◌, sym, ap, ◌∙◌, arith, if-elim,
  Bool-cases, inl, inr,
}
use generic_ecommerce_store.Common.Lists.{any}
use generic_ecommerce_store.Common.Counting.{
  map-IsIn, count_unique, find?-none, count, count-append_one, count-map_le, any-IsIn, any_witness,
  append-IsIn,
}
use generic_ecommerce_store.Stores.{
  active, suspended, collides, suspends_default, read_back, write_row, StoreStatus, patched,
  update_rows, is_row, Patch, update_store, Store, Stores, Outcome, refused, done, is_default_of,
  is_open_default, new_store, create_store,
}

abbrev pub has_id : ℕ → Store → Bool
has_id i s = s.id == i

-- One active default store, among rows whose ids are distinct and below the next one.
pub record IsSound (tenant : ℕ) (t : Stores) : Type 0 where
  pub fresh : (i : ℕ) → t.next_id ≤ i → count (has_id i) t.rows ≤ 0
  pub unique : (i : ℕ) → count (has_id i) t.rows ≤ 1
  pub served : any (is_open_default tenant) t.rows ≡ true
  pub single : count (is_default_of tenant) t.rows ≤ 1

-- The table that a call leaves; a refused call writes nothing.
abbrev pub left : Stores → Outcome → Stores
left t (refused e) = t
left t (done after s) = after

module _ (T : ℕ) (t : Stores) (sound : IsSound T t) where
  -- A change of rows that keeps the ids, the opened default and the number of defaults.
  pub changed-IsSound :
      (g : Store → Store)
      → ((s : Store) → (g s).id ≡ s.id)
      → any (is_open_default T) (map g t.rows) ≡ true
      → count (is_default_of T) (map g t.rows) ≤ 1
      → IsSound T (record t { rows = map g t.rows })
  changed-IsSound g ids opened few =
      let same : (i : ℕ) → count (has_id i) (map g t.rows) ≤ count (has_id i) t.rows = λ i.
        count-map_le (has_id i) (has_id i) g (λ s h. ap (λ n. n == i) (sym (ids s)) ∙ h) t.rows in
      record {
        fresh = λ i h. omega (arith, same i, sound.fresh i h);
        unique = λ i. omega (arith, same i, sound.unique i);
        served = opened;
        single = few;
      }

  pub create_store-IsSound :
      (tenant : ℕ) (name slug : String) → IsSound T (left t (create_store t tenant name slug))
  unfolding create_store
  create_store-IsSound tenant name slug =
      let s = new_store t tenant name slug in
      if-elim (λ o. IsSound T (left t o)) (any _ t.rows) (λ taken. sound)
        (λ free. record {
          fresh = λ i h.
              ground (arith, count-append_one (has_id i) t.rows s, sound.fresh i (omega arith));
          unique = λ i. elim (Bool-cases (t.next_id == i)) [
            | inl e ↦
                ground
                  (arith, count-append_one (has_id i) t.rows s, sound.fresh i (ground (arith, e)))
            | inr e ↦ ground (arith, count-append_one (has_id i) t.rows s, sound.unique i)
          ];
          served =
              let (d, i, h) = any_witness (is_open_default T) t.rows sound.served in
              any-IsIn (is_open_default T) (t.rows ++ s ∷ []) d (append-IsIn t.rows (s ∷ []) d i) h;
          single = ground (arith, count-append_one (is_default_of T) t.rows s, sound.single);
        })

  pub write_row-IsSound :
      (tenant id : ℕ) (rows : List Store) (f : Store → Store)
      → IsSound T (record t { rows = update_rows (is_row tenant id) f rows })
      → IsSound T (left t (write_row tenant id t rows f))
  write_row-IsSound tenant id rows f h =
      if-elim (λ o. IsSound T (left t o)) (length (keep (is_row tenant id) rows) == 0)
        (λ missing. sound) (λ found. go (find? (is_row tenant id) _))
    where
      go :
          (o : Option Store)
          → IsSound T (left t (read_back tenant id t (update_rows (is_row tenant id) f rows) o))
      go none = sound
      go (some s) = h

  found_row :
      (tenant id : ℕ) (c d : Store)
      → find? (is_row tenant id) t.rows ≡ some c
      → IsIn d t.rows
      → is_row tenant id d ≡ true
      → c ≡ d
  found_row tenant id c d e i h =
      let (j, hc) = find?-IsIn (is_row tenant id) t.rows c e in
      count_unique (has_id id) t.rows c d (sound.unique id) j (ground (arith, hc)) i
        (ground (arith, h))

  -- A row that the update writes and that the guard lets through stays open.
  patched_open :
      (tenant id : ℕ) (p : Patch) (d : Store) (o : Option Store) (st : Option StoreStatus)
      → find? (is_row tenant id) t.rows ≡ o
      → p.status ≡ st
      → suspends_default st o ≡ false
      → IsIn d t.rows
      → is_row tenant id d ≡ true
      → is_open_default T d ≡ true
      → is_open_default T (patched p d) ≡ true
  patched_open tenant id p d o none e k guard i row h = ground (arith, k, h)
  patched_open tenant id p d o (some active) e k guard i row h = ground (arith, k, h)
  patched_open tenant id p d none (some suspended) e k guard i row h =
      absurd (ground (arith, find?-none (is_row tenant id) t.rows e d i, row))
  patched_open tenant id p d (some c) (some suspended) e k guard i row h =
      let same : c ≡ d = found_row tenant id c d e i row in
      let kept : d.is_default ≡ false = ap (λ (s : Store). s.is_default) (sym same) ∙ guard in
      absurd (ground (arith, kept, h))

  pub update_store-IsSound :
      (tenant id : ℕ) (p : Patch) → IsSound T (left t (update_store t tenant id p))
  unfolding update_store
  update_store-IsSound tenant id p =
      if-elim (λ o. IsSound T (left t o)) (collides tenant id p.slug t.rows) (λ taken. sound)
        (λ free.
          if-elim (λ o. IsSound T (left t o))
            (suspends_default p.status (find? (is_row tenant id) t.rows)) (λ needed. sound)
            (λ guard. write_row-IsSound tenant id t.rows (patched p) (written guard)))
    where
      g : Store → Store
      g s = if is_row tenant id s then patched p s else s

      written :
          suspends_default p.status (find? (is_row tenant id) t.rows) ≡ false
          → IsSound T (record t { rows = update_rows (is_row tenant id) (patched p) t.rows })
      written guard =
          let (d, i, h) = any_witness (is_open_default T) t.rows sound.served in
          changed-IsSound g
            (λ s. if-ind (λ (r : Store). r.id ≡ s.id) (is_row tenant id s) refl refl)
            (any-IsIn (is_open_default T) _ (g d) (map-IsIn g t.rows d i) (
              if-elim (λ r. is_open_default T r ≡ true) (is_row tenant id d)
                (λ row. patched_open tenant id p d _ p.status refl refl guard i row h)
                (λ other. h)))
            (omega (
              arith,
              sound.single,
              count-map_le (is_default_of T) (is_default_of T) g
                  (λ s.
                    if-ind (λ r. is_default_of T r ≡ true → is_default_of T s ≡ true)
                      (is_row tenant id s) (λ k. k) (λ k. k))
                  t.rows,
            ))
