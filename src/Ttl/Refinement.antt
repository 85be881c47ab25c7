-- ===== src/Ttl/Refinement.antt =====
-- backend/src/utils/ttlCache.ts: the cache against its specification, which has no store: a lookup
-- reads the calls that were made.
use text.Mathlib.Text.{◌==◌ as str_eq}
use text.Mathlib.TextEquality.{eq_iff}
use generic_ecommerce_store.Common.{
  ℕ, ◌+◌, ◌≤◌, ◌≡◌, refl, Option, none, some, List, [], ◌∷◌, String, leb, ltb, if◌then◌else◌, arith,
  inl, inr, Bool-cases, subst, ◌∙◌,
}
use generic_ecommerce_store.Ttl.{get, set, delete, clear, get_entry}

-- A call of the cache.
pub data Call (T : Type 0) : Type 0 where
  got : String → Call T
  put : String → T → Call T
  deleted : String → Call T
  cleared : Call T

module _ {T : Type 0} where
  -- One call, at its time.
  abbrev pub step : ℕ → ℕ → Call T → (String → Option (T × ℕ)) → String → Option (T × ℕ)
  step ttl t (got key) store = (get t key store).1
  step ttl t (put key value) store = set ttl t key value store
  step ttl t (deleted key) store = delete key store
  step ttl t cleared store = clear store

  -- The store after a list of calls, the last one first.
  abbrev pub run : ℕ → List (ℕ × Call T) → String → Option (T × ℕ)
  run ttl [] key = none
  run ttl ((t, c) ∷ earlier) key = step ttl t c (run ttl earlier) key

  -- The specification: the value of the last `set` of the key, if no deletion came after it and it is
  -- at most the time to live old.
  abbrev pub lookup : ℕ → ℕ → String → List (ℕ × Call T) → Option T
  lookup ttl now key [] = none
  lookup ttl now key ((t, got k) ∷ earlier) = lookup ttl now key earlier
  lookup ttl now key ((t, put k value) ∷ earlier) =
      if str_eq k key
      then (if leb now (t + ttl) then some value else none)
      else lookup ttl now key earlier
  lookup ttl now key ((t, deleted k) ∷ earlier) =
      if str_eq k key then none else lookup ttl now key earlier
  lookup ttl now key ((t, cleared) ∷ earlier) = none

  -- The clock did not run backwards, and does not stand before the last call.
  abbrev pub IsOrdered : ℕ → List (ℕ × Call T) → Type 0
  IsOrdered now [] = Unit
  IsOrdered now ((t, c) ∷ earlier) = (t ≤ now) × IsOrdered t earlier

  IsOrdered-trans :
      (t now : ℕ) (calls : List (ℕ × Call T)) → t ≤ now → IsOrdered t calls → IsOrdered now calls
  IsOrdered-trans t now [] p h = tt
  IsOrdered-trans t now ((u, c) ∷ earlier) p (q, h) = (omega arith, h)

  -- What a read of a key would return.
  abbrev peek : ℕ → Option (T × ℕ) → Option T
  peek now none = none
  peek now (some (value, expires_at)) = if ltb expires_at now then none else some value

  -- A read at `t` changes nothing for a later one.
  peek-get :
      (t now : ℕ) (key k : String) (store : String → Option (T × ℕ))
      → t ≤ now
      → peek now ((get t key store).1 k) ≡ peek now (store k)
  unfolding get
  peek-get t now key k store h = go (store key) refl
    where
      go :
          (o : Option (T × ℕ))
          → store key ≡ o
          → peek now ((get_entry t store key o).1 k) ≡ peek now (store k)
      go none e = refl
      go (some (value, expires_at)) e = elim (Bool-cases (str_eq key k)) [
        | inr other ↦ ground arith
        | inl same ↦
            let here : store k ≡ some (value, expires_at) =
              subst (λ x. store x ≡ some (value, expires_at)) ((eq_iff key k).0 same) e in
            ground arith
      ]

  peek-lookup :
      (ttl now : ℕ) (key : String) (calls : List (ℕ × Call T))
      → IsOrdered now calls
      → peek now (run ttl calls key) ≡ lookup ttl now key calls
  unfolding set delete clear
  peek-lookup ttl now key [] h = refl
  peek-lookup ttl now key ((t, got k) ∷ earlier) (p, h) =
      peek-get t now k key (run ttl earlier) p
      ∙ peek-lookup ttl now key earlier (IsOrdered-trans t now earlier p h)
  peek-lookup ttl now key ((t, put k value) ∷ earlier) (p, h) =
      ground (arith, peek-lookup ttl now key earlier (IsOrdered-trans t now earlier p h))
  peek-lookup ttl now key ((t, deleted k) ∷ earlier) (p, h) =
      ground (arith, peek-lookup ttl now key earlier (IsOrdered-trans t now earlier p h))
  peek-lookup ttl now key ((t, cleared) ∷ earlier) h = refl

  -- The cache returns what the specification says, after any calls and whatever its own reads
  -- removed, if the clock does not run backwards.
  pub get-lookup :
      (ttl now : ℕ) (key : String) (calls : List (ℕ × Call T))
      → IsOrdered now calls
      → (get now key (run ttl calls)).0 ≡ lookup ttl now key calls
  unfolding get
  get-lookup ttl now key calls h = value_of (run ttl calls key) ∙ peek-lookup ttl now key calls h
    where
      value_of : (o : Option (T × ℕ)) → (get_entry now (run ttl calls) key o).0 ≡ peek now o
      value_of none = refl
      value_of (some (value, expires_at)) = ground arith
