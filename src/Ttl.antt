-- ===== src/Ttl.antt =====
-- backend/src/utils/ttlCache.ts: TtlCache. Times are milliseconds and stand as arguments where the code
-- reads the clock.
pub mod Refinement
mod Tests
use text.Mathlib.Text.{◌==◌ as str_eq}
use generic_ecommerce_store.Common.{
  ℕ, zero, suc, ◌+◌, Option, none, some, List, [], ◌∷◌, String, ltb, if◌then◌else◌,
}

-- What the constructor keeps: `none` stands for a number that is not finite or below zero.
unfoldable pub ttl_of : Option ℕ → ℕ → ℕ
ttl_of none default = default
ttl_of (some zero) default = default
ttl_of (some (suc n)) default = suc n

module _ {T : Type 0} where
  -- A table with the entry of one key replaced.
  abbrev pub with_entry :
      (String → Option (T × ℕ)) → String → Option (T × ℕ) → String → Option (T × ℕ)
  with_entry store key entry k = if str_eq key k then entry else store k

  -- What `get` returns, and the store after it.
  abbrev pub get_entry :
      ℕ → (String → Option (T × ℕ)) → String → Option (T × ℕ) → Option T × (String → Option (T × ℕ))
  get_entry now store key none = (none, store)
  get_entry now store key (some (value, expires_at)) =
      if ltb expires_at now then (none, with_entry store key none) else (some value, store)

  unfoldable pub get : ℕ → String → (String → Option (T × ℕ)) → Option T × (String → Option (T × ℕ))
  get now key store = get_entry now store key (store key)

  unfoldable pub set : ℕ → ℕ → String → T → (String → Option (T × ℕ)) → String → Option (T × ℕ)
  set ttl now key value store = with_entry store key (some (value, now + ttl))

  unfoldable pub delete : String → (String → Option (T × ℕ)) → String → Option (T × ℕ)
  delete key store = with_entry store key none

  unfoldable pub clear : (String → Option (T × ℕ)) → String → Option (T × ℕ)
  clear store key = none
