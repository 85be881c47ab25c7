-- ===== src/Shop/Monad.antt =====
-- A service method: it changes the shop, and returns a value or throws. What a method wrote before
-- it throws stays written, unless that was inside `prisma.$transaction`.
use generic_ecommerce_store.Common.{
  sym, subst, ap, refl, ◌≡◌, ◌∷◌, ℕ, Bool, Option, none, some, String, ◌==◌, if◌then◌else◌,
}
use generic_ecommerce_store.Shop.Types.{Shop, Event, ZoneStatus}

-- The errors that the order services throw, each with what its message is made of.
pub data AppError : Type 0 where
  unknown_payment_method unknown_delivery_method no_items variants_not_found : AppError
  variant_not_found : ℕ → AppError
  invalid_quantity not_available_at_store insufficient_stock : String → AppError
  order_not_found product_not_found item_not_found user_not_found access_denied : AppError
  already_voided only_pending_cancelled : AppError
  pay_in_store_unavailable vehicle_required minimum_order : AppError
  address_required street_required city_required state_invalid zip_invalid : AppError
  not_deliverable : ZoneStatus → AppError
  bad_amount insufficient_credit : AppError
  drivers_only_deliver not_deliverable_state : AppError
  not_curbside not_ready_for_pickup : AppError
  not_authorized not_card_payment not_awaiting_payment payment_reused : AppError
  gateway_unavailable payment_not_confirmed wrong_invoice amount_mismatch : AppError
  no_session no_confirmation cards_not_enabled cors_origin_missing : AppError
  -- Not an AppError of the code: a missing tenant context, a row that an update does not find, and
  -- a broken foreign key or unique constraint, which end in a 500.
  missing_tenant_context record_not_found foreign_key unique_constraint : AppError

pub data Result (A : Type 0) : Type 0 where
  ok : A → Result A
  err : AppError → Result A

abbrev pub Action : Type 0 → Type 0
Action A = Shop → Result A × Shop

module _ {A : Type 0} where
  abbrev pub pure : A → Action A
  pure a s = (ok a, s)

  abbrev pub throw : AppError → Action A
  throw e s = (err e, s)

  abbrev pub gets : (Shop → A) → Action A
  gets f s = (ok (f s), s)

  abbrev pub or_throw : Option A → AppError → Action A
  or_throw none e = throw e
  or_throw (some a) e = pure a

  abbrev pub lift : Result A → Action A
  lift r s = (r, s)

  -- How a transaction ends: a throw inside undoes what was written inside.
  abbrev pub commit : Shop → Result A × Shop → Result A × Shop
  commit s (ok a, s') = (ok a, s')
  commit s (err e, s') = (err e, s)

  -- `prisma.$transaction`
  abbrev pub transaction : Action A → Action A
  transaction m s = commit s (m s)

infixl 5 ◌>>=◌ ◌>>◌
abbrev pub ◌>>=◌ : {A B : Type 0} → Action A → (A → Action B) → Action B
◌>>=◌ m f s = let (r, s') = m s in elim r [ ok a ↦ f a s' | err e ↦ (err e, s') ]

abbrev pub ◌>>◌ : {A B : Type 0} → Action A → Action B → Action B
m >> k = m >>= λ _. k

abbrev pub throw_if : Bool → AppError → Action (Unit {0})
throw_if c e s = (if c then err e else ok tt, s)

abbrev pub modify : (Shop → Shop) → Action (Unit {0})
modify f s = (ok tt, f s)

-- A table with one row replaced.
abbrev pub update : {A : Type 0} → (ℕ → A) → ℕ → A → ℕ → A
update t k a j = if j == k then a else t j

-- `eventBus.publish`
abbrev pub publish : Event → Action (Unit {0})
publish e = modify (λ s. record s { published = e ∷ s.published })

-- What holds after a transaction: it committed, or nothing has changed.
pub transaction-ind :
    {A : Type 0} (P : Result A × Shop → Type 0) (m : Action A) (s : Shop)
    → ((a : A) → (m s).0 ≡ ok a → P (ok a, (m s).1))
    → ((e : AppError) → (m s).0 ≡ err e → P (err e, s))
    → P (transaction m s)
transaction-ind {A} P m s committed undone = go (m s) refl
  where
    go : (p : Result A × Shop) → m s ≡ p → P (commit s p)
    go (ok a, s') e =
        let first : (m s).0 ≡ ok a = ap (λ (x : Result A × Shop). x.0) e in
        let second : (m s).1 ≡ s' = ap (λ (x : Result A × Shop). x.1) e in
        subst (λ t. P (ok a, t)) second (committed a first)
    go (err x, s') e = undone x (ap (λ (y : Result A × Shop). y.0) e)

-- What holds after two steps: the second ran from where the first ended, or the first threw.
pub bind-ind :
    {A B : Type 0} (P : Result B × Shop → Type 0) (m : Action A) (f : A → Action B) (s : Shop)
    → ((a : A) (t : Shop) → m s ≡ (ok a, t) → P (f a t))
    → ((e : AppError) (t : Shop) → m s ≡ (err e, t) → P (err e, t))
    → P ((m >>= f) s)
bind-ind {A} {B} P m f s went threw = go (m s) refl
  where
    then_from : Result A × Shop → Result B × Shop
    then_from (r, t) = elim r [ ok a ↦ f a t | err e ↦ (err e, t) ]

    go : (p : Result A × Shop) → m s ≡ p → P (then_from p)
    go (ok a, t) e = went a t e
    go (err x, t) e = threw x t e

-- A transaction that throws leaves the shop as it was.
pub transaction-eq-err :
    {A : Type 0} (m : Action A) (s t : Shop) (e : AppError) → transaction m s ≡ (err e, t) → t ≡ s
transaction-eq-err {A} m s t e = go (m s)
  where
    go : (p : Result A × Shop) → commit s p ≡ (err e, t) → t ≡ s
    go (ok a, u) h = absurd (cc)
    go (err x, u) h = ap (λ (q : Result A × Shop). q.1) (sym h)

-- Two steps that succeed: the first did, and the second did from where it ended.
pub bind-eq-ok :
    {A B : Type 0} (m : Action A) (f : A → Action B) (s t : Shop) (b : B)
    → (m >>= f) s ≡ (ok b, t)
    → (a : A) × (u : Shop) × (m s ≡ (ok a, u)) × (f a u ≡ (ok b, t))
bind-eq-ok {A} {B} m f s t b = go (m s) refl
  where
    then_from : Result A × Shop → Result B × Shop
    then_from (r, u) = elim r [ ok a ↦ f a u | err e ↦ (err e, u) ]

    go :
        (p : Result A × Shop)
        → m s ≡ p
        → then_from p ≡ (ok b, t)
        → (a : A) × (u : Shop) × (m s ≡ (ok a, u)) × (f a u ≡ (ok b, t))
    go (ok a, u) e h = (a, u, e, h)
    go (err x, u) e h = absurd (cc)

-- A transaction that succeeds is its body.
pub transaction-eq-ok :
    {A : Type 0} (m : Action A) (s t : Shop) (a : A) → transaction m s ≡ (ok a, t) → m s ≡ (ok a, t)
transaction-eq-ok {A} m s t a = go (m s)
  where
    go : (p : Result A × Shop) → commit s p ≡ (ok a, t) → p ≡ (ok a, t)
    go (ok b, u) h = h
    go (err x, u) h = absurd (cc)

-- A step that succeeds is followed by the next one.
pub bind-ok :
    {A B : Type 0} (m : Action A) (f : A → Action B) (s t : Shop) (a : A)
    → m s ≡ (ok a, t)
    → (m >>= f) s ≡ f a t
bind-ok {A} {B} m f s t a h = ap then_from h
  where
    then_from : Result A × Shop → Result B × Shop
    then_from (r, u) = elim r [ ok b ↦ f b u | err e ↦ (err e, u) ]

-- A transaction whose body throws changes nothing, and throws the same.
pub transaction-err :
    {A : Type 0} (m : Action A) (s : Shop) (e : AppError)
    → (m s).0 ≡ err e
    → transaction m s ≡ (err e, s)
transaction-err {A} m s e = go (m s)
  where
    go : (p : Result A × Shop) → p.0 ≡ err e → commit s p ≡ (err e, s)
    go (ok a, u) h = absurd (cc)
    go (err x, u) h = ap (λ r. (r, s)) h
