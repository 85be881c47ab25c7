-- ===== src/Sessions/Families.antt =====
-- backend/src/services/auth.service.ts: the live tokens of a rotation family.
use text.Mathlib.Text.{◌==◌ as str_eq}
use mathlib.Core.Option.{some-injective}
use generic_ecommerce_store.Common.{
  ℕ, ◌+◌, ◌≤◌, ◌<◌, ◌≡◌, refl, ap, subst, ◌∙◌, Bool, Option, none, some, List, [], ◌∷◌, ◌++◌,
  String, true, arith, inl, inr, ◌==◌, ◌&&◌, leb, if-elim, if-ind, if◌then◌else◌,
}
use generic_ecommerce_store.Common.Lists.{IsIn}
use generic_ecommerce_store.Sessions.{
  RefreshToken, Sessions, Crypto, is_live, in_family, revoke_where, new_token, issue_refresh_token,
  newer, newest,
}

-- How many tokens of a family are not revoked.
abbrev pub one : String → RefreshToken → ℕ
one f t = if in_family f t && is_live t then 1 else 0

abbrev pub live : String → List RefreshToken → ℕ
live f [] = 0
live f (t ∷ ts) = one f t + live f ts

one_le :
    (f : String) (p : Bool) (now : ℕ) (t : RefreshToken)
    → one f (if p then record t { revoked_at = some now } else t) ≤ one f t
one_le f p now t = ground arith

pub live-revoke_where :
    (f : String) (p : RefreshToken → Bool) (now : ℕ) (ts : List RefreshToken)
    → live f (revoke_where p now ts) ≤ live f ts
live-revoke_where f p now [] = omega arith
live-revoke_where f p now (t ∷ ts) =
    omega (arith, one_le f (p t) now t, live-revoke_where f p now ts)

-- A live token of the family that the update hits is one less.
pub live-revoke_where-lt :
    (f : String) (p : RefreshToken → Bool) (now : ℕ) (ts : List RefreshToken) (e : RefreshToken)
    → IsIn e ts
    → p e ≡ true
    → is_live e ≡ true
    → in_family f e ≡ true
    → live f (revoke_where p now ts) < live f ts
live-revoke_where-lt f p now [] e there hit lives belongs = elim there [ ]
live-revoke_where-lt f p now (t ∷ ts) e (inr later) hit lives belongs =
    omega (arith, one_le f (p t) now t, live-revoke_where-lt f p now ts e later hit lives belongs)
live-revoke_where-lt f p now (t ∷ ts) e (inl here) hit lives belongs =
    let less = live-revoke_where f p now ts in
    let hit_here : p t ≡ true = ap p here ∙ hit in
    let was : one f t ≡ 1 = ap (one f) here ∙ rw belongs (rw lives refl) in
    let is : one f (if p t then record t { revoked_at = some now } else t) ≡ 0 =
      ground (arith, hit_here) in
    omega (arith, less, was, is)

pub live-append :
    (f : String) (ts : List RefreshToken) (t : RefreshToken)
    → live f (ts ++ t ∷ []) ≡ live f ts + one f t
live-append f [] t = omega arith
live-append f (u ∷ ts) t = omega (arith, live-append f ts t)

pub newest-IsIn : (ts : List RefreshToken) (t : RefreshToken) → newest ts ≡ some t → IsIn t ts
newest-IsIn [] t h = absurd (cc)
newest-IsIn (u ∷ ts) t h = go (newest ts) refl (λ v. newest-IsIn ts v) h
  where
    go :
        (o : Option RefreshToken)
        → newest ts ≡ o
        → ((v : RefreshToken) → newest ts ≡ some v → IsIn v ts)
        → some (newer u o) ≡ some t
        → IsIn t (u ∷ ts)
    go none same below e = inl (some-injective u t e)
    go (some v) same below e =
        subst (λ x. IsIn x (u ∷ ts)) (some-injective (newer u (some v)) t e)
          (if-ind (λ x. IsIn x (u ∷ ts)) (leb u.created_at v.created_at) (inr (below v same))
            (inl refl))

-- Every family has at most one live token.
unfoldable pub AtMostOne : Sessions → Type 0
AtMostOne s = (f : String) → live f s.tokens ≤ 1

one_new :
    (f : String) (crypto : Crypto) (id user : ℕ) (family raw : String) (now : ℕ)
    → one f (new_token crypto id user family raw now) ≡ (if str_eq family f then 1 else 0)
one_new f crypto id user family raw now = ground arith

pub issued-AtMostOne :
    (crypto : Crypto) (user : ℕ) (family raw : String) (now : ℕ) (s : Sessions)
    → ((f : String) → live f s.tokens + (if str_eq family f then 1 else 0) ≤ 1)
    → AtMostOne (issue_refresh_token crypto user family raw now s)
unfolding issue_refresh_token AtMostOne
issued-AtMostOne crypto user family raw now s room f = omega (
  arith,
  live-append f s.tokens (new_token crypto s.next_id user family raw now),
  one_new f crypto s.next_id user family raw now,
  room f,
)

pub revoked-AtMostOne :
    (p : RefreshToken → Bool) (now : ℕ) (s : Sessions)
    → AtMostOne s
    → AtMostOne (record s { tokens = revoke_where p now s.tokens })
unfolding AtMostOne
revoked-AtMostOne p now s h f = omega (arith, live-revoke_where f p now s.tokens, h f)

eq_self : (n : ℕ) → (n == n) ≡ true
eq_self n = ground arith

-- With a live token revoked its family has room for one.
pub room_for :
    (t : RefreshToken) (now : ℕ) (s : Sessions)
    → IsIn t s.tokens
    → is_live t ≡ true
    → AtMostOne s
    → (f : String)
    → live f (revoke_where (λ u. u.id == t.id) now s.tokens)
        + (if str_eq t.family_id f then 1 else 0)
      ≤ 1
unfolding AtMostOne
room_for t now s there lives h f =
    if-elim (λ n. live f (revoke_where (λ u. u.id == t.id) now s.tokens) + n ≤ 1)
      (str_eq t.family_id f)
      (λ belongs.
        let less =
          live-revoke_where-lt f (λ u. u.id == t.id) now s.tokens t there (eq_self t.id) lives
            belongs in
        omega (arith, less, h f))
      (λ other. omega (arith, live-revoke_where f (λ u. u.id == t.id) now s.tokens, h f))
