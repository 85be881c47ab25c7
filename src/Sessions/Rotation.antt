-- ===== src/Sessions/Rotation.antt =====
-- backend/src/services/auth.service.ts: rotation families through logins, refreshes and logouts.
use text.Mathlib.Text.{◌==◌ as str_eq}
use generic_ecommerce_store.Common.{
  ℕ, ◌+◌, ◌≤◌, ◌<◌, ◌≡◌, refl, ap, subst, ◌∙◌, Option, none, some, List, [], ◌∷◌, String, true,
  false, arith, ◌==◌, ◌&&◌, leb, if-elim, if-ind, if◌then◌else◌, not,
}
use generic_ecommerce_store.Common.Lists.{keep, find?, IsIn, find?-IsIn, keep-IsIn}
use text.Mathlib.TextEquality.{eq_iff}
use generic_ecommerce_store.Address.{to_lower_case}
use generic_ecommerce_store.Text.{is_empty, of_chars, to_chars, trim}
use generic_ecommerce_store.Sessions.{
  RefreshToken, Account, Sessions, Crypto, Outcome, unauthorized, is_live, in_family, revoke_where,
  revoke_family, revoke_all_user_tokens, has_hash, logout, login_to, login, with_username, rotate,
  rotate_and_mint, newest, is_head, reused, refresh_found, refresh, with_user_id,
  refresh_reuse_grace_ms,
}
use generic_ecommerce_store.Sessions.Families.{
  one, live, newest-IsIn, AtMostOne, issued-AtMostOne, revoked-AtMostOne, room_for,
}

-- A rotation of a live token revokes it and issues one in its place.
rotate-AtMostOne :
    (crypto : Crypto) (t : RefreshToken) (raw : String) (now : ℕ) (s : Sessions)
    (o : Option Account)
    → IsIn t s.tokens
    → is_live t ≡ true
    → AtMostOne s
    → AtMostOne (rotate crypto t raw now s o).1
unfolding revoke_family
rotate-AtMostOne crypto t raw now s none there lives h =
    revoked-AtMostOne (λ u. in_family t.family_id u && is_live u) now s h
rotate-AtMostOne crypto t raw now s (some a) there lives h =
    issued-AtMostOne crypto a.id t.family_id raw now
      (record s { tokens = revoke_where (λ u. u.id == t.id) now s.tokens })
      (room_for t now s there lives h)

rotate_and_mint-AtMostOne :
    (crypto : Crypto) (t : RefreshToken) (raw : String) (now : ℕ) (s : Sessions)
    → IsIn t s.tokens
    → is_live t ≡ true
    → AtMostOne s
    → AtMostOne (rotate_and_mint crypto t raw now s).1
unfolding rotate_and_mint
rotate_and_mint-AtMostOne crypto t raw now s =
    rotate-AtMostOne crypto t raw now s (find? (with_user_id t.user_id) s.accounts)

reused-AtMostOne :
    (crypto : Crypto) (t : RefreshToken) (raw : String) (now r : ℕ) (s : Sessions)
    (o : Option RefreshToken)
    → newest (keep (is_head t.family_id now) s.tokens) ≡ o
    → AtMostOne s
    → AtMostOne (reused crypto t raw now r s o).1
unfolding revoke_family
reused-AtMostOne crypto t raw now r s none e h =
    revoked-AtMostOne (λ u. in_family t.family_id u && is_live u) now s h
reused-AtMostOne crypto t raw now r s (some head) e h =
    let (there, passes) =
      keep-IsIn (is_head t.family_id now) s.tokens head
        (newest-IsIn (keep (is_head t.family_id now) s.tokens) head e) in
    if-ind (λ (x : Outcome × Sessions). AtMostOne x.1) (leb now (r + refresh_reuse_grace_ms))
      (rotate_and_mint-AtMostOne crypto head raw now s there (ground arith) h)
      (revoked-AtMostOne (λ u. in_family t.family_id u && is_live u) now s h)

refresh_found-AtMostOne :
    (crypto : Crypto) (raw : String) (now : ℕ) (s : Sessions) (o : Option RefreshToken)
    → ((t : RefreshToken) → o ≡ some t → IsIn t s.tokens)
    → AtMostOne s
    → AtMostOne (refresh_found crypto raw now s o).1
refresh_found-AtMostOne crypto raw now s none there h = h
refresh_found-AtMostOne crypto raw now s (some t) there h = go t.revoked_at refl
  where
    go :
        (o : Option ℕ)
        → t.revoked_at ≡ o
        → AtMostOne
            (elim o as (λ x. Outcome × Sessions) [
              | some r ↦
                  reused crypto t raw now r s (newest (keep (is_head t.family_id now) s.tokens))
              | none ↦
                  if leb t.expires_at now
                  then (
                    unauthorized,
                    record s { tokens = revoke_where (λ u. u.id == t.id) now s.tokens },
                  )
                  else rotate_and_mint crypto t raw now s
            ]).1
    go (some r) e =
        reused-AtMostOne crypto t raw now r s (newest (keep (is_head t.family_id now) s.tokens))
          refl h
    go none e =
        if-ind (λ (x : Outcome × Sessions). AtMostOne x.1) (leb t.expires_at now)
          (revoked-AtMostOne (λ u. u.id == t.id) now s h)
          (rotate_and_mint-AtMostOne crypto t raw now s (there t refl) (ground (arith, e)) h)

refresh-AtMostOne :
    (crypto : Crypto) (presented raw : String) (now : ℕ) (s : Sessions)
    → AtMostOne s
    → AtMostOne (refresh crypto presented raw now s).1
unfolding refresh
refresh-AtMostOne crypto presented raw now s h =
    if-ind (λ (x : Outcome × Sessions). AtMostOne x.1) (is_empty presented) h
      (refresh_found-AtMostOne crypto raw now s (find? (has_hash crypto presented) s.tokens)
        (λ t e. (find?-IsIn (has_hash crypto presented) s.tokens t e).0) h)

login_to-AtMostOne :
    (crypto : Crypto) (password raw family : String) (now : ℕ) (s : Sessions)
    → live family s.tokens ≡ 0
    → AtMostOne s
    → (o : Option Account) → AtMostOne (login_to crypto password raw family now s o).1
unfolding AtMostOne
login_to-AtMostOne crypto password raw family now s fresh h none = h
login_to-AtMostOne crypto password raw family now s fresh h (some a) =
    let P = λ (x : Outcome × Sessions). AtMostOne x.1 in
    if-ind P (not (crypto.compare_password password a.password)) h
      (if-ind P (not a.approved) h (issued-AtMostOne crypto a.id family raw now s room))
  where
    room : (f : String) → live f s.tokens + (if str_eq family f then 1 else 0) ≤ 1
    room f =
        if-elim (λ n. live f s.tokens + n ≤ 1) (str_eq family f)
          (λ same.
            let none_yet : live f s.tokens ≡ 0 =
              subst (λ x. live x s.tokens ≡ 0) ((eq_iff family f).0 same) fresh in
            omega (arith, none_yet))
          (λ other. omega (arith, h f))

login-AtMostOne :
    (crypto : Crypto) (username password raw family : String) (now : ℕ) (s : Sessions)
    → live family s.tokens ≡ 0
    → AtMostOne s
    → AtMostOne (login crypto username password raw family now s).1
unfolding login
login-AtMostOne crypto username password raw family now s fresh h =
    login_to-AtMostOne crypto password raw family now s fresh h (
      find? (with_username (of_chars (to_lower_case crypto.case_map (to_chars (trim username)))))
        s.accounts)

-- A call of the service; a login has the family that it draws.
pub data Call : Type 0 where
  logged_in : (username password raw family : String) → ℕ → Call
  refreshed : (presented raw : String) → ℕ → Call
  logged_out : String → ℕ → Call
  revoked_all : ℕ → ℕ → Call

abbrev pub run : Crypto → List Call → Sessions → Sessions
run crypto [] s = s
run crypto (logged_in username password raw family now ∷ cs) s =
    run crypto cs (login crypto username password raw family now s).1
run crypto (refreshed presented raw now ∷ cs) s =
    run crypto cs (refresh crypto presented raw now s).1
run crypto (logged_out raw now ∷ cs) s = run crypto cs (logout crypto raw now s)
run crypto (revoked_all user now ∷ cs) s = run crypto cs (revoke_all_user_tokens user now s)

-- Every login draws a family that no live token has.
abbrev pub DrawsFresh : Crypto → List Call → Sessions → Type 0
DrawsFresh crypto [] s = Unit
DrawsFresh crypto (logged_in username password raw family now ∷ cs) s =
    (live family s.tokens ≡ 0)
    × DrawsFresh crypto cs (login crypto username password raw family now s).1
DrawsFresh crypto (refreshed presented raw now ∷ cs) s =
    DrawsFresh crypto cs (refresh crypto presented raw now s).1
DrawsFresh crypto (logged_out raw now ∷ cs) s = DrawsFresh crypto cs (logout crypto raw now s)
DrawsFresh crypto (revoked_all user now ∷ cs) s =
    DrawsFresh crypto cs (revoke_all_user_tokens user now s)

-- Through any calls of login, refresh, logout and "log out everywhere", one after the other, in which a
-- login draws a family that no live token has, every rotation family keeps at most one live token, if
-- it had at most one before. Of calls that overlap this says nothing.
pub run-AtMostOne :
    (crypto : Crypto) (cs : List Call) (s : Sessions)
    → DrawsFresh crypto cs s
    → AtMostOne s
    → AtMostOne (run crypto cs s)
unfolding logout revoke_all_user_tokens
run-AtMostOne crypto [] s fresh h = h
run-AtMostOne crypto (logged_in username password raw family now ∷ cs) s (new, fresh) h =
    run-AtMostOne crypto cs _ fresh
      (login-AtMostOne crypto username password raw family now s new h)
run-AtMostOne crypto (refreshed presented raw now ∷ cs) s fresh h =
    run-AtMostOne crypto cs _ fresh (refresh-AtMostOne crypto presented raw now s h)
run-AtMostOne crypto (logged_out raw now ∷ cs) s fresh h = run-AtMostOne crypto cs _ fresh (
    if-ind AtMostOne (is_empty raw) h
      (revoked-AtMostOne (λ t. has_hash crypto raw t && is_live t) now s h))
run-AtMostOne crypto (revoked_all user now ∷ cs) s fresh h =
    run-AtMostOne crypto cs _ fresh
      (revoked-AtMostOne (λ t. t.user_id == user && is_live t) now s h)

live-revoke_family :
    (f : String) (now : ℕ) (ts : List RefreshToken)
    → live f (revoke_where (λ t. in_family f t && is_live t) now ts) ≡ 0
live-revoke_family f now [] = refl
live-revoke_family f now (t ∷ ts) =
    let here : one f (if in_family f t && is_live t then record t { revoked_at = some now } else t)
        ≡ 0 =
      ground arith in
    omega (arith, here, live-revoke_family f now ts)

-- A token that was revoked longer ago than the grace window and is presented again is refused, and
-- then its family has no live token.
pub refresh-theft :
    (crypto : Crypto) (presented raw : String) (now r : ℕ) (s : Sessions) (t : RefreshToken)
    → is_empty presented ≡ false
    → find? (has_hash crypto presented) s.tokens ≡ some t
    → t.revoked_at ≡ some r
    → r + refresh_reuse_grace_ms < now
    → ((refresh crypto presented raw now s).0 ≡ unauthorized)
      × (live t.family_id (refresh crypto presented raw now s).1.tokens ≡ 0)
unfolding refresh revoke_family
refresh-theft crypto presented raw now r s t given found revoked late =
    let refused : refresh crypto presented raw now s
        ≡ (unauthorized, revoke_family t.family_id now s) =
      rw given
        (rw found (rw revoked (late_reuse (newest (keep (is_head t.family_id now) s.tokens))))) in
    (
      ap (λ (x : Outcome × Sessions). x.0) refused,
      ap (λ (x : Outcome × Sessions). live t.family_id x.1.tokens) refused
          ∙ live-revoke_family t.family_id now s.tokens,
    )
  where
    late_reuse :
        (o : Option RefreshToken)
        → reused crypto t raw now r s o ≡ (unauthorized, revoke_family t.family_id now s)
    late_reuse none = refl
    late_reuse (some head) =
        if-elim (λ x. x ≡ (unauthorized, revoke_family t.family_id now s))
          (leb now (r + refresh_reuse_grace_ms)) (λ early. absurd (ground (arith, early, late)))
          (λ past. refl)
