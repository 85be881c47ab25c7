-- ===== src/Sessions.antt =====
-- backend/src/services/auth.service.ts: login, refresh tokens and their rotation. The hash of a token, the
-- comparison of passwords and the case of letters are arguments; a random token and a random family id are
-- given to the call that draws them. The accounts are those of the tenant of the request. Access tokens (JWT) are left out of the answers.
pub mod Families
pub mod Rotation
mod Tests
use text.Mathlib.Text.{◌==◌ as str_eq}
use generic_ecommerce_store.Common.{
  ℕ, suc, ◌+◌, ◌*◌, Bool, Option, none, some, List, [], ◌∷◌, ◌++◌, String, leb, ltb, ◌==◌, ◌&&◌,
  ◌||◌, not, if◌then◌else◌, true, false,
}
use generic_ecommerce_store.Common.Lists.{find?, keep}
use generic_ecommerce_store.Text.{to_chars, of_chars, trim, is_empty}
use generic_ecommerce_store.Address.{CaseMap, to_lower_case}

-- A row of `refresh_tokens`.
pub record RefreshToken : Type 0 where
  pub id : ℕ
  pub token_hash : String
  pub user_id : ℕ
  pub family_id : String
  pub created_at : ℕ
  pub expires_at : ℕ
  pub revoked_at : Option ℕ

-- A user, as far as the login reads it.
pub record Account : Type 0 where
  pub id : ℕ
  pub username : String
  pub password : String
  pub approved : Bool

pub record Sessions : Type 0 where
  pub accounts : List Account
  pub tokens : List RefreshToken
  pub next_id : ℕ

-- `hashRefreshToken`, `comparePassword` and `toLowerCase`.
pub record Crypto : Type 0 where
  pub hash_refresh_token : String → String
  pub compare_password : String → String → Bool
  pub case_map : CaseMap

pub data Outcome : Type 0 where
  unauthorized pending_approval : Outcome
  issued : (user_id : ℕ) → (refresh_token : String) → Outcome

abbrev pub refresh_token_ttl_ms : ℕ
refresh_token_ttl_ms = 7 * 24 * 60 * 60 * 1000

abbrev pub refresh_reuse_grace_ms : ℕ
refresh_reuse_grace_ms = 15 * 1000

abbrev pub is_live : RefreshToken → Bool
is_live t = elim t.revoked_at [ none ↦ true | some r ↦ false ]

abbrev pub in_family : String → RefreshToken → Bool
in_family family t = str_eq t.family_id family

-- The update of the rows that pass a test: `revokedAt` becomes now.
abbrev pub revoke_where : (RefreshToken → Bool) → ℕ → List RefreshToken → List RefreshToken
revoke_where p now [] = []
revoke_where p now (t ∷ ts) =
    (if p t then record t { revoked_at = some now } else t) ∷ revoke_where p now ts

abbrev with_tokens : Sessions → List RefreshToken → Sessions
with_tokens s ts = record s { tokens = ts }

abbrev pub new_token : Crypto → ℕ → ℕ → String → String → ℕ → RefreshToken
new_token crypto id user_id family raw now = record {
  id = id;
  token_hash = crypto.hash_refresh_token raw;
  user_id = user_id;
  family_id = family;
  created_at = now;
  expires_at = now + refresh_token_ttl_ms;
  revoked_at = none;
}

unfoldable pub issue_refresh_token : Crypto → ℕ → String → String → ℕ → Sessions → Sessions
issue_refresh_token crypto user_id family raw now s = record s {
  tokens = s.tokens ++ new_token crypto s.next_id user_id family raw now ∷ [];
  next_id = suc s.next_id;
}

unfoldable pub revoke_family : String → ℕ → Sessions → Sessions
revoke_family family now s =
    with_tokens s (revoke_where (λ t. in_family family t && is_live t) now s.tokens)

unfoldable pub revoke_all_user_tokens : ℕ → ℕ → Sessions → Sessions
revoke_all_user_tokens user_id now s =
    with_tokens s (revoke_where (λ t. t.user_id == user_id && is_live t) now s.tokens)

abbrev pub has_hash : Crypto → String → RefreshToken → Bool
has_hash crypto raw t = str_eq t.token_hash (crypto.hash_refresh_token raw)

-- A missing cookie is an empty token.
unfoldable pub logout : Crypto → String → ℕ → Sessions → Sessions
logout crypto raw now s =
    if is_empty raw
    then s
    else with_tokens s (revoke_where (λ t. has_hash crypto raw t && is_live t) now s.tokens)

abbrev pub with_username : String → Account → Bool
with_username name a = str_eq a.username name

abbrev pub with_user_id : ℕ → Account → Bool
with_user_id id a = a.id == id

-- What a login does with the account that it finds; `raw` and `family` are drawn.
abbrev pub login_to :
    Crypto → String → String → String → ℕ → Sessions → Option Account → Outcome × Sessions
login_to crypto password raw family now s none = (unauthorized, s)
login_to crypto password raw family now s (some a) =
    if not (crypto.compare_password password a.password)
    then (unauthorized, s)
    else if not a.approved
    then (pending_approval, s)
    else (issued a.id raw, issue_refresh_token crypto a.id family raw now s)

unfoldable pub login :
    Crypto → String → String → String → String → ℕ → Sessions → Outcome × Sessions
unfolding trim to_lower_case issue_refresh_token
login crypto username password raw family now s =
    let name = of_chars (to_lower_case crypto.case_map (to_chars (trim username))) in
    login_to crypto password raw family now s (find? (with_username name) s.accounts)

-- The transaction of the rotation: the token is revoked, and a new one is issued in its family.
abbrev pub rotate :
    Crypto → RefreshToken → String → ℕ → Sessions → Option Account → Outcome × Sessions
rotate crypto t raw now s none = (unauthorized, revoke_family t.family_id now s)
rotate crypto t raw now s (some a) = (
  issued a.id raw,
  issue_refresh_token crypto a.id t.family_id raw now
      (with_tokens s (revoke_where (λ u. u.id == t.id) now s.tokens)),
)

unfoldable pub rotate_and_mint : Crypto → RefreshToken → String → ℕ → Sessions → Outcome × Sessions
unfolding revoke_family issue_refresh_token
rotate_and_mint crypto t raw now s =
    rotate crypto t raw now s (find? (with_user_id t.user_id) s.accounts)

-- `orderBy: { createdAt: 'desc' }`: the last of the newest rows.
abbrev newer : RefreshToken → Option RefreshToken → RefreshToken
newer t none = t
newer t (some u) = if leb t.created_at u.created_at then u else t

abbrev pub newest : List RefreshToken → Option RefreshToken
newest [] = none
newest (t ∷ ts) = some (newer t (newest ts))

abbrev pub is_head : String → ℕ → RefreshToken → Bool
is_head family now t = in_family family t && (is_live t && ltb now t.expires_at)

-- A revoked token was presented: within the grace window the live head of its family is rotated,
-- else the family is revoked.
abbrev pub reused :
    Crypto → RefreshToken → String → ℕ → ℕ → Sessions → Option RefreshToken → Outcome × Sessions
reused crypto t raw now revoked_at s none = (unauthorized, revoke_family t.family_id now s)
reused crypto t raw now revoked_at s (some head) =
    if leb now (revoked_at + refresh_reuse_grace_ms)
    then rotate_and_mint crypto head raw now s
    else (unauthorized, revoke_family t.family_id now s)

abbrev pub refresh_found : Crypto → String → ℕ → Sessions → Option RefreshToken → Outcome × Sessions
refresh_found crypto raw now s none = (unauthorized, s)
refresh_found crypto raw now s (some t) = elim t.revoked_at [
  | some r ↦ reused crypto t raw now r s (newest (keep (is_head t.family_id now) s.tokens))
  | none ↦
      if leb t.expires_at now
      then (unauthorized, with_tokens s (revoke_where (λ u. u.id == t.id) now s.tokens))
      else rotate_and_mint crypto t raw now s
]

-- `presented` is the token of the request, `raw` the one that is drawn.
unfoldable pub refresh : Crypto → String → String → ℕ → Sessions → Outcome × Sessions
unfolding rotate_and_mint revoke_family
refresh crypto presented raw now s =
    if is_empty presented
    then (unauthorized, s)
    else refresh_found crypto raw now s (find? (has_hash crypto presented) s.tokens)
