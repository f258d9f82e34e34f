-- ===== src/Identity/Cache.antt =====
-- internal/identity/permissions_cache.go: roles and scopes of memberships, kept for a while.
pub mod Vigencia
use consorcioabierto.Prelude.{ℕ, Option, none, some, List, ◌++◌, [], ◌∷◌, if◌then◌else◌}
use consorcioabierto.Prelude.Int.{ℤ, pos, ◌+ℤ◌, leb_ℤ, ltb_ℤ}
use consorcioabierto.Prelude.Text.{Text, codes, text_eq}

pub record MembershipEntry : Type 0 where
  pub roles : List Text
  pub scopes : List Text
  pub expiry : ℤ

-- The map from keys to entries, as a function. The time to live may be negative.
pub record MembershipCache : Type 0 where
  pub ttl : ℤ
  pub items : Text → Option MembershipEntry

unfoldable pub new_membership_cache : ℤ → MembershipCache
new_membership_cache ttl = record { ttl = ttl; items = λ key. none }

unfoldable pub membership_cache_key : Text → Text → Text
membership_cache_key user_id membership_id = user_id ++ codes ":" ++ membership_id

-- An entry while it has not expired.
vigente : ℕ → Option MembershipEntry → Option (List Text × List Text)
vigente now none = none
vigente now (some e) = if ltb_ℤ (pos now) e.expiry then some (e.roles, e.scopes) else none

-- `now` is the clock at the call.
unfoldable pub get : ℕ → Text → MembershipCache → Option (List Text × List Text)
unfolding vigente
get now key c = if leb_ℤ c.ttl (pos 0) then none else vigente now (c.items key)

unfoldable pub set : ℕ → Text → List Text → List Text → MembershipCache → MembershipCache
unfolding text_eq
set now key roles scopes c =
    if leb_ℤ c.ttl (pos 0)
    then c
    else (let entry : MembershipEntry = record {
      roles = roles;
      scopes = scopes;
      expiry = pos now +ℤ c.ttl;
    } in
        record c { items = λ k. if text_eq k key then some entry else c.items k })
