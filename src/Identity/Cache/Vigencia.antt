-- ===== src/Identity/Cache/Vigencia.antt =====
-- The cache against its specification: the last roles set for a key, for `ttl` and no longer.
use consorcioabierto.Prelude.{
  ℕ, false, Option, none, some, List, [], ◌∷◌, ◌≡◌, refl, inl, inr, Bool-cases, if◌then◌else◌,
}
use consorcioabierto.Prelude.Int.{ℤ, pos, ◌+ℤ◌, leb_ℤ, ltb_ℤ}
use consorcioabierto.Prelude.Text.{Text, text_eq}
use consorcioabierto.Identity.Cache.{MembershipCache, new_membership_cache, vigente, get, set}

-- One call of `set`, with the time it was made at.
pub record Escritura : Type 0 where
  pub cuando : ℕ
  pub key : Text
  pub roles : List Text
  pub scopes : List Text

-- The cache after some calls, the last one first.
pub tras_escrituras : ℤ → List Escritura → MembershipCache
tras_escrituras ttl [] = new_membership_cache ttl
tras_escrituras ttl (e ∷ es) = set e.cuando e.key e.roles e.scopes (tras_escrituras ttl es)

-- The specification: the last call for the key.
pub ultima : Text → List Escritura → Option Escritura
ultima key [] = none
ultima key (e ∷ es) = if text_eq key e.key then some e else ultima key es

-- What it gives at a time, if it is not too old.
pub reciente : ℤ → ℕ → Option Escritura → Option (List Text × List Text)
reciente ttl now none = none
reciente ttl now (some e) =
    if ltb_ℤ (pos now) (pos e.cuando +ℤ ttl) then some (e.roles, e.scopes) else none

ttl-tras : (ttl : ℤ) (es : List Escritura) → (tras_escrituras ttl es).ttl ≡ ttl
unfolding tras_escrituras new_membership_cache set
ttl-tras ttl [] = refl
ttl-tras ttl (e ∷ es) = elim (Bool-cases (leb_ℤ (tras_escrituras ttl es).ttl (pos 0))) [
  | inl apagado ↦ rw apagado (ttl-tras ttl es)
  | inr prendido ↦ rw prendido (ttl-tras ttl es)
]

-- What the map holds for a key, where the cache is on.
items-tras :
    (ttl : ℤ) (es : List Escritura) (now : ℕ) (key : Text)
    → leb_ℤ ttl (pos 0) ≡ false
    → vigente now ((tras_escrituras ttl es).items key) ≡ reciente ttl now (ultima key es)
unfolding tras_escrituras new_membership_cache set vigente reciente ultima
items-tras ttl [] now key on = refl
items-tras ttl (e ∷ es) now key on = elim (Bool-cases (text_eq key e.key)) [
  | inl propia ↦ rw (ttl-tras ttl es, on, propia) refl
  | inr ajena ↦ rw (ttl-tras ttl es, on, ajena) (items-tras ttl es now key on)
]

-- After any calls of `set`, at any times and in any order, `get` answers as the specification: the
-- roles and scopes of the last call for the key, where less than `ttl` has passed since. With a
-- `ttl` of 0 or less it always misses.
pub get-reciente :
    (ttl : ℤ) (es : List Escritura) (now : ℕ) (key : Text)
    → get now key (tras_escrituras ttl es)
      ≡ (if leb_ℤ ttl (pos 0) then none else reciente ttl now (ultima key es))
unfolding get
get-reciente ttl es now key = elim (Bool-cases (leb_ℤ ttl (pos 0))) [
  | inl apagado ↦ rw (ttl-tras ttl es, apagado) refl
  | inr prendido ↦ rw (ttl-tras ttl es, prendido) (items-tras ttl es now key prendido)
]
