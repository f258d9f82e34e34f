-- ===== src/Identity/Jwt.antt =====
-- internal/identity/jwt.go: the layout of a token, and its signature.
use consorcioabierto.Prelude.{
  Bool, Option, none, some, List, [], ◌∷◌, ◌++◌, not, ◌==◌, if◌then◌else◌,
}
use consorcioabierto.Prelude.Text.{Text, codes}
use consorcioabierto.Action.{Result, ok, err, firma_fallida}
use consorcioabierto.Identity.Tablas.{Claims, Cripto}
pub mod Lectura

-- `strings.Split(s, ".")`
unfoldable pub anteponer : Text → List Text → List Text
anteponer c [] = c ∷ []
anteponer c (p ∷ ps) = (c ++ p) ∷ ps

unfoldable pub split_dots : Text → List Text
unfolding anteponer
split_dots [] = [] ∷ []
split_dots (c ∷ s) =
    let rest = split_dots s in if c == b'.' then [] ∷ rest else anteponer (c ∷ []) rest

module _ (k : Cripto) where
  unfoldable pub unsigned : Claims → Text
  unsigned c = k.b64url k.json_header ++ codes "." ++ k.b64url (k.marshal c)

  unfoldable pub sign_jwt : Claims → Result Text
  unfolding unsigned
  sign_jwt c = elim (k.rsa_sign (unsigned c)) [
    | none ↦ err firma_fallida
    | some sig ↦ ok (unsigned c ++ codes "." ++ k.b64url sig)
  ]

  -- The claims of a payload whose signature holds.
  unfoldable pub firmadas : Text → Text → Text → Option Claims
  firmadas header payload sig =
      if not (k.rsa_verify (header ++ codes "." ++ payload) sig)
      then none
      else elim (k.b64url_decode payload) [ none ↦ none | some json ↦ k.unmarshal json ]

  unfoldable pub de_partes : List Text → Option Claims
  unfolding firmadas
  de_partes (header ∷ payload ∷ firma ∷ []) = elim (k.b64url_decode firma) [
    | none ↦ none
    | some sig ↦ firmadas header payload sig
  ]
  de_partes _ = none

  -- The first part of `parseAndVerifyJWT`: every way to fail is a token that is refused.
  unfoldable pub verificar : Text → Option Claims
  unfolding split_dots de_partes
  verificar token = de_partes (split_dots token)
