-- ===== src/Identity/Jwt/Lectura.antt =====
-- About internal/identity/jwt.go: reading what was signed.
use consorcioabierto.Prelude.{
  false, Option, none, some, [], ◌∷◌, ◌++◌, ◌≡◌, refl, sym, ap, ◌∙◌, ◌==◌, any_row, inl, inr,
  Bool-cases,
}
use consorcioabierto.Prelude.Text.{Text, codes}
use consorcioabierto.Action.{ok, ok_inj, firma_fallida, err}
use consorcioabierto.Identity.Tablas.{Claims, Cripto, CriptoLaws}
use consorcioabierto.Identity.Jwt.{
  anteponer, split_dots, unsigned, sign_jwt, firmadas, de_partes, verificar,
}

append_assoc : (xs ys zs : Text) → (xs ++ ys) ++ zs ≡ xs ++ (ys ++ zs)
append_assoc [] ys zs = refl
append_assoc (x ∷ xs) ys zs = ap (λ l. x ∷ l) (append_assoc xs ys zs)

-- A part ends at the first dot after it.
split-dot :
    (a s : Text)
    → any_row (λ c. c == b'.') a ≡ false
    → split_dots (a ++ (b'.' ∷ s)) ≡ a ∷ split_dots s
unfolding any_row split_dots anteponer
split-dot [] s h = refl
split-dot (c ∷ a) s h = elim (Bool-cases (c == b'.')) [
  | inl punto ↦ cc (rw punto at h)
  | inr otro ↦ rw (otro, split-dot a s (rw otro at h)) refl
]

split-last : (a : Text) → any_row (λ c. c == b'.') a ≡ false → split_dots a ≡ a ∷ []
unfolding any_row split_dots anteponer
split-last [] h = refl
split-last (c ∷ a) h = elim (Bool-cases (c == b'.')) [
  | inl punto ↦ cc (rw punto at h)
  | inr otro ↦ rw (otro, split-last a (rw otro at h)) refl
]

module _ (k : Cripto) (laws : CriptoLaws k) where
  split-firmado :
      (c : Claims) (sig : Text)
      → split_dots (unsigned k c ++ codes "." ++ k.b64url sig)
        ≡ k.b64url k.json_header ∷ k.b64url (k.marshal c) ∷ k.b64url sig ∷ []
  unfolding unsigned
  split-firmado c sig =
      let h = k.b64url k.json_header in
      let p = k.b64url (k.marshal c) in
      let f = k.b64url sig in
      ap split_dots (
        append_assoc (h ++ codes "." ++ p) (codes ".") f
        ∙ (append_assoc (h ++ codes ".") p (b'.' ∷ f)
            ∙ append_assoc h (codes ".") (p ++ (b'.' ∷ f))))
      ∙ (split-dot h (p ++ (b'.' ∷ f)) (laws.sin_puntos k.json_header)
          ∙ ap (λ l. h ∷ l)
              (split-dot p f (laws.sin_puntos (k.marshal c))
                ∙ ap (λ l. p ∷ l) (split-last f (laws.sin_puntos sig))))

  verificar-firmado :
      (c : Claims) (sig : Text)
      → k.rsa_sign (unsigned k c) ≡ some sig
      → verificar k (unsigned k c ++ codes "." ++ k.b64url sig) ≡ some c
  unfolding verificar de_partes firmadas unsigned
  verificar-firmado c sig firma =
      let h = k.b64url k.json_header in
      let p = k.b64url (k.marshal c) in
      ap (de_partes k) (split-firmado c sig)
      ∙ (ap (λ o. elim o [ none ↦ none | some s ↦ firmadas k h p s ]) (laws.decode-b64url sig)
          ∙ rw (laws.verify-sign (h ++ codes "." ++ p) sig firma) (
              ap (λ o. elim o [ none ↦ none | some json ↦ k.unmarshal json ])
                (laws.decode-b64url (k.marshal c))
              ∙ laws.unmarshal-marshal c))

  -- Where the signature is made, the token verifies and gives back the claims.
  pub verificar-sign_jwt :
      (c : Claims) (token : Text) → sign_jwt k c ≡ ok token → verificar k token ≡ some c
  unfolding sign_jwt
  verificar-sign_jwt c token h = go (k.rsa_sign (unsigned k c)) refl h
    where
      go :
          (o : Option Text)
          → k.rsa_sign (unsigned k c) ≡ o
          → (elim o [
            | none ↦ err firma_fallida
            | some sig ↦ ok (unsigned k c ++ codes "." ++ k.b64url sig)
          ])
            ≡ ok token
          → verificar k token ≡ some c
      go none e h = cc
      go (some sig) e h = ap (verificar k) (sym (ok_inj h)) ∙ verificar-firmado c sig e
