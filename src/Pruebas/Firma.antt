-- ===== src/Pruebas/Firma.antt =====
-- JSON, base64 and a signature for the tests: claims are written as a list of numbers and read back.
use consorcioabierto.Prelude.{
  sym, any_row, ℕ, zero, suc, ◌+◌, arith, false, ◌-◌, ◌==◌, List, [], ◌∷◌, Option, some, length,
  ◌≡◌, refl, ap, ◌∙◌,
}
use consorcioabierto.Prelude.Text.{Text, text_eq, text_eq_refl}
use consorcioabierto.Identity.Tablas.{Claims, Cripto, CriptoLaws}

-- A writer in front of a rest, and a reader that gives the rest back.
pub record Codec (A : Type 0) : Type 0 where
  pub enc : A → Text → Text
  pub dec : Text → A × Text
  pub dec-enc : (a : A) (r : Text) → dec (enc a r) ≡ (a, r)

abbrev pub enc_text : Text → Text → Text
enc_text [] r = 0 ∷ r
enc_text (c ∷ s) r = suc c ∷ enc_text s r

abbrev pub dec_text : Text → Text × Text
dec_text [] = ([], [])
dec_text (zero ∷ r) = ([], r)
dec_text (suc c ∷ r) = let (s, t) = dec_text r in (c ∷ s, t)

pub dec_text-enc_text : (s r : Text) → dec_text (enc_text s r) ≡ (s, r)
dec_text-enc_text [] r = refl
dec_text-enc_text (c ∷ s) r = ap (λ (x : Text × Text). (c ∷ x.0, x.1)) (dec_text-enc_text s r)

abbrev pub un_texto : Codec Text
un_texto = record { enc = enc_text; dec = dec_text; dec-enc = dec_text-enc_text }

abbrev pub dec_num : Text → ℕ × Text
dec_num [] = (0, [])
dec_num (n ∷ r) = (n, r)

abbrev pub un_numero : Codec ℕ
un_numero = record { enc = λ n r. n ∷ r; dec = dec_num; dec-enc = λ n r. refl }

abbrev pub par : {A B : Type 0} → Codec A → Codec B → Codec (A × B)
par a b = record {
  enc = λ x r. a.enc x.0 (b.enc x.1 r);
  dec = λ t. let (x, r) = a.dec t in let (y, r') = b.dec r in ((x, y), r');
  dec-enc = λ x r.
      ap (λ p. ((p.0, (b.dec p.1).0), (b.dec p.1).1)) (a.dec-enc x.0 (b.enc x.1 r))
      ∙ ap (λ p. ((x.0, p.0), p.1)) (b.dec-enc x.1 r);
}

abbrev pub enc_list : List Text → Text → Text
enc_list [] r = r
enc_list (s ∷ ss) r = enc_text s (enc_list ss r)

abbrev pub dec_list : ℕ → Text → List Text × Text
dec_list zero r = ([], r)
dec_list (suc n) r = let (s, t) = dec_text r in let (ss, u) = dec_list n t in (s ∷ ss, u)

pub dec_list-enc_list : (ss : List Text) (r : Text) → dec_list (length ss) (enc_list ss r) ≡ (ss, r)
dec_list-enc_list [] r = refl
dec_list-enc_list (s ∷ ss) r =
    ap (λ p. (p.0 ∷ (dec_list (length ss) p.1).0, (dec_list (length ss) p.1).1))
      (dec_text-enc_text s (enc_list ss r))
    ∙ ap (λ p. (s ∷ p.0, p.1)) (dec_list-enc_list ss r)

abbrev pub dec_lista : Text → List Text × Text
dec_lista [] = ([], [])
dec_lista (n ∷ r) = dec_list n r

abbrev pub una_lista : Codec (List Text)
una_lista = record {
  enc = λ ss r. length ss ∷ enc_list ss r;
  dec = dec_lista;
  dec-enc = dec_list-enc_list;
}

abbrev pub Cuatro : Type 0
Cuatro = Text × (Text × (Text × Text))

abbrev pub cuatro_textos : Codec Cuatro
cuatro_textos = par un_texto (par un_texto (par un_texto un_texto))

abbrev pub Datos : Type 0
Datos = (ℕ × ℕ) × (List Text × (Cuatro × (Cuatro × (Text × Text))))

abbrev pub datos : Codec Datos
datos =
    par (par un_numero un_numero)
      (par una_lista (par cuatro_textos (par cuatro_textos (par un_texto un_texto))))

abbrev pub partes : Claims → Datos
partes c = (
  (c.issued_at, c.expires_at),
  (
    c.roles,
    (
      (c.issuer, (c.subject, (c.purpose, c.email))),
      ((c.name, (c.membership, (c.tenant, c.scope_type))), (c.scope_id, c.session_key)),
    ),
  ),
)

abbrev pub de_partes : Datos → Claims
de_partes
      (
        (i, e),
        (
          roles,
          (
            (issuer, (subject, (purpose, email))),
            ((name, (membership, (tenant, scope))), (id, clave)),
          ),
        ),
      ) =
    record {
      issuer = issuer;
      subject = subject;
      issued_at = i;
      expires_at = e;
      purpose = purpose;
      email = email;
      name = name;
      membership = membership;
      tenant = tenant;
      roles = roles;
      scope_type = scope;
      scope_id = id;
      session_key = clave;
    }

-- Numbers above the dot stand for base64.
abbrev pub sobre_punto : Text → Text
sobre_punto [] = []
sobre_punto (c ∷ s) = (c + 47) ∷ sobre_punto s

abbrev pub bajo_punto : Text → Text
bajo_punto [] = []
bajo_punto (c ∷ s) = (c - 47) ∷ bajo_punto s

bajo_punto-sobre_punto : (s : Text) → bajo_punto (sobre_punto s) ≡ s
bajo_punto-sobre_punto [] = refl
bajo_punto-sobre_punto (c ∷ s) =
    ap (λ d. d ∷ bajo_punto (sobre_punto s)) (bajo c) ∙ ap (λ l. c ∷ l) (bajo_punto-sobre_punto s)
  where
    bajo : (c : ℕ) → c + 47 - 47 ≡ c
    bajo c = omega arith

sobre_punto_lem : (s : Text) → any_row (λ c. c == b'.') (sobre_punto s) ≡ false
unfolding any_row
sobre_punto_lem [] = refl
sobre_punto_lem (c ∷ s) = rw (sin_punto c, sobre_punto_lem s) refl
  where
    sin_punto : (c : ℕ) → ((c + 47) == b'.') ≡ false
    sin_punto c = ground arith

some_inj : {a b : Text} → Option.some a ≡ some b → a ≡ b
some_inj h = cc

-- Random tokens and identifiers are numbers as well, a password is kept as it is, and a message
-- signs itself.
abbrev pub cripto_de_prueba : Cripto
cripto_de_prueba = record {
  compare_password = λ p h. some (text_eq p h);
  totp_validate = λ t code secret. text_eq code secret;
  random_token = λ n. (500 + n) ∷ [];
  totp_secret = λ n. (700 + n) ∷ [];
  new_uuid = λ n. 900 + n;
  json_header = [];
  marshal = λ c. datos.enc (partes c) [];
  unmarshal = λ t. some (de_partes (datos.dec t).0);
  b64url = sobre_punto;
  b64url_decode = λ s. some (bajo_punto s);
  rsa_sign = λ m. some m;
  rsa_verify = text_eq;
}

pub leyes_de_prueba : CriptoLaws cripto_de_prueba
leyes_de_prueba = record {
  unmarshal-marshal = λ c. ap (λ p. Option.some (de_partes p.0)) (datos.dec-enc (partes c) []);
  decode-b64url = λ s. ap (λ t. Option.some t) (bajo_punto-sobre_punto s);
  sin_puntos = sobre_punto_lem;
  verify-sign = λ m sig h. rw (sym (some_inj h)) (text_eq_refl m);
}
