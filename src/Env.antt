-- ===== src/Env.antt =====
-- What the program takes from outside the repository: the identifiers and dates of pgx and
-- google/uuid, the hash, the identifiers that the database generates, and float64.
use consorcioabierto.Prelude.{ℕ, Bool, true, false, Option, some, ◌≡◌, ◌⊎◌}
use consorcioabierto.Prelude.Int.{ℤ}
use consorcioabierto.Prelude.Text.{Text}
use consorcioabierto.Prelude.Dates.{Date, format_date, IsDate}

-- The 128 bits of an identifier.
abbrev pub Uuid : Type 0
Uuid = ℕ

pub record Env : Type 0 where
  -- `pgtype.UUID.Scan` of a string, and `UUID.String`
  pub scan_uuid : Text → Option Uuid
  pub uuid_string : Uuid → Text
  -- `uuid.Parse` of github.com/google/uuid
  pub parse_uuid : Text → Option Uuid
  -- `pgtype.Date.Scan` of a string
  pub scan_date : Text → Option Date
  -- the SHA-256 sum in hexadecimal
  pub sha256_hex : Text → Text
  -- what the n-th call of `gen_random_uuid()` returns
  pub gen_random_uuid : ℕ → Uuid

-- An identifier that is printed scans back.
abbrev pub UuidRoundTrip : Env → Type 0
UuidRoundTrip env = (u : Uuid) → env.scan_uuid (env.uuid_string u) ≡ some u

-- `uuid.Parse` of google/uuid reads what pgx prints, and reads a text that pgx reads too as the same.
abbrev pub ParseRoundTrip : Env → Type 0
ParseRoundTrip env = (u : Uuid) → env.parse_uuid (env.uuid_string u) ≡ some u

abbrev pub ParsersAgree : Env → Type 0
ParsersAgree env =
    (s : Text) (a b : Uuid) → env.scan_uuid s ≡ some a → env.parse_uuid s ≡ some b → a ≡ b

-- A date that is printed scans back.
abbrev pub DateRoundTrip : Env → Type 0
DateRoundTrip env = (d : Date) → IsDate d → env.scan_date (format_date d) ≡ some d

-- float64 with the operations that the distribution uses. `numeric_float` is
-- `pgtype.Numeric.Float64Value` of a NUMERIC(12,8), given in units of 10 ^ -8, and `float_numeric`
-- the way back through `strconv.FormatFloat` and `Numeric.Scan`.
pub record Floats : Type 1 where
  pub Float : Type 0
  pub zero : Float
  pub add : Float → Float → Float
  pub mul : Float → Float → Float
  pub div : Float → Float → Float
  pub lt : Float → Float → Bool
  pub le : Float → Float → Bool
  pub eq : Float → Float → Bool
  -- `float64(n)`, and `int64(math.Round(x))`
  pub from_int64 : ℤ → Float
  pub round_int64 : Float → ℤ
  pub numeric_float : ℕ → Float
  pub float_numeric : Float → ℕ

-- The facts of IEEE 754 that the distribution relies on: a sum of numbers that are not positive is
-- not positive, and `<`, `<=` and `==` agree at zero.
pub record FloatLaws (f : Floats) : Type 0 where
  pub zero-le : f.le f.zero f.zero ≡ true
  pub add-le :
      (x y : f.Float) → f.le x f.zero ≡ true → f.le y f.zero ≡ true → f.le (f.add x y) f.zero ≡ true
  pub pos-eq : (x : f.Float) → f.lt f.zero x ≡ true → f.eq x f.zero ≡ false
  pub eq-le : (x : f.Float) → f.eq x f.zero ≡ true → f.le x f.zero ≡ true

-- A float that is a number, not a NaN: it is positive or at most zero.
abbrev pub IsNumber : (f : Floats) → f.Float → Type 0
IsNumber f x = (f.lt f.zero x ≡ true) ⊎ (f.le x f.zero ≡ true)
