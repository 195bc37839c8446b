-- ===== src/Prelude/Errors.antt =====
-- Results, and actions on a session: a raise leaves in the session what was written before it, and
-- the request's transaction decides what becomes of that.
use Prim.Native.Nat.{ℕ}
use Prim.Native.String.{String}
use mathlib.Core.Bool.{Bool, true, false}
use mathlib.Core.Option.{Option, none, some}
use mathlib.Core.List.{List}

-- A formatted message: literal text and printed identifiers or numbers.
pub data Piece : Type 0 where
  lit : String → Piece
  uid : ℕ → Piece

abbrev pub Message : Type 0
Message = List Piece

-- HTTPException with its status code, and the interpreter's own exceptions.
pub data Error : Type 0 where
  http : ℕ → Message → Error
  value_error : Error
  key_error : Error
  attribute_error : Error
  runtime_error : Message → Error
  -- The fuel of a modelled loop ran out.
  out_of_fuel : Error

pub data Result {ℓ} (A : Type ℓ) : Type ℓ where
  ok : A → Result A
  err : Error → Result A

abbrev pub Exec {ℓ} : Type ℓ → Type ℓ → Type ℓ
Exec S A = S → Result A × S

module _ {ℓ} {S A : Type ℓ} where
  abbrev pub pure : A → Exec S A
  pure a s = (ok a, s)

  abbrev pub raise : Error → Exec S A
  raise e s = (err e, s)

  abbrev pub lift : Result A → Exec S A
  lift r s = (r, s)

  -- A read that may raise.
  abbrev pub read : (S → Result A) → Exec S A
  read f s = (f s, s)

  abbrev pub gets : (S → A) → Exec S A
  gets f s = (ok (f s), s)

-- `if row is None: raise e`
abbrev pub or_error {ℓ} : {A : Type ℓ} → Error → Option A → Result A
or_error e none = err e
or_error e (some a) = ok a

-- `if not b: raise e`
abbrev pub guard {ℓ} : {S : Type ℓ} → Bool → Error → Exec S Unit
guard true e s = (ok tt, s)
guard false e s = (err e, s)

abbrev pub modify {ℓ} : {S : Type ℓ} → (S → S) → Exec S Unit
modify f s = (ok tt, f s)

module _ {ℓ} {S A B : Type ℓ} where
  abbrev pub and_then : (A → Exec S B) → Result A × S → Result B × S
  and_then f (ok a, s) = f a s
  and_then f (err e, s) = (err e, s)

  infixl 10 ◌>>=◌ ◌>>◌
  abbrev pub ◌>>=◌ : Exec S A → (A → Exec S B) → Exec S B
  ◌>>=◌ m f s = and_then f (m s)

  abbrev pub ◌>>◌ : Exec S A → Exec S B → Exec S B
  m >> n = m >>= λ _. n
