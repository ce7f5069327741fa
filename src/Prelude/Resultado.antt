-- ===== src/Prelude/Resultado.antt =====
-- What a C function can do besides returning: `exit(EXIT_FAILURE)`, or undefined behaviour.

use mathlib.Core.Path.{◌≡◌, refl}
use mathlib.Core.Logic.{◌⊎◌, inl, inr}

-- The undefined behaviours that the code can run into.
pub data Falla : Type 0 where
  -- a read or write through NULL
  puntero_nulo : Falla
  -- a read or write through a pointer that was freed
  uso_tras_free : Falla
  -- `free` of an address that `malloc` did not return
  free_invalido : Falla
  -- a read or write past the end of a block
  fuera_de_bloque : Falla
  -- a read of a variable that was never given a value
  no_inicializado : Falla
  -- a structure of one type read as one of another
  tipo_erroneo : Falla
  -- not behaviour of the code: the fuel of a loop was used up before its end
  sin_fin : Falla

pub data Resultado {ℓ} (A : Type ℓ) : Type ℓ where
  ok : A → Resultado A
  exit_failure : Resultado A
  falla : Falla → Resultado A

infixl 5 ◌>>=◌ ◌>>◌
abbrev pub ◌>>=◌ {ℓ κ} : {A : Type ℓ} {B : Type κ} → Resultado A → (A → Resultado B) → Resultado B
ok a >>= f = f a
exit_failure >>= f = exit_failure
falla x >>= f = falla x

abbrev pub ◌>>◌ {ℓ} : {B : Type ℓ} → Resultado (Unit {0}) → Resultado B → Resultado B
m >> k = m >>= λ _. k

-- To split on a computed result and keep the equation.
pub Resultado-cases {ℓ} :
    {A : Type ℓ} (m : Resultado A)
    → ((a : A) × (m ≡ ok a)) ⊎ ((m ≡ exit_failure) ⊎ ((x : Falla) × (m ≡ falla x)))
Resultado-cases (ok a) = inl (a, refl)
Resultado-cases exit_failure = inr (inl refl)
Resultado-cases (falla x) = inr (inr (x, refl))
