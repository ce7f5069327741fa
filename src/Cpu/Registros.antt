-- ===== src/Cpu/Registros.antt =====
-- The registers of the CPU: `Registros` of utils/src/commons.h, and `obtenerRegistro` of
-- cpu/src/cpu.c. A register is a 32-bit word. A pointer to a register is its name; `none` is NULL.
use so_tp_2c.Prelude.{ℕ, ◌≡◌, ◌≢◌, refl, Option, none, some, List, arith, if◌then◌else◌}
use so_tp_2c.Prelude.Resultado.{Resultado, ok, falla, puntero_nulo}
use so_tp_2c.Comunes.Texto.{codes, texto_eq}
use so_tp_2c.Comunes.Texto.Palabras.{Palabra}

pub record Registros : Type 0 where
  pub pc : ℕ
  pub ax : ℕ
  pub bx : ℕ
  pub cx : ℕ
  pub dx : ℕ
  pub ex : ℕ
  pub fx : ℕ
  pub gx : ℕ
  pub hx : ℕ
  pub base : ℕ
  pub limite : ℕ

pub data Registro : Type 0 where
  pc ax bx cx dx ex fx gx hx base limite : Registro

unfoldable pub obtener_registro : List ℕ → Option Registro
obtener_registro token =
    if texto_eq token (codes "PC")
    then some pc
    else if texto_eq token (codes "AX")
    then some ax
    else if texto_eq token (codes "BX")
    then some bx
    else if texto_eq token (codes "CX")
    then some cx
    else if texto_eq token (codes "DX")
    then some dx
    else if texto_eq token (codes "EX")
    then some ex
    else if texto_eq token (codes "FX")
    then some fx
    else if texto_eq token (codes "GX")
    then some gx
    else if texto_eq token (codes "HX")
    then some hx
    else if texto_eq token (codes "BASE")
    then some base
    else if texto_eq token (codes "LIMITE")
    then some limite
    else none

-- `*reg` for a register that is there.
unfoldable pub valor_de : Registro → Registros → ℕ
valor_de pc r = r.pc
valor_de ax r = r.ax
valor_de bx r = r.bx
valor_de cx r = r.cx
valor_de dx r = r.dx
valor_de ex r = r.ex
valor_de fx r = r.fx
valor_de gx r = r.gx
valor_de hx r = r.hx
valor_de base r = r.base
valor_de limite r = r.limite

-- `*reg = v`
unfoldable pub guardar : Registro → ℕ → Registros → Registros
guardar pc v r = record r { pc = v }
guardar ax v r = record r { ax = v }
guardar bx v r = record r { bx = v }
guardar cx v r = record r { cx = v }
guardar dx v r = record r { dx = v }
guardar ex v r = record r { ex = v }
guardar fx v r = record r { fx = v }
guardar gx v r = record r { gx = v }
guardar hx v r = record r { hx = v }
guardar base v r = record r { base = v }
guardar limite v r = record r { limite = v }

-- A read or write through a pointer that may be NULL.
abbrev pub leer : Option Registro → Registros → Resultado ℕ
leer none r = falla puntero_nulo
leer (some x) r = ok (valor_de x r)

abbrev pub escribir : Option Registro → ℕ → Registros → Resultado Registros
escribir none v r = falla puntero_nulo
escribir (some x) v r = ok (guardar x v r)

pub valor_de-guardar_same : (x : Registro) (v : ℕ) (r : Registros) → valor_de x (guardar x v r) ≡ v
unfolding valor_de guardar
valor_de-guardar_same pc v r = refl
valor_de-guardar_same _ v r = refl

pub valor_de-guardar_other :
    (x y : Registro) (v : ℕ) (r : Registros) → x ≢ y → valor_de y (guardar x v r) ≡ valor_de y r
unfolding valor_de guardar
valor_de-guardar_other pc pc v r ne = absurd (ne refl)
valor_de-guardar_other ax ax v r ne = absurd (ne refl)
valor_de-guardar_other bx bx v r ne = absurd (ne refl)
valor_de-guardar_other cx cx v r ne = absurd (ne refl)
valor_de-guardar_other dx dx v r ne = absurd (ne refl)
valor_de-guardar_other ex ex v r ne = absurd (ne refl)
valor_de-guardar_other fx fx v r ne = absurd (ne refl)
valor_de-guardar_other gx gx v r ne = absurd (ne refl)
valor_de-guardar_other hx hx v r ne = absurd (ne refl)
valor_de-guardar_other base base v r ne = absurd (ne refl)
valor_de-guardar_other limite limite v r ne = absurd (ne refl)
valor_de-guardar_other _ _ v r ne = refl

-- The name of a register in a program.
pub nombre_registro : Registro → List ℕ
nombre_registro pc = codes "PC"
nombre_registro ax = codes "AX"
nombre_registro bx = codes "BX"
nombre_registro cx = codes "CX"
nombre_registro dx = codes "DX"
nombre_registro ex = codes "EX"
nombre_registro fx = codes "FX"
nombre_registro gx = codes "GX"
nombre_registro hx = codes "HX"
nombre_registro base = codes "BASE"
nombre_registro limite = codes "LIMITE"

pub obtener_registro-nombre : (x : Registro) → obtener_registro (nombre_registro x) ≡ some x
unfolding obtener_registro nombre_registro texto_eq
obtener_registro-nombre pc = refl
obtener_registro-nombre _ = refl

pub nombre_registro-Palabra : (x : Registro) → Palabra (nombre_registro x)
unfolding nombre_registro
nombre_registro-Palabra pc = (λ e. cc, omega arith)
nombre_registro-Palabra _ = (λ e. cc, omega arith)
