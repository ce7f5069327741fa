-- ===== src/Memoria/Procesos/Fallas.antt =====
-- Where the process operations of memoria/src fail, or do nothing.
use so_tp_2c.Prelude.{
  ℕ, ◌+◌, ◌*◌, ◌^◌, ◌≤◌, ◌<◌, ◌≡◌, ◌≢◌, ap, Bool, false, none, some, List, arith,
}
use so_tp_2c.Prelude.Resultado.{ok, falla, puntero_nulo}
use so_tp_2c.Commons.{ListaApi, DictApi}
use so_tp_2c.Comunes.Texto.Decimal.{snprintf_8-itoa, snprintf_8-trunca}
use so_tp_2c.Memoria.Pseudocodigo.{Archivos}
use so_tp_2c.Memoria.Particiones.{Particion}
use so_tp_2c.Memoria.Procesos.{
  Hilo, Proceso, Estado, get_proceso, crear_proceso, crear_hilo, finalizar_proceso, finalizar_hilo,
}

module _ (H : DictApi Hilo) (P : DictApi (Proceso H.Dict)) (L : ListaApi Particion)
    (archivos : Archivos) where
  -- Neither with memory for the record nor without it does `crear_proceso` create a process: it
  -- returns false and leaves every process, partition and thread as it was, since
  -- `asignar_memoria` finds no base.
  pub crear_proceso_nunca :
      (hay_memoria : Bool) (m : Estado P.Dict) (pid tam_proceso : ℕ) (archivo : List ℕ)
      → crear_proceso H P L archivos hay_memoria m pid archivo tam_proceso ≡ (false, m)
  unfolding crear_proceso
  crear_proceso_nunca hay m pid t archivo = ground arith

  -- For a process that is not kept, ending it and creating a thread in it report failure and change
  -- nothing, but ending a thread of it reads through NULL. Identifiers have up to seven digits.
  pub sin_proceso_fallas :
      (m : Estado P.Dict) (pid tid prioridad : ℕ) (archivo : List ℕ)
      → pid < 10 ^ 7
      → get_proceso H P L archivos m pid ≡ none
      → (finalizar_proceso H P L archivos m pid ≡ ok (false, m))
        × (crear_hilo H P L archivos m pid tid archivo prioridad ≡ (false, m))
        × (finalizar_hilo H P L archivos m pid tid ≡ falla puntero_nulo)
  unfolding finalizar_proceso crear_hilo finalizar_hilo get_proceso
  sin_proceso_fallas m pid tid prioridad archivo k e =
      (ground (arith, e), ground (arith, e, snprintf_8-itoa pid k), ground (arith, e))

  -- Ending a process that is kept never returns, unless its base is the start of user memory:
  -- the base of any other partition is no block that `free` may release.
  pub finalizar_proceso_falla :
      (m : Estado P.Dict) (pid : ℕ) (p : Proceso H.Dict) (r : Bool × Estado P.Dict)
      → get_proceso H P L archivos m pid ≡ some p
      → p.base ≢ 0
      → finalizar_proceso H P L archivos m pid ≢ ok r
  unfolding finalizar_proceso get_proceso
  finalizar_proceso_falla m pid p r e ne h = ground (arith, e)

  -- A process identifier of eight digits finds the process whose identifier is its first seven.
  pub get_proceso_trunca :
      (m : Estado P.Dict) (pid d : ℕ)
      → 10 ^ 6 ≤ pid
      → pid < 10 ^ 7
      → d < 10
      → get_proceso H P L archivos m (10 * pid + d) ≡ get_proceso H P L archivos m pid
  unfolding get_proceso
  get_proceso_trunca m pid d lo hi hd =
      ap (P.dictionary_get m.procesos) (snprintf_8-trunca pid d lo hi hd)
