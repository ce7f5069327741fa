-- ===== src/Kernel/Pasos.antt =====
-- The kernel as a state machine: what its threads do one after the other. A step that ends in
-- undefined behaviour has no state after it.
pub mod Invariantes
pub mod Llamadas
use so_tp_2c.Prelude.{ℕ, ◌≡◌, List}
use so_tp_2c.Prelude.Resultado.{ok}
use so_tp_2c.Commons.{CommonsApi}
use so_tp_2c.Kernel.Estado.{Alta, Kernel}
use so_tp_2c.Kernel.Hilos.Vida.{Entorno}
use so_tp_2c.Kernel.Procesos.{crear_proceso, reanudar}
use so_tp_2c.Kernel.Interpretar.{interpretar_cpu}
use so_tp_2c.Kernel.Planificador.{sigue, ronda_fifo, ronda_prioridades, atender_cmn}

-- A process is created, a call that waited goes on, a message of the CPU is interpreted, or a planner
-- goes round.
pub data Paso (C : CommonsApi) (k l : Kernel) : Type 0 where
  crea : (e : Entorno) (a : Alta) → crear_proceso C e k a ≡ ok l → Paso C k l
  reanuda : (e : Entorno) → reanudar C e k ≡ ok l → Paso C k l
  interpreta : (e : Entorno) (entrada : List ℕ) → interpretar_cpu C e k entrada ≡ ok l → Paso C k l
  planifica_fifo :
      (e : Entorno) (entrada : List ℕ) → ronda_fifo C e k entrada ≡ ok (sigue l) → Paso C k l
  planifica_prioridades :
      (e : Entorno) (entrada : List ℕ) → ronda_prioridades C e k entrada ≡ ok (sigue l) → Paso C k l
  planifica_cmn :
      (e : Entorno) (entradas : ℕ → List ℕ) → atender_cmn C e k entradas ≡ ok l → Paso C k l

-- the states that any number of steps reach
pub data Alcanza (C : CommonsApi) (k : Kernel) : Kernel → Type 0 where
  aqui : Alcanza C k k
  luego : {l m : Kernel} → Alcanza C k l → Paso C l m → Alcanza C k m
