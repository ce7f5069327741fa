-- ===== src/Pruebas/Nucleo/Rondas.antt =====
-- The short-term planner: the theorems at concrete inputs.
use so_tp_2c.Prelude.{ℕ, ◌≡◌, refl, some, List, []}
use so_tp_2c.Prelude.Resultado.{ok, falla, no_inicializado}
use so_tp_2c.Comunes.Serializar.{Tcb}
use so_tp_2c.Kernel.Estado.{Puntero, Kernel}
use so_tp_2c.Kernel.Planificador.{sigue, detenida, ronda_fifo, ronda_prioridades}
use so_tp_2c.Kernel.Planificador.Rondas.{ronda_fifo-detenida, rondas-vivo}
use so_tp_2c.Pruebas.Nucleo.{C, e, tcb, hilos, k}

rondas-vivo_example :
    (ronda_fifo C e k [] ≡ falla no_inicializado)
    × (ronda_prioridades C e k [] ≡ falla no_inicializado)
rondas-vivo_example = rondas-vivo C e k [] 0 tcb [] refl refl refl refl refl

abbrev k_ocioso : Kernel
k_ocioso = record k { hilos = record hilos { cola_ready_fifo_prioridades = some [] } }

ronda_fifo-detenida_example :
    (l : Kernel) × (ronda_fifo C e k_ocioso [] ≡ ok (sigue l))
    × ((ready : List Puntero) (entrada' : List ℕ)
        → ronda_fifo C e
            (record l { hilos = record l.hilos { cola_ready_fifo_prioridades = some ready } })
            entrada'
          ≡ ok detenida)
ronda_fifo-detenida_example = ronda_fifo-detenida C e k_ocioso [] refl refl refl

abbrev otro : Tcb
otro = record tcb { tid = 1 }
