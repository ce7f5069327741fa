-- ===== src/Pruebas/Colas.antt =====
-- The kernel's queues: the theorems at three threads and three processes.
use so_tp_2c.Prelude.{ℕ, ◌≡◌, refl, some, List, [], ◌∷◌}
use so_tp_2c.Commons.{ColaApi, cola_api}
use so_tp_2c.Comunes.Serializar.{Tcb}
use so_tp_2c.Comunes.Serializar.Pcb.{Pcb}
use so_tp_2c.Kernel.Colas.{quitar_tcb_de_cola}
use so_tp_2c.Kernel.Colas.Leyes.{primer_hilo, sin_primer_hilo, quitar_tcb_de_cola_lem}

abbrev Q : ColaApi Tcb
Q = cola_api Tcb

abbrev tcb : ℕ → ℕ → Tcb
tcb pid tid = record { pid = pid; tid = tid; prioridad = tid; estado = 1 }

abbrev cola : List Tcb
cola = tcb 1 0 ∷ tcb 1 1 ∷ tcb 2 0 ∷ tcb 1 1 ∷ []

quita_el_primero : sin_primer_hilo 1 1 cola ≡ tcb 1 0 ∷ tcb 2 0 ∷ tcb 1 1 ∷ []
quita_el_primero = refl

quitar_tcb_de_cola_lem_example :
    quitar_tcb_de_cola Q cola 1 1 ≡ some (primer_hilo 1 1 cola, sin_primer_hilo 1 1 cola)
quitar_tcb_de_cola_lem_example = quitar_tcb_de_cola_lem Q cola 1 1

abbrev pcb : ℕ → Pcb
pcb pid = record { pid = pid; estado = 0; tids = 0 ∷ []; mutex = [] }
