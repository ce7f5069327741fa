-- ===== src/Kernel/Colas/Prioridad.antt =====
-- `elegir_maxima_prioridad` of kernel/src/k_corto_plazo.c, and the names of the algorithms:
-- `buscarAlgoritmo` and the switches over them in kernel/src/main.c and k_corto_plazo.c.
use so_tp_2c.Prelude.{ℕ, ◌≡◌, arith, Option, none, some, List, [], ◌∷◌, if◌then◌else◌}
use so_tp_2c.Prelude.Resultado.{Resultado, ok, exit_failure, falla, no_inicializado}
use so_tp_2c.Commons.{ColaApi}
use so_tp_2c.Comunes.Texto.{codes, texto_eq}
use so_tp_2c.Comunes.Serializar.{Tcb}
use so_tp_2c.Kernel.Colas.{comparar_prioridades, elegir_maxima_prioridad}

-- elegir_maxima_prioridad reads `elegido` before it has a value, whatever the queue and the
-- priorities: in its first comparison when the queue holds two threads or more, and by what it
-- returns when it holds fewer.
pub elegir_maxima_prioridad_falla :
    (Q : ColaApi Tcb) (cola : List Tcb) → elegir_maxima_prioridad Q cola ≡ falla no_inicializado
unfolding elegir_maxima_prioridad comparar_prioridades
elegir_maxima_prioridad_falla Q [] = ground (arith, Q.size_counts [])
elegir_maxima_prioridad_falla Q (t ∷ []) = ground (arith, Q.size_counts (t ∷ []))
elegir_maxima_prioridad_falla Q (t ∷ u ∷ ts) =
    ground (arith, Q.size_counts (t ∷ u ∷ ts), Q.pop_cons t (u ∷ ts))

pub data Algoritmo : Type 0 where
  cmn fifo prioridades colas_multinivel : Algoritmo

-- `none` is -1.
unfoldable pub buscar_algoritmo : List ℕ → Option Algoritmo
buscar_algoritmo token =
    if texto_eq token (codes "CMN")
    then some cmn
    else if texto_eq token (codes "FIFO")
    then some fifo
    else if texto_eq token (codes "PRIORIDADES")
    then some prioridades
    else if texto_eq token (codes "COLAS MULTINIVEL")
    then some colas_multinivel
    else none

-- where `agregarHiloAReady` puts a thread: the queue that FIFO and PRIORIDADES share, the one of its
-- priority, or nowhere
pub data Cola : Type 0 where
  cola_ready_fifo_prioridades colas_ready_cmn ninguna : Cola

abbrev pub cola_de_ready : Option Algoritmo → Cola
cola_de_ready (some cmn) = colas_ready_cmn
cola_de_ready (some fifo) = cola_ready_fifo_prioridades
cola_de_ready (some prioridades) = cola_ready_fifo_prioridades
cola_de_ready (some colas_multinivel) = ninguna
cola_de_ready none = ninguna

-- the queues that `planificador_corto_plazo` takes its threads from; its default exits
abbrev pub planificador_corto_plazo : Option Algoritmo → Resultado Cola
planificador_corto_plazo (some fifo) = ok cola_ready_fifo_prioridades
planificador_corto_plazo (some prioridades) = ok cola_ready_fifo_prioridades
planificador_corto_plazo (some colas_multinivel) = ok colas_ready_cmn
planificador_corto_plazo _ = exit_failure

-- No algorithm that the configuration can name both makes agregarHiloAReady fill the multilevel
-- queues and makes planificador_corto_plazo take threads from them.
pub colas_multinivel_sin_hilos :
    (token : List ℕ)
    → ¬ (
        (cola_de_ready (buscar_algoritmo token) ≡ colas_ready_cmn)
        × (planificador_corto_plazo (buscar_algoritmo token) ≡ ok colas_ready_cmn))
colas_multinivel_sin_hilos token = por_algoritmo (buscar_algoritmo token)
  where
    por_algoritmo :
        (a : Option Algoritmo)
        → ¬ (
            (cola_de_ready a ≡ colas_ready_cmn) × (planificador_corto_plazo a ≡ ok colas_ready_cmn))
    por_algoritmo (some cmn) (_, h) = ground (arith, h)
    por_algoritmo (some fifo) (h, _) = ground (arith, h)
    por_algoritmo (some prioridades) (h, _) = ground (arith, h)
    por_algoritmo (some colas_multinivel) (h, _) = ground (arith, h)
    por_algoritmo none (h, _) = ground (arith, h)
