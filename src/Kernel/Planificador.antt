-- ===== src/Kernel/Planificador.antt =====
-- The short-term planner: `atender_fifo`, `atender_prioridades`, `atender_cmn`, `ejecutar_hilo` and
-- `queue_remove` of kernel/src/k_corto_plazo.c, and `enviarTCBCPU` of kernel/src/main.c. One round of
-- a loop `while (1)` is a function. `entrada` is what comes from the CPU.
pub mod Despacho
pub mod Quitar
pub mod Rondas
use so_tp_2c.Prelude.{
  ℕ, zero, suc, ◌+◌, ◌==◌, ◌&&◌, ◌||◌, Bool, true, false, Option, none, some, List, [], ◌∷◌, ◌++◌,
  ltb, if◌then◌else◌,
}
use so_tp_2c.Prelude.Resultado.{Resultado, ok, falla, puntero_nulo, no_inicializado, sin_fin, ◌>>=◌}
use so_tp_2c.Commons.{CommonsApi}
use so_tp_2c.Comunes.Serializar.{Tcb, serializar_tcb}
use so_tp_2c.Comunes.Red.{enviar_operacion}
use so_tp_2c.Kernel.Estado.{
  Puntero, Heap, cargar, guardar_en, liberar, creada, aplanar, Hilos, Kernel, estado_exec,
  estado_ready, estado_blocked, max_niveles_prioridad,
}
use so_tp_2c.Kernel.Hilos.{push, no_es_nulo, agregar_a_lista, insertar_en_cola_ready_cmn}
use so_tp_2c.Kernel.Hilos.Buscar.{reponer}
use so_tp_2c.Kernel.Hilos.Vida.{Entorno, get_next_thread}
use so_tp_2c.Kernel.Interpretar.{interpretar_cpu}

-- How a round ends: the loop goes on, or the planner waits for a mutex that it holds itself.
pub data Ronda : Type 0 where
  sigue : Kernel → Ronda
  detenida : Ronda

module _ (C : CommonsApi) where
  module _ (e : Entorno) where
    -- what goes to the CPU
    unfoldable pub enviar_tcb_cpu : Heap Tcb → Puntero → Resultado (List ℕ)
    unfolding cargar serializar_tcb enviar_operacion
    enviar_tcb_cpu m p = do t ← cargar m p; b ← serializar_tcb (e.malloc 16) t; enviar_operacion 1 b

    unfoldable pub ejecutar_hilo : Kernel → Puntero → List ℕ → Resultado Kernel
    unfolding creada cargar guardar_en enviar_tcb_cpu interpretar_cpu
    ejecutar_hilo k none entrada = ok k
    ejecutar_hilo k (some i) entrada =
        let h = k.hilos in
        do
          exec ← creada h.lista_exec_hilo
          t ← cargar h.tcbs (some i)
          m ← guardar_en h.tcbs (some i) (record t { estado = estado_exec })
          _ ← enviar_tcb_cpu m (some i)
          interpretar_cpu C e
              (record k {
                hilos = record h {
                  tcbs = m;
                  lista_exec_hilo = some (agregar_a_lista C exec (some i));
                };
              })
              entrada

    -- The queue READY, when its mutex has been taken. The mutex is released only when a thread was
    -- found; the log line reads the thread.
    unfoldable pub despachar_fifo : Kernel → List ℕ → Resultado Kernel
    unfolding creada cargar ejecutar_hilo
    despachar_fifo k entrada =
        let h = k.hilos in
        do
          cola ← creada h.cola_ready_fifo_prioridades
          elim ((C.cola Puntero).queue_is_empty cola) [
            | true ↦ ok (record k { hilos = record h { tomado = true } })
            | false ↦
                let p = aplanar ((C.cola Puntero).queue_peek cola) in
                let cola' = ((C.cola Puntero).queue_pop cola).1 in
                do
                  _ ← cargar h.tcbs p
                  ejecutar_hilo
                      (record k { hilos = record h { cola_ready_fifo_prioridades = some cola' } }) p
                      entrada
          ]

    -- one round of `atender_fifo`
    unfoldable pub ronda_fifo : Kernel → List ℕ → Resultado Ronda
    unfolding creada despachar_fifo
    ronda_fifo k entrada = do
      exec ← creada k.hilos.lista_exec_hilo
      elim ((C.lista Puntero).list_is_empty exec) [
        | false ↦ ok (sigue k)
        | true ↦ elim k.hilos.tomado [
          | true ↦ ok detenida
          | false ↦ do k' ← despachar_fifo k entrada; ok (sigue k')
        ]
      ]

    -- the loop of `elegir_maxima_prioridad` on pointers; `none` is the variable never set
    unfoldable pub comparar_punteros :
        Heap Tcb → ℕ → Option Puntero → List Puntero → Resultado (Option Puntero × List Puntero)
    unfolding cargar
    comparar_punteros m zero elegido cola = ok (elegido, cola)
    comparar_punteros m (suc n) elegido cola =
        let actual = aplanar ((C.cola Puntero).queue_peek cola) in
        let cola' = ((C.cola Puntero).queue_pop cola).1 in
        do
          t ← cargar m actual
          elim elegido [
            | none ↦ falla no_inicializado
            | some q ↦ do
              u ← cargar m q
              if ltb t.prioridad u.prioridad
                  then comparar_punteros m n (some q) (push C cola' actual)
                  else comparar_punteros m n (some actual) (push C cola' q)
          ]

    -- The thread taken out of the queue: its front when it is alone, else the one of
    -- `elegir_maxima_prioridad`.
    unfoldable pub elegir_hilo : Heap Tcb → List Puntero → Resultado (Puntero × List Puntero)
    unfolding comparar_punteros
    elegir_hilo m cola =
        elim ((C.cola Puntero).queue_size cola) as (λ _. Resultado (Puntero × List Puntero)) [
          | zero ↦ falla no_inicializado
          | suc n ↦
              if n == 0
              then ok
                  (aplanar ((C.cola Puntero).queue_peek cola), ((C.cola Puntero).queue_pop cola).1)
              else (do
                (elegido, cola') ← comparar_punteros m n none cola
                elim elegido [ none ↦ falla no_inicializado | some p ↦ ok (p, cola') ])
        ]

    unfoldable pub despachar_prioridades : Kernel → List ℕ → Resultado Kernel
    unfolding creada cargar ejecutar_hilo elegir_hilo
    despachar_prioridades k entrada =
        let h = k.hilos in
        do
          cola ← creada h.cola_ready_fifo_prioridades
          elim ((C.cola Puntero).queue_is_empty cola) [
            | true ↦ ok (record k { hilos = record h { tomado = true } })
            | false ↦ do
              (p, cola') ← elegir_hilo h.tcbs cola
              _ ← cargar h.tcbs p
              ejecutar_hilo
                  (record k { hilos = record h { cola_ready_fifo_prioridades = some cola' } }) p
                  entrada
          ]

    -- one round of `atender_prioridades`
    unfoldable pub ronda_prioridades : Kernel → List ℕ → Resultado Ronda
    unfolding creada despachar_prioridades
    ronda_prioridades k entrada = do
      exec ← creada k.hilos.lista_exec_hilo
      elim ((C.lista Puntero).list_is_empty exec) [
        | false ↦ ok (sigue k)
        | true ↦ elim k.hilos.tomado [
          | true ↦ ok detenida
          | false ↦ do k' ← despachar_prioridades k entrada; ok (sigue k')
        ]
      ]

    -- one level of `atender_cmn`: its first thread runs and, when it is BLOCKED or READY, is inserted
    -- again
    unfoldable pub atender_nivel : Kernel → ℕ → List ℕ → Resultado Kernel
    unfolding get_next_thread ejecutar_hilo cargar insertar_en_cola_ready_cmn
    atender_nivel k i entrada = do
      (p, h) ← get_next_thread C k.hilos i
      elim (no_es_nulo p) [
        | false ↦ ok (record k { hilos = h })
        | true ↦ do
          k' ← ejecutar_hilo (record k { hilos = h }) p entrada
          t ← cargar k'.hilos.tcbs p
          elim ((t.estado == estado_blocked) || (t.estado == estado_ready)) [
            | false ↦ ok k'
            | true ↦ do
              (_, h') ← insertar_en_cola_ready_cmn C k'.hilos p
              ok (record k' { hilos = h' })
          ]
      ]

    -- the loop of `atender_cmn`, on how many levels are left; `entradas` is what comes from the CPU
    -- while each level runs
    unfoldable pub atender_niveles : ℕ → ℕ → (ℕ → List ℕ) → Kernel → Resultado Kernel
    unfolding atender_nivel
    atender_niveles zero i entradas k = ok k
    atender_niveles (suc n) i entradas k = do
      k' ← atender_nivel k i (entradas i)
      atender_niveles n (suc i) entradas k'

    unfoldable pub atender_cmn : Kernel → (ℕ → List ℕ) → Resultado Kernel
    unfolding atender_niveles
    atender_cmn k entradas = atender_niveles max_niveles_prioridad 0 entradas k

  -- the first loop of `queue_remove`, which frees the threads that are equal to the one given; that
  -- one is read in every turn
  unfoldable pub apartar :
      Puntero → ℕ → Heap Tcb → List Puntero → List Puntero → Resultado (Heap Tcb × List Puntero)
  unfolding cargar liberar
  apartar p zero m cola temp =
      if (C.cola Puntero).queue_is_empty cola then ok (m, temp) else falla sin_fin
  apartar p (suc n) m cola temp =
      let (frente, cola') = (C.cola Puntero).queue_pop cola in
      elim frente [
        | none ↦ ok (m, temp)
        | some q ↦ do
          t ← cargar m q
          u ← cargar m p
          elim ((t.pid == u.pid) && (t.tid == u.tid)) [
            | true ↦ do m' ← liberar m q; apartar p n m' cola' temp
            | false ↦ apartar p n m cola' (push C temp q)
          ]
      ]

  unfoldable pub queue_remove :
      Heap Tcb → Option (List Puntero) → Puntero → Resultado (Heap Tcb × Option (List Puntero))
  unfolding apartar reponer
  queue_remove m none p = ok (m, none)
  queue_remove m (some cola) none = ok (m, some cola)
  queue_remove m (some cola) (some i) = do
    (m', temp) ←
        apartar (some i) ((C.cola Puntero).queue_size cola) m cola (C.cola Puntero).queue_create
    cola' ← reponer C ((C.cola Puntero).queue_size temp) (C.cola Puntero).queue_create temp
    ok (m', some cola')
