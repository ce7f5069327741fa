-- ===== src/Kernel/Hilos/Buscar.antt =====
-- The search for a thread among all of them: `buscarTCBDeCola`, `buscarTCBPorPIDyTID` and
-- `buscarHilo` of kernel/src/main.c, on pointers. A loop that ends on `queue_is_empty` runs on the
-- size of the queue at its start.
use so_tp_2c.Prelude.{ℕ, zero, suc, true, false, Option, none, some, List, [], ◌∷◌, if◌then◌else◌}
use so_tp_2c.Prelude.Resultado.{Resultado, ok, falla, sin_fin, ◌>>=◌}
use so_tp_2c.Commons.{CommonsApi}
use so_tp_2c.Comunes.Serializar.{Tcb}
use so_tp_2c.Kernel.Colas.Prioridad.{Algoritmo, cmn, fifo, prioridades, colas_multinivel}
use so_tp_2c.Kernel.Estado.{Puntero, Heap, creada, aplanar, Hilos, comparar_por_pid_y_tid}
use so_tp_2c.Kernel.Hilos.{push, no_es_nulo, obtener_tcb_por_pid_y_tid}

module _ (C : CommonsApi) where
  -- the second loop: the queue is filled again
  unfoldable pub reponer : ℕ → List Puntero → List Puntero → Resultado (List Puntero)
  reponer zero cola auxiliar =
      if (C.cola Puntero).queue_is_empty auxiliar then ok cola else falla sin_fin
  reponer (suc n) cola auxiliar =
      let (frente, auxiliar') = (C.cola Puntero).queue_pop auxiliar in
      elim frente [ none ↦ ok cola | some p ↦ reponer n (push C cola p) auxiliar' ]

  -- The first loop: the queue is emptied into the auxiliary one, and the first thread with the two
  -- identifiers is kept; once it is found no thread is read.
  unfoldable pub vaciar :
      Heap Tcb
      → ℕ
      → ℕ
      → ℕ
      → List Puntero
      → List Puntero
      → Puntero
      → Resultado (Puntero × List Puntero)
  unfolding comparar_por_pid_y_tid
  vaciar m pid tid zero cola auxiliar e =
      if (C.cola Puntero).queue_is_empty cola then ok (e, auxiliar) else falla sin_fin
  vaciar m pid tid (suc n) cola auxiliar e =
      let (frente, cola') = (C.cola Puntero).queue_pop cola in
      elim frente [
        | none ↦ ok (e, auxiliar)
        | some p ↦ elim e [
          | some i ↦ vaciar m pid tid n cola' (push C auxiliar p) (some i)
          | none ↦ do
            b ← comparar_por_pid_y_tid m pid tid p
            elim b [
              | true ↦ vaciar m pid tid n cola' (push C auxiliar p) p
              | false ↦ vaciar m pid tid n cola' (push C auxiliar p) none
            ]
        ]
      ]

  -- NULL for a queue that was never created; the queue after the call is the second part
  unfoldable pub buscar_en_cola :
      Heap Tcb → Option (List Puntero) → ℕ → ℕ → Resultado (Puntero × Option (List Puntero))
  unfolding vaciar reponer
  buscar_en_cola m none pid tid = ok (none, none)
  buscar_en_cola m (some cola) pid tid = do
    (e, auxiliar) ←
        vaciar m pid tid ((C.cola Puntero).queue_size cola) cola (C.cola Puntero).queue_create none
    cola' ← reponer ((C.cola Puntero).queue_size auxiliar) (C.cola Puntero).queue_create auxiliar
    ok (e, some cola')

  -- the inner loop of `buscarTCBPorPIDyTID`: every turn looks at the front of the queue
  unfoldable pub mirar_frente : Heap Tcb → ℕ → ℕ → ℕ → List Puntero → Resultado Puntero
  unfolding comparar_por_pid_y_tid
  mirar_frente m pid tid zero cola = ok none
  mirar_frente m pid tid (suc n) cola =
      let frente = aplanar ((C.cola Puntero).queue_peek cola) in
      let igual = comparar_por_pid_y_tid m pid tid frente in
      let resto = mirar_frente m pid tid n cola in
      do b ← igual; elim b [ true ↦ ok frente | false ↦ resto ]

  unfoldable pub buscar_tcb_por_pid_y_tid :
      Heap Tcb → List (Option (List Puntero)) → ℕ → ℕ → Resultado Puntero
  unfolding mirar_frente creada
  buscar_tcb_por_pid_y_tid m [] pid tid = ok none
  buscar_tcb_por_pid_y_tid m (nivel ∷ niveles) pid tid = do
    cola ← creada nivel
    p ← mirar_frente m pid tid ((C.cola Puntero).queue_size cola) cola
    elim (no_es_nulo p) [ true ↦ ok p | false ↦ buscar_tcb_por_pid_y_tid m niveles pid tid ]

  -- the switch over the algorithm
  unfoldable pub buscar_en_ready : Option Algoritmo → Hilos → ℕ → ℕ → Resultado (Puntero × Hilos)
  unfolding buscar_en_cola buscar_tcb_por_pid_y_tid
  buscar_en_ready (some cmn) h pid tid = do
    p ← buscar_tcb_por_pid_y_tid h.tcbs h.colas_ready_cmn pid tid
    ok (p, h)
  buscar_en_ready (some fifo) h pid tid = do
    (p, cola) ← buscar_en_cola h.tcbs h.cola_ready_fifo_prioridades pid tid
    ok (p, record h { cola_ready_fifo_prioridades = cola })
  buscar_en_ready (some prioridades) h pid tid = do
    (p, cola) ← buscar_en_cola h.tcbs h.cola_ready_fifo_prioridades pid tid
    ok (p, record h { cola_ready_fifo_prioridades = cola })
  buscar_en_ready (some colas_multinivel) h pid tid = ok (none, h)
  buscar_en_ready none h pid tid = ok (none, h)

  unfoldable pub buscar_hilo : Option Algoritmo → Hilos → ℕ → ℕ → Resultado (Puntero × Hilos)
  unfolding obtener_tcb_por_pid_y_tid buscar_en_ready
  buscar_hilo algoritmo h pid tid = do
    p ← obtener_tcb_por_pid_y_tid C h.tcbs h.lista_exec_hilo pid tid
    elim (no_es_nulo p) [
      | true ↦ ok (p, h)
      | false ↦ do
        q ← obtener_tcb_por_pid_y_tid C h.tcbs h.lista_bloq_hilo pid tid
        elim (no_es_nulo q) [ true ↦ ok (q, h) | false ↦ buscar_en_ready algoritmo h pid tid ]
    ]
