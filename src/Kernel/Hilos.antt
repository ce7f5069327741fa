-- ===== src/Kernel/Hilos.antt =====
-- The threads of the kernel: `obtener_TCB_por_PID_y_TID` to `buscarHilo` and `agregarHiloAReady` of
-- kernel/src/main.c, and the part HILOS of kernel/src/k_largo_plazo.c.
--
-- agregarHiloAReady, liberar_tcb and buscarDependiente call each other: the last two take the first
-- as an argument, and it runs on fuel, one for each call inside another.
pub mod Buscar
pub mod Vida
pub mod Leyes
pub mod Fin
pub mod Acaba
pub mod Termina
pub mod Niveles
use so_tp_2c.Prelude.{
  ℕ, zero, suc, ◌+◌, ◌==◌, ◌&&◌, Bool, true, false, not, Option, none, some, List, [], ◌∷◌, ◌++◌,
  length, get_elem?, set, ltb, leb, if◌then◌else◌,
}
use so_tp_2c.Prelude.Resultado.{Resultado, ok, falla, puntero_nulo, fuera_de_bloque, sin_fin, ◌>>=◌}
use so_tp_2c.Commons.{CommonsApi}
use so_tp_2c.Comunes.Serializar.{Tcb}
use so_tp_2c.Kernel.Colas.Prioridad.{Algoritmo, cmn, fifo, prioridades, colas_multinivel}
use so_tp_2c.Kernel.Estado.{
  Puntero, Heap, cargar, guardar_en, liberar, creada, aplanar, Dependencia, Hilos,
  comparar_por_pid_y_tid, max_niveles_prioridad, estado_ready,
}
use so_tp_2c.Kernel.Pedidos.{crear_hilo_memoria, finalizar_hilo_memoria}

abbrev pub es_mismo : Puntero → Puntero → Bool
es_mismo none none = true
es_mismo none (some j) = false
es_mismo (some i) none = false
es_mismo (some i) (some j) = i == j

abbrev pub no_es_nulo : Puntero → Bool
no_es_nulo none = false
no_es_nulo (some i) = true

module _ (C : CommonsApi) where
  -- NULL for a list that was never created
  unfoldable pub obtener_tcb_por_pid_y_tid :
      Heap Tcb → Option (List Puntero) → ℕ → ℕ → Resultado Puntero
  unfolding comparar_por_pid_y_tid
  obtener_tcb_por_pid_y_tid m none pid tid = ok none
  obtener_tcb_por_pid_y_tid m (some ps) pid tid = do
    p ← (C.lista Puntero).list_find ps (comparar_por_pid_y_tid m pid tid)
    ok (aplanar p)

  -- the list after the call
  unfoldable pub quitar_tcb_de_lista_exec_hilo :
      Heap Tcb → Option (List Puntero) → ℕ → ℕ → Resultado (List Puntero)
  unfolding creada comparar_por_pid_y_tid
  quitar_tcb_de_lista_exec_hilo m lista pid tid = do
    ps ← creada lista
    (C.lista Puntero).list_remove_by_condition ps (comparar_por_pid_y_tid m pid tid)

  abbrev pub push : List Puntero → Puntero → List Puntero
  push = (C.cola Puntero).queue_push

  -- a list with a pointer at its end; the result of `list_add` is not looked at
  abbrev pub agregar_a_lista : {A : Type 0} → List A → A → List A
  agregar_a_lista {A} xs x = elim ((C.lista A).list_add xs x) [ none ↦ xs | some ys ↦ ys ]

  -- the pushes into the queue of a priority; `false` for a thread that has none
  unfoldable pub insertar_en_cola_ready_cmn : Hilos → Puntero → Resultado (Bool × Hilos)
  unfolding cargar
  insertar_en_cola_ready_cmn h none = ok (false, h)
  insertar_en_cola_ready_cmn h (some i) = do
    t ← cargar h.tcbs (some i)
    if leb max_niveles_prioridad t.prioridad
        then ok (false, h)
        else elim (get_elem? h.colas_ready_cmn t.prioridad) [
          | none ↦ falla fuera_de_bloque
          | some o ↦ elim o [
            | none ↦ ok (false, h)
            | some cola ↦ ok (
              true,
              record h {
                colas_ready_cmn = set h.colas_ready_cmn t.prioridad (some (push cola (some i)));
              },
            )
          ]
        ]

  -- the loop of `tieneDependiente`, over the members not seen yet
  unfoldable pub dependiente_en : List Dependencia → Puntero → Bool
  dependiente_en [] p = false
  dependiente_en (d ∷ ds) p =
      if es_mismo d.hilo p then no_es_nulo d.dependiente else dependiente_en ds p

  unfoldable pub tiene_dependiente : Hilos → Puntero → Resultado Bool
  unfolding creada dependiente_en
  tiene_dependiente h p = do ds ← creada h.lista_dependencias; ok (dependiente_en ds p)

  -- The loop of `buscarDependiente` from the index `i`, on fuel; `agregar` is agregarHiloAReady. A
  -- dependency that is taken out moves the next one to its index, which the loop then leaves.
  unfoldable pub buscar_dependiente :
      (Hilos → Puntero → Resultado Hilos) → ℕ → ℕ → Hilos → Puntero → Resultado Hilos
  unfolding creada cargar guardar_en
  buscar_dependiente agregar zero i h p = do
    ds ← creada h.lista_dependencias
    if ltb i ((C.lista Dependencia).list_size ds) then falla sin_fin else ok h
  buscar_dependiente agregar (suc n) i h p = do
    ds ← creada h.lista_dependencias
    elim (ltb i ((C.lista Dependencia).list_size ds)) [
      | false ↦ ok h
      | true ↦ elim ((C.lista Dependencia).list_get ds i) [
        | none ↦ falla puntero_nulo
        | some d ↦ elim (es_mismo d.hilo p && no_es_nulo d.dependiente) [
          | false ↦ buscar_dependiente agregar n (suc i) h p
          | true ↦ do
            t ← cargar h.tcbs d.dependiente
            m ← guardar_en h.tcbs d.dependiente (record t { estado = estado_ready })
            h' ←
                agregar
                  (record h {
                    tcbs = m;
                    lista_dependencias = some ((C.lista Dependencia).list_remove ds i);
                  })
                  d.dependiente
            buscar_dependiente agregar n (suc i) h' p
        ]
      ]
    ]

  -- It frees nothing: it lets the dependent thread go on and takes the finished one out of
  -- lista_bloq_hilo.
  unfoldable pub liberar_tcb :
      (Hilos → Puntero → Resultado Hilos) → Hilos → Puntero → Resultado Hilos
  unfolding tiene_dependiente buscar_dependiente quitar_tcb_de_lista_exec_hilo cargar creada
  liberar_tcb agregar h none = ok h
  liberar_tcb agregar h (some i) = do
    ds ← creada h.lista_dependencias
    b ← tiene_dependiente h (some i)
    elim b [
      | false ↦ ok h
      | true ↦ do
        h' ← buscar_dependiente agregar (length ds) 0 h (some i)
        t ← cargar h'.tcbs (some i)
        ps ← quitar_tcb_de_lista_exec_hilo h'.tcbs h'.lista_bloq_hilo t.pid t.tid
        ok (record h' { lista_bloq_hilo = some ps })
    ]

  -- `queue_push(cola_ready_fifo_prioridades, nuevoTCB)`, and the log line that reads the thread
  unfoldable pub agregar_a_cola : Hilos → Puntero → Resultado Hilos
  unfolding creada cargar
  agregar_a_cola h p = do
    cola ← creada h.cola_ready_fifo_prioridades
    _ ← cargar h.tcbs p
    ok (record h { cola_ready_fifo_prioridades = some (push cola p) })

  unfoldable pub agregar_hilo_a_ready : Option Algoritmo → ℕ → Hilos → Puntero → Resultado Hilos
  unfolding insertar_en_cola_ready_cmn liberar_tcb agregar_a_cola cargar
  agregar_hilo_a_ready algoritmo zero h p = falla sin_fin
  agregar_hilo_a_ready (some cmn) (suc n) h p = do
    (insertado, h') ← insertar_en_cola_ready_cmn h p
    elim insertado [
      | false ↦ liberar_tcb (agregar_hilo_a_ready (some cmn) n) h' p
      | true ↦ do _ ← cargar h'.tcbs p; ok h'
    ]
  agregar_hilo_a_ready (some fifo) (suc n) h p = agregar_a_cola h p
  agregar_hilo_a_ready (some prioridades) (suc n) h p = agregar_a_cola h p
  agregar_hilo_a_ready (some colas_multinivel) (suc n) h p = ok h
  agregar_hilo_a_ready none (suc n) h p = ok h
