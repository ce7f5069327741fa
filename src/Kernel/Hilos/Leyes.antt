-- ===== src/Kernel/Hilos/Leyes.antt =====
-- What becomes of a thread: where a new one goes, and what a finished one leaves behind.
use so_tp_2c.Prelude.{
  ℕ, suc, ◌+◌, ◌^◌, ◌≤◌, ◌<◌, ◌≡◌, ◌≢◌, ◌⊎◌, ap, some, List, [], ◌∷◌, ◌++◌, arith, length, take,
  set, get_elem?-append_here, get_elem?, get_elem?-set, Option, none, zero, Option-cases, inl, inr,
}
use so_tp_2c.Prelude.Resultado.{ok}
use so_tp_2c.Commons.{CommonsApi}
use so_tp_2c.Comunes.Bytes.{le32}
use so_tp_2c.Comunes.Serializar.{Tcb}
use so_tp_2c.Comunes.Red.{enviar_buffer, enviar_operacion}
use so_tp_2c.Memoria.Peticiones.{memoria_kernel_crear_hilo}
use so_tp_2c.Kernel.Colas.Prioridad.{fifo, prioridades}
use so_tp_2c.Kernel.Estado.{Puntero, cargar, creada, Hilos, estado_ready}
use so_tp_2c.Kernel.Pedidos.{leer_respuesta, crear_hilo_memoria}
use so_tp_2c.Kernel.Pedidos.Leyes.{leer-mensaje_crear_hilo}
use so_tp_2c.Kernel.Hilos.{push, agregar_a_cola, agregar_hilo_a_ready}
use so_tp_2c.Kernel.Hilos.Vida.{Entorno, ultimo_tid, crear_tcb, crear_hilo}

crear_hilo_memoria-cabe :
    (malloc : ℕ → List ℕ) (t : Tcb) (archivo respuesta : List ℕ) (n : ℕ)
    → length (malloc 20) ≡ 20
    → length archivo ≤ 4
    → t.pid < 2 ^ 32
    → t.tid < 2 ^ 32
    → t.prioridad < 2 ^ 32
    → leer_respuesta malloc respuesta ≡ ok n
    → (enviado : List ℕ) × (crear_hilo_memoria malloc t archivo respuesta ≡ ok (enviado, n))
unfolding crear_hilo_memoria enviar_operacion enviar_buffer
crear_hilo_memoria-cabe malloc t archivo respuesta n hm ha hp ht hq hr =
    let (b, e, s, _) = leer-mensaje_crear_hilo malloc t archivo hm ha hp ht hq in
    (
      le32 memoria_kernel_crear_hilo ++ (le32 (length b.stream) ++ take (length b.stream) b.stream),
      ground (arith, e, s, hr),
    )

abbrev pub uno_mas : Option ℕ → Option ℕ
uno_mas none = none
uno_mas (some n) = some (n + 1)

module _ (C : CommonsApi) (e : Entorno) where
  -- the thread that crear_tcb makes
  abbrev pub tcb_nuevo : ℕ → ℕ → Tcb
  tcb_nuevo prioridad pid = record {
    pid = pid;
    tid = e.tid_inicial;
    prioridad = prioridad;
    estado = estado_ready;
  }

  -- What crear_hilo leaves, apart from the queues READY.
  abbrev pub con_tcb : Hilos → List ℕ → List ℕ → ℕ → ℕ → Hilos
  con_tcb h enviado ids prioridad pid = record h {
    tcbs = h.tcbs ++ (some (tcb_nuevo prioridad pid) ∷ []);
    lista_thread_id = some ((C.lista ℕ).list_replace ids pid (ultimo_tid C e ids pid + 1));
    a_memoria = h.a_memoria ++ (enviado ∷ []);
  }

  -- When the list of counters is there, the request to the memory fits (malloc returns the block asked
  -- for, the name has at most 4 characters, the numbers are words of 32 bits) and the answer is read
  -- as a number other than 0, crear_hilo does with the new thread what agregarHiloAReady does.
  crear_hilo-agregar :
      (h : Hilos) (archivo : List ℕ) (prioridad pid n : ℕ) (ids : List ℕ)
      → length (e.malloc 20) ≡ 20
      → length archivo ≤ 4
      → pid < 2 ^ 32
      → e.tid_inicial < 2 ^ 32
      → prioridad < 2 ^ 32
      → leer_respuesta e.malloc e.respuesta_hilo ≡ ok n
      → n ≢ 0
      → h.lista_thread_id ≡ some ids
      → (enviado : List ℕ) × (crear_hilo C e h archivo prioridad pid
          ≡ agregar_hilo_a_ready C e.algoritmo e.fuel
              (con_tcb h enviado ids prioridad pid)
              (some (length h.tcbs)))
  unfolding crear_hilo crear_tcb creada cargar
  crear_hilo-agregar h archivo prioridad pid n ids hm ha hp ht hq hr hn hi =
      let (enviado, he) =
        crear_hilo_memoria-cabe e.malloc (tcb_nuevo prioridad pid) archivo e.respuesta_hilo n hm ha
          hp ht hq hr in
      (
        enviado,
        ground
            (arith, hi, he, hn, get_elem?-append_here h.tcbs (some (tcb_nuevo prioridad pid)) []),
      )

  get_elem?-set_fuera :
      (ids : List ℕ) (i v : ℕ) → get_elem? ids i ≡ none → get_elem? (set ids i v) i ≡ none
  get_elem?-set_fuera [] i v h = h
  get_elem?-set_fuera (x ∷ xs) zero v h = ground (arith, h)
  get_elem?-set_fuera (x ∷ xs) (suc i) v h = get_elem?-set_fuera xs i v h

  contador :
      (ids : List ℕ) (pid : ℕ)
      → get_elem? (set ids pid (ultimo_tid C e ids pid + 1)) pid ≡ uno_mas (get_elem? ids pid)
  contador ids pid = elim (Option-cases (get_elem? ids pid)) [
    | inl n ↦ ground (arith, n, get_elem?-set_fuera ids pid (ultimo_tid C e ids pid + 1) n)
    | inr (x, s) ↦ ground (
      arith,
      s,
      (C.lista ℕ).list_get_reads ids pid,
      get_elem?-set ids pid (ultimo_tid C e ids pid + 1) s,
    )
  ]

  -- When the list of counters is there, the request to the memory fits (malloc returns the block asked
  -- for, the name has at most 4 characters, the numbers are words of 32 bits), the answer is read as a
  -- number other than 0, the algorithm is FIFO or PRIORIDADES and the queue READY is there, crear_hilo
  -- returns: the new thread, with the priority given and the TID that malloc left, is READY and last in
  -- the queue, and the counter of its process, when the list has one, is one more, while the TID is not
  -- taken from it. When the list has no counter for the process, it gets none.
  pub crear_hilo-fifo :
      (h : Hilos) (archivo : List ℕ) (prioridad pid n f : ℕ) (ids : List ℕ) (cola : List Puntero)
      → length (e.malloc 20) ≡ 20
      → length archivo ≤ 4
      → pid < 2 ^ 32
      → e.tid_inicial < 2 ^ 32
      → prioridad < 2 ^ 32
      → leer_respuesta e.malloc e.respuesta_hilo ≡ ok n
      → n ≢ 0
      → h.lista_thread_id ≡ some ids
      → h.cola_ready_fifo_prioridades ≡ some cola
      → (e.algoritmo ≡ some fifo) ⊎ (e.algoritmo ≡ some prioridades)
      → e.fuel ≡ suc f
      → (l : Hilos) × (crear_hilo C e h archivo prioridad pid ≡ ok l)
        × (l.cola_ready_fifo_prioridades ≡ some (cola ++ (some (length h.tcbs) ∷ [])))
        × (cargar l.tcbs (some (length h.tcbs)) ≡ ok (tcb_nuevo prioridad pid))
        × (l.lista_thread_id ≡ some (set ids pid (ultimo_tid C e ids pid + 1)))
        × (get_elem? (set ids pid (ultimo_tid C e ids pid + 1)) pid ≡ uno_mas (get_elem? ids pid))
  unfolding agregar_hilo_a_ready agregar_a_cola cargar creada
  crear_hilo-fifo h archivo prioridad pid n f ids cola hm ha hp ht hq hr hn hi hc hal hf =
      let (enviado, he) =
        crear_hilo-agregar h archivo prioridad pid n ids hm ha hp ht hq hr hn hi in
      (
        record (con_tcb h enviado ids prioridad pid) {
          cola_ready_fifo_prioridades = some (push C cola (some (length h.tcbs)));
        },
        ground (
          arith,
          he,
          hal,
          hf,
          hc,
          get_elem?-append_here h.tcbs (some (tcb_nuevo prioridad pid)) [],
        ),
        ap some ((C.cola Puntero).push_appends cola (some (length h.tcbs))),
        ground (arith, get_elem?-append_here h.tcbs (some (tcb_nuevo prioridad pid)) []),
        ap some ((C.lista ℕ).list_replace_sets ids pid (ultimo_tid C e ids pid + 1)),
        contador ids pid,
      )
