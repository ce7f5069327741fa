-- ===== src/Kernel/Planificador/Rondas.antt =====
-- What the rounds of the short-term planner do where the queue is empty, and where it is not.
use so_tp_2c.Prelude.{
  ℕ, ◌≡◌, refl, true, false, List, [], ◌∷◌, none, some, arith, length, get_elem?, set,
  get_elem?-set,
}
use so_tp_2c.Prelude.Resultado.{ok, falla, no_inicializado}
use so_tp_2c.Commons.{CommonsApi}
use so_tp_2c.Comunes.Serializar.{Tcb, serializar_tcb}
use so_tp_2c.Comunes.Serializar.Escritura.{escribir_palabras_lem}
use so_tp_2c.Comunes.Red.Cable.{enviar_operacion-sin_size}
use so_tp_2c.Kernel.Estado.{Puntero, Heap, cargar, guardar_en, creada, Kernel, estado_exec}
use so_tp_2c.Kernel.Hilos.Vida.{Entorno}
use so_tp_2c.Kernel.Planificador.{
  sigue, detenida, enviar_tcb_cpu, ejecutar_hilo, despachar_fifo, ronda_fifo, despachar_prioridades,
  ronda_prioridades, elegir_hilo, comparar_punteros,
}
use so_tp_2c.Kernel.Planificador.Despacho.{ejecutar_hilo-igual}

module _ (C : CommonsApi) (e : Entorno) where
  -- ejecutar_hilo returns only when it was given NULL, and then it has changed nothing: for any thread,
  -- live or not, it ends in undefined behaviour before a message of the CPU is read.
  pub ejecutar_hilo-sin_hilo :
      (k l : Kernel) (p : Puntero) (entrada : List ℕ)
      → ejecutar_hilo C e k p entrada ≡ ok l
      → (p ≡ none) × (l ≡ k)
  ejecutar_hilo-sin_hilo k l p entrada h =
      let (igual, nulo) = ejecutar_hilo-igual C e k l p entrada h in (nulo, igual)

  -- A round of atender_fifo that finds no thread in execution and no thread in READY keeps the mutex
  -- of READY, and the next round, whatever has come into READY since, waits for that mutex for ever.
  pub ronda_fifo-detenida :
      (k : Kernel) (entrada : List ℕ)
      → k.hilos.lista_exec_hilo ≡ some []
      → k.hilos.cola_ready_fifo_prioridades ≡ some []
      → k.hilos.tomado ≡ false
      → (l : Kernel) × (ronda_fifo C e k entrada ≡ ok (sigue l))
        × ((ready : List Puntero) (entrada' : List ℕ)
            → ronda_fifo C e
                (record l { hilos = record l.hilos { cola_ready_fifo_prioridades = some ready } })
                entrada'
              ≡ ok detenida)
  unfolding ronda_fifo despachar_fifo creada
  ronda_fifo-detenida k entrada hx hr ht = (
    record k { hilos = record k.hilos { tomado = true } },
    ground (arith, hx, hr, ht, (C.lista Puntero).list_is_empty_nil, (C.cola Puntero).is_empty_nil),
    λ ready entrada'. ground (arith, hx, (C.lista Puntero).list_is_empty_nil),
  )

  enviar_tcb_cpu-vivo :
      (m : Heap Tcb) (i : ℕ) (t : Tcb)
      → length (e.malloc 16) ≡ 16
      → get_elem? m i ≡ some (some t)
      → enviar_tcb_cpu C e m (some i) ≡ falla no_inicializado
  unfolding enviar_tcb_cpu serializar_tcb cargar
  enviar_tcb_cpu-vivo m i t hm hi = ground (
    arith,
    hi,
    escribir_palabras_lem (record { size = none; offset = 0; stream = e.malloc 16 })
        (t.pid ∷ t.tid ∷ t.prioridad ∷ t.estado ∷ []) [] (e.malloc 16) refl refl
        (omega (arith, hm)),
    enviar_operacion-sin_size 1 _ refl,
  )

  ejecutar_hilo-vivo :
      (k : Kernel) (entrada : List ℕ) (exec : List Puntero) (i : ℕ) (t : Tcb)
      → length (e.malloc 16) ≡ 16
      → k.hilos.lista_exec_hilo ≡ some exec
      → get_elem? k.hilos.tcbs i ≡ some (some t)
      → ejecutar_hilo C e k (some i) entrada ≡ falla no_inicializado
  unfolding ejecutar_hilo creada cargar guardar_en
  ejecutar_hilo-vivo k entrada exec i t hm hx hi = ground (
    arith,
    hx,
    hi,
    enviar_tcb_cpu-vivo (set k.hilos.tcbs i (some (record t { estado = estado_exec }))) i
        (record t { estado = estado_exec }) hm
        (get_elem?-set k.hilos.tcbs i (some (record t { estado = estado_exec })) hi),
  )

  ronda_fifo-vivo :
      (k : Kernel) (entrada : List ℕ) (i : ℕ) (t : Tcb) (ps : List Puntero)
      → length (e.malloc 16) ≡ 16
      → k.hilos.lista_exec_hilo ≡ some []
      → k.hilos.cola_ready_fifo_prioridades ≡ some (some i ∷ ps)
      → k.hilos.tomado ≡ false
      → get_elem? k.hilos.tcbs i ≡ some (some t)
      → ronda_fifo C e k entrada ≡ falla no_inicializado
  unfolding ronda_fifo despachar_fifo creada cargar
  ronda_fifo-vivo k entrada i t ps hm hx hr ht hi = ground (
    arith,
    hx,
    hr,
    ht,
    hi,
    (C.lista Puntero).list_is_empty_nil,
    (C.cola Puntero).is_empty_cons (some i) ps,
    (C.cola Puntero).peek_cons (some i) ps,
    (C.cola Puntero).pop_cons (some i) ps,
    ejecutar_hilo-vivo
        (record k { hilos = record k.hilos { cola_ready_fifo_prioridades = some ps } }) entrada [] i
        t hm hx hi,
  )

  -- With a second thread in READY it is the choice that fails.
  elegir_hilo-vivo :
      (m : Heap Tcb) (i : ℕ) (t : Tcb) (p : Puntero) (ps : List Puntero)
      → get_elem? m i ≡ some (some t)
      → elegir_hilo C e m (some i ∷ p ∷ ps) ≡ falla no_inicializado
  unfolding elegir_hilo comparar_punteros cargar
  elegir_hilo-vivo m i t p ps hi = ground (
    arith,
    hi,
    (C.cola Puntero).size_counts (some i ∷ p ∷ ps),
    (C.cola Puntero).peek_cons (some i) (p ∷ ps),
  )

  ronda_prioridades-vivo :
      (k : Kernel) (entrada : List ℕ) (i : ℕ) (t : Tcb) (ps : List Puntero)
      → length (e.malloc 16) ≡ 16
      → k.hilos.lista_exec_hilo ≡ some []
      → k.hilos.cola_ready_fifo_prioridades ≡ some (some i ∷ ps)
      → k.hilos.tomado ≡ false
      → get_elem? k.hilos.tcbs i ≡ some (some t)
      → ronda_prioridades C e k entrada ≡ falla no_inicializado
  unfolding ronda_prioridades despachar_prioridades elegir_hilo creada cargar
  ronda_prioridades-vivo k entrada i t [] hm hx hr ht hi = ground (
    arith,
    hx,
    hr,
    ht,
    hi,
    (C.lista Puntero).list_is_empty_nil,
    (C.cola Puntero).is_empty_cons (some i) [],
    (C.cola Puntero).size_counts (some i ∷ []),
    (C.cola Puntero).peek_cons (some i) [],
    (C.cola Puntero).pop_cons (some i) [],
    ejecutar_hilo-vivo
        (record k { hilos = record k.hilos { cola_ready_fifo_prioridades = some [] } }) entrada [] i
        t hm hx hi,
  )
  ronda_prioridades-vivo k entrada i t (p ∷ ps) hm hx hr ht hi = ground (
    arith,
    hx,
    hr,
    ht,
    (C.lista Puntero).list_is_empty_nil,
    (C.cola Puntero).is_empty_cons (some i) (p ∷ ps),
    elegir_hilo-vivo k.hilos.tcbs i t p ps hi,
  )

  -- A round of atender_fifo or of atender_prioridades that finds no thread in execution and a live
  -- thread at the front of READY, with the mutex of READY free, ends in the use of a variable that has
  -- no value, when malloc returns a block of the 16 bytes asked for.
  pub rondas-vivo :
      (k : Kernel) (entrada : List ℕ) (i : ℕ) (t : Tcb) (ps : List Puntero)
      → length (e.malloc 16) ≡ 16
      → k.hilos.lista_exec_hilo ≡ some []
      → k.hilos.cola_ready_fifo_prioridades ≡ some (some i ∷ ps)
      → k.hilos.tomado ≡ false
      → get_elem? k.hilos.tcbs i ≡ some (some t)
      → (ronda_fifo C e k entrada ≡ falla no_inicializado)
        × (ronda_prioridades C e k entrada ≡ falla no_inicializado)
  rondas-vivo k entrada i t ps hm hx hr ht hi = (
    ronda_fifo-vivo k entrada i t ps hm hx hr ht hi,
    ronda_prioridades-vivo k entrada i t ps hm hx hr ht hi,
  )
