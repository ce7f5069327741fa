-- ===== src/Kernel/Procesos/Atasco.antt =====
-- crearProceso of kernel/src/k_largo_plazo.c with the answers that memoria/src sends, and with the
-- state in which main of kernel/src/main.c starts it.
use so_tp_2c.Prelude.{
  some, ap, get_elem?-append_here, ℕ, ◌^◌, ◌≤◌, ◌<◌, ◌≡◌, refl, ◌∙◌, List, [], ◌∷◌, ◌++◌, arith,
  length,
}
use so_tp_2c.Prelude.Resultado.{ok, falla, puntero_nulo}
use so_tp_2c.Commons.{CommonsApi}
use so_tp_2c.Memoria.Peticiones.{memoria_kernel_crear_proceso, enviar_estado}
use so_tp_2c.Kernel.Estado.{
  Puntero, PcbKernel, estado_new, cargar, guardar_en, creada, Alta, Kernel, kernel_inicial,
}
use so_tp_2c.Kernel.Pedidos.{leer_respuesta}
use so_tp_2c.Kernel.Pedidos.Respuestas.{leer_respuesta-enviar_estado}
use so_tp_2c.Kernel.Planificador.{ronda_fifo, ronda_prioridades}
use so_tp_2c.Kernel.Pasos.{Alcanza}
use so_tp_2c.Kernel.Pasos.Invariantes.Atascado.{push-no_vacia, Alcanza-cola_ready}
use so_tp_2c.Kernel.Hilos.Vida.{Entorno, crear_tcb, crear_hilo}
use so_tp_2c.Kernel.Procesos.{crear_pcb, admitir, crear_proceso, crear_proceso_inicial}
use so_tp_2c.Kernel.Procesos.Altas.{
  crear_proceso_memoria-cabe, crear_proceso-pedido, crear_proceso-admitir,
}

-- the process that crear_pcb makes
abbrev nuevo : Kernel → PcbKernel
nuevo k = record { pid = k.procesos.process_id; estado = estado_new; tids = []; mutex = [] }

module _ (C : CommonsApi) where
  module _ (e : Entorno) where
    -- When cola_new is empty and the answer is the one that the memory module sends, whatever its state
    -- says (the request fits: malloc returns the blocks asked for, the name has at most 4 characters,
    -- the numbers are words of 32 bits), crearProceso leaves the new process, in the state NEW and with
    -- the next identifier, alone in cola_new and waits; and from there on, with no process in cola_exec,
    -- no process ever joins cola_ready.
    pub crear_proceso-enviar_estado :
        (k : Kernel) (a : Alta) (bloque : List ℕ) (estado : ℕ)
        → ((n : ℕ) → length (e.malloc n) ≡ n)
        → length bloque ≡ 4
        → enviar_estado bloque estado memoria_kernel_crear_proceso ≡ ok e.respuesta_proceso
        → length a.archivo ≤ 4
        → k.procesos.process_id < 2 ^ 32
        → a.tamanio < 2 ^ 32
        → k.procesos.cola_new ≡ []
        → k.procesos.cola_exec ≡ []
        → (l : Kernel) × (crear_proceso C e k a ≡ ok l)
          × (l.procesos.cola_new ≡ some (length k.procesos.pcbs) ∷ [])
          × (cargar l.procesos.pcbs (some (length k.procesos.pcbs))
              ≡ ok (record {
                pid = k.procesos.process_id;
                estado = estado_new;
                tids = [];
                mutex = [];
              }))
          × (l.procesos.esperando ≡ k.procesos.esperando ++ (a ∷ []))
          × ((m : Kernel) → Alcanza C l m → m.procesos.cola_ready ≡ k.procesos.cola_ready)
    unfolding crear_pcb cargar
    crear_proceso-enviar_estado k a bloque estado hm hb he ha hp ht hv hx =
        let (enviado', h1, h2) =
          leer_respuesta-enviar_estado e.malloc bloque estado memoria_kernel_crear_proceso hm hb
            (omega arith) (omega arith) in
        let (enviado, h) =
          crear_proceso_memoria-cabe e.malloc k.procesos.process_id a.archivo a.tamanio
            e.respuesta_proceso 4 (hm 16) ha hp ht (ground (arith, h1, h2, he)) in
        (
          _,
          crear_proceso-pedido C e k a 4 enviado hv h (ground arith),
          (C.cola Puntero).push_appends k.procesos.cola_new (some (length k.procesos.pcbs))
              ∙ ap (λ q. q ++ (some (length k.procesos.pcbs) ∷ [])) hv,
          ground (arith, get_elem?-append_here k.procesos.pcbs (some (nuevo k)) []),
          refl,
          λ m r. (Alcanza-cola_ready C _ m hx (push-no_vacia C k.procesos.cola_new _) r).0,
        )

    -- The kernel as main starts it cannot create its first process. When the memory answers 1 (the
    -- request fits: malloc returns the block asked for, the name has at most 4 characters, the size is
    -- a word of 32 bits), crearProcesoInicial reads the list of counters of threads through NULL, since
    -- no function creates it; and a round of atender_fifo or atender_prioridades reads the list of
    -- threads in execution through NULL.
    pub crear_proceso_inicial-sin_listas :
        (archivo : List ℕ) (tamanio : ℕ) (entrada : List ℕ)
        → length (e.malloc 16) ≡ 16
        → length archivo ≤ 4
        → tamanio < 2 ^ 32
        → leer_respuesta e.malloc e.respuesta_proceso ≡ ok 1
        → (crear_proceso_inicial C e kernel_inicial archivo tamanio ≡ falla puntero_nulo)
          × (ronda_fifo C e kernel_inicial entrada ≡ falla puntero_nulo)
          × (ronda_prioridades C e kernel_inicial entrada ≡ falla puntero_nulo)
    unfolding kernel_inicial admitir crear_pcb cargar guardar_en creada crear_hilo crear_tcb
        ronda_fifo ronda_prioridades
    crear_proceso_inicial-sin_listas archivo tamanio entrada hm ha ht hr =
        let (enviado, he) =
          crear_proceso_memoria-cabe e.malloc 0 archivo tamanio e.respuesta_proceso 1 hm ha
            (omega arith) ht hr in
        (
          crear_proceso-admitir C e kernel_inicial
                (record { archivo = archivo; tamanio = tamanio; prioridad = 0 }) enviado refl he
              ∙ ground arith,
          refl,
          refl,
        )
