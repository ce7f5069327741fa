-- ===== src/Kernel/Procesos/Altas.antt =====
-- What crearProceso does with each answer of the memory module: kernel/src/k_largo_plazo.c.
use so_tp_2c.Prelude.{
  ℕ, suc, ◌+◌, ◌^◌, ◌≤◌, ◌<◌, ◌≡◌, ◌≢◌, refl, ◌∙◌, some, List, [], ◌∷◌, ◌++◌, arith, length, take,
  set, get_elem?-set, get_elem?-append_here, ◌⊎◌,
}
use so_tp_2c.Prelude.Resultado.{ok}
use so_tp_2c.Commons.{CommonsApi}
use so_tp_2c.Comunes.Bytes.{le32}
use so_tp_2c.Comunes.Red.{enviar_buffer, enviar_operacion}
use so_tp_2c.Memoria.Peticiones.{memoria_kernel_crear_proceso}
use so_tp_2c.Kernel.Estado.{
  Heap, Puntero, cargar, guardar_en, creada, Hilos, PcbKernel, Alta, Kernel, estado_new,
  estado_ready,
}
use so_tp_2c.Kernel.Pedidos.{leer_respuesta, crear_proceso_memoria}
use so_tp_2c.Kernel.Pedidos.Leyes.{leer-mensaje_crear_proceso}
use so_tp_2c.Kernel.Hilos.{push}
use so_tp_2c.Kernel.Colas.Prioridad.{fifo, prioridades}
use so_tp_2c.Kernel.Hilos.Leyes.{tcb_nuevo, crear_hilo-fifo}
use so_tp_2c.Kernel.Hilos.Vida.{ultimo_tid, Entorno, crear_hilo}
use so_tp_2c.Kernel.Procesos.{crear_pcb, admitir, crear_proceso}

-- The request that crearProceso makes, when it fits and the answer can be read.
pub crear_proceso_memoria-cabe :
    (malloc : ℕ → List ℕ) (pid : ℕ) (archivo : List ℕ) (tamanio : ℕ) (respuesta : List ℕ) (n : ℕ)
    → length (malloc 16) ≡ 16
    → length archivo ≤ 4
    → pid < 2 ^ 32
    → tamanio < 2 ^ 32
    → leer_respuesta malloc respuesta ≡ ok n
    → (enviado : List ℕ) × (crear_proceso_memoria malloc pid archivo tamanio respuesta
        ≡ ok (enviado, n))
unfolding crear_proceso_memoria enviar_operacion enviar_buffer
crear_proceso_memoria-cabe malloc pid archivo tamanio respuesta n hm ha hp ht hr =
    let (b, e, s, _) = leer-mensaje_crear_proceso malloc pid archivo tamanio hm ha hp ht in
    (
      le32 memoria_kernel_crear_proceso
          ++ (le32 (length b.stream) ++ take (length b.stream) b.stream),
      ground (arith, e, s, hr),
    )

module _ (C : CommonsApi) where
  module _ (e : Entorno) where
    -- The kernel when crearProceso has put its new process into cola_new and asked the memory.
    abbrev pub pedido_hecho : Kernel → List ℕ → Kernel
    pedido_hecho k enviado =
        let (p, ps) = crear_pcb k.procesos in
        record {
          hilos = record k.hilos { a_memoria = k.hilos.a_memoria ++ (enviado ∷ []) };
          procesos = record ps { cola_new = push C ps.cola_new p };
        }

    pub crear_proceso-pedido :
        (k : Kernel) (a : Alta) (n : ℕ) (enviado : List ℕ)
        → k.procesos.cola_new ≡ []
        → crear_proceso_memoria e.malloc k.procesos.process_id a.archivo a.tamanio
            e.respuesta_proceso
          ≡ ok (enviado, n)
        → n ≢ 1
        → crear_proceso C e k a
          ≡ ok (record (pedido_hecho k enviado) {
            procesos = record (pedido_hecho k enviado).procesos {
              esperando = k.procesos.esperando ++ (a ∷ []);
            };
          })
    unfolding crear_proceso crear_pcb
    crear_proceso-pedido k a n enviado hv h hn =
        ground (arith, hv, h, hn, (C.cola Puntero).is_empty_nil)

    pub crear_proceso-admitir :
        (k : Kernel) (a : Alta) (enviado : List ℕ)
        → k.procesos.cola_new ≡ []
        → crear_proceso_memoria e.malloc k.procesos.process_id a.archivo a.tamanio
            e.respuesta_proceso
          ≡ ok (enviado, 1)
        → crear_proceso C e k a
          ≡ admitir C e (pedido_hecho k enviado) (some (length k.procesos.pcbs)) a
    unfolding crear_proceso crear_pcb
    crear_proceso-admitir k a enviado hv h = ground (arith, hv, h, (C.cola Puntero).is_empty_nil)

    -- The admission of the last process that was allocated, once its thread is there.
    admitir-ultimo :
        (k : Kernel) (a : Alta) (antes : Heap PcbKernel) (pcb : PcbKernel) (h : Hilos)
        (ids : List ℕ)
        → k.procesos.pcbs ≡ antes ++ (some pcb ∷ [])
        → crear_hilo C e k.hilos a.archivo a.prioridad pcb.pid ≡ ok h
        → h.lista_thread_id ≡ some ids
        → admitir C e k (some (length antes)) a
          ≡ ok (record {
            hilos = record h {
              lista_thread_id = some ((C.lista ℕ).list_add_in_index ids pcb.pid 0);
            };
            procesos = record k.procesos {
              pcbs =
                  set
                    (antes ++ (some pcb ∷ []))
                    (length antes)
                    (some (record pcb { estado = estado_ready }));
              cola_new = ((C.cola Puntero).queue_pop k.procesos.cola_new).1;
              cola_ready = push C k.procesos.cola_ready (some (length antes));
            };
          })
    unfolding admitir cargar guardar_en creada
    admitir-ultimo k a antes pcb h ids hb hh hi =
        ground (arith, hb, hh, hi, get_elem?-append_here antes (some pcb) [])

    -- With FIFO or PRIORIDADES, when cola_new is empty, the lists of the kernel are there, the requests
    -- to the memory fit (malloc returns the blocks asked for, the name has at most 4 characters, the
    -- numbers are words of 32 bits) and the answers are read as 1, crearProceso returns: the process,
    -- with the next identifier, is READY and last in cola_ready, cola_new is empty again, and a thread
    -- of the process with the priority given is last in the queue READY of the threads.
    pub crear_proceso-admite :
        (k : Kernel) (a : Alta) (f : ℕ) (ids : List ℕ) (cola : List Puntero)
        → length (e.malloc 16) ≡ 16
        → length (e.malloc 20) ≡ 20
        → length a.archivo ≤ 4
        → k.procesos.process_id < 2 ^ 32
        → a.tamanio < 2 ^ 32
        → e.tid_inicial < 2 ^ 32
        → a.prioridad < 2 ^ 32
        → leer_respuesta e.malloc e.respuesta_proceso ≡ ok 1
        → leer_respuesta e.malloc e.respuesta_hilo ≡ ok 1
        → k.procesos.cola_new ≡ []
        → k.hilos.lista_thread_id ≡ some ids
        → k.hilos.cola_ready_fifo_prioridades ≡ some cola
        → (e.algoritmo ≡ some fifo) ⊎ (e.algoritmo ≡ some prioridades)
        → e.fuel ≡ suc f
        → (l : Kernel) × (crear_proceso C e k a ≡ ok l)
          × (l.procesos.cola_new ≡ [])
          × (l.procesos.cola_ready ≡ k.procesos.cola_ready ++ (some (length k.procesos.pcbs) ∷ []))
          × (cargar l.procesos.pcbs (some (length k.procesos.pcbs))
              ≡ ok (record {
                pid = k.procesos.process_id;
                estado = estado_ready;
                tids = [];
                mutex = [];
              }))
          × (l.procesos.process_id ≡ k.procesos.process_id + 1)
          × (l.hilos.cola_ready_fifo_prioridades ≡ some (cola ++ (some (length k.hilos.tcbs) ∷ [])))
          × (cargar l.hilos.tcbs (some (length k.hilos.tcbs))
              ≡ ok (tcb_nuevo C e a.prioridad k.procesos.process_id))
    unfolding admitir crear_pcb cargar guardar_en creada
    crear_proceso-admite k a f ids cola hm hn ha hp ht hi hq hr hs hv hids hc hal hf =
        let (enviado, he) =
          crear_proceso_memoria-cabe e.malloc k.procesos.process_id a.archivo a.tamanio
            e.respuesta_proceso 1 hm ha hp ht hr in
        let (h, h1, h2, h3, h4, _) =
          crear_hilo-fifo C e (pedido_hecho k enviado).hilos a.archivo a.prioridad
            k.procesos.process_id 1 f ids cola hn ha hp hi hq hs (ground arith) hids hc hal hf in
        let pcb : PcbKernel = record {
          pid = k.procesos.process_id;
          estado = estado_new;
          tids = [];
          mutex = [];
        } in
        let listo : PcbKernel = record pcb { estado = estado_ready } in
        let nuevos = set ids k.procesos.process_id (ultimo_tid C e ids k.procesos.process_id + 1) in
        (
          record {
            hilos = record h {
              lista_thread_id = some ((C.lista ℕ).list_add_in_index nuevos k.procesos.process_id 0);
            };
            procesos = record (pedido_hecho k enviado).procesos {
              pcbs = set (k.procesos.pcbs ++ (some pcb ∷ [])) (length k.procesos.pcbs) (some listo);
              cola_new =
                  ((C.cola Puntero).queue_pop
                    (push C k.procesos.cola_new (some (length k.procesos.pcbs)))).1;
              cola_ready = push C k.procesos.cola_ready (some (length k.procesos.pcbs));
            };
          },
          crear_proceso-admitir k a enviado hv he
              ∙ admitir-ultimo (pedido_hecho k enviado) a k.procesos.pcbs pcb h nuevos refl h1 h4,
          ground (
            arith,
            hv,
            (C.cola Puntero).push_appends [] (some (length k.procesos.pcbs)),
            (C.cola Puntero).pop_cons (some (length k.procesos.pcbs)) [],
          ),
          (C.cola Puntero).push_appends k.procesos.cola_ready (some (length k.procesos.pcbs)),
          ground (
            arith,
            get_elem?-set (k.procesos.pcbs ++ (some pcb ∷ [])) (length k.procesos.pcbs) (some listo)
                (get_elem?-append_here k.procesos.pcbs (some pcb) []),
          ),
          refl,
          h2,
          h3,
        )
