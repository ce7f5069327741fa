-- ===== src/Kernel/Hilos/Vida.antt =====
-- The life of a thread: `crear_tcb`, `crear_hilo` and `finalizar_hilo` of
-- kernel/src/k_largo_plazo.c, and `get_next_thread` of kernel/src/k_corto_plazo.c.
use so_tp_2c.Prelude.{
  ℕ, ◌+◌, ◌==◌, Bool, true, false, Option, none, some, List, [], ◌∷◌, ◌++◌, length, get_elem?, set,
  if◌then◌else◌,
}
use so_tp_2c.Prelude.Resultado.{Resultado, ok, falla, fuera_de_bloque, ◌>>=◌}
use so_tp_2c.Commons.{CommonsApi}
use so_tp_2c.Kernel.Colas.Prioridad.{Algoritmo}
use so_tp_2c.Kernel.Estado.{Puntero, cargar, liberar, creada, aplanar, Hilos, estado_ready}
use so_tp_2c.Kernel.Pedidos.{crear_hilo_memoria, finalizar_hilo_memoria}
use so_tp_2c.Kernel.Hilos.{liberar_tcb, agregar_hilo_a_ready}

-- What surrounds a call: the blocks that `malloc` gives, what it leaves in the field TID of a new
-- thread, the answers of the memory module about a process and about a thread, the algorithm of the
-- configuration, the fuel of the calls inside one another, and whether the pointer that RecibirBuffer
-- returns is negative as an int, which DUMP_MEMORY asks.
pub record Entorno : Type 0 where
  pub malloc : ℕ → List ℕ
  pub tid_inicial : ℕ
  pub respuesta_proceso : List ℕ
  pub respuesta_hilo : List ℕ
  pub algoritmo : Option Algoritmo
  pub fuel : ℕ
  pub dump_negativo : Bool

module _ (C : CommonsApi) (e : Entorno) where
  -- `list_get` of a counter: NULL reads as 0
  abbrev pub ultimo_tid : List ℕ → ℕ → ℕ
  ultimo_tid ids pid = elim ((C.lista ℕ).list_get ids pid) [ none ↦ 0 | some n ↦ n ]

  -- The TID is not set.
  unfoldable pub crear_tcb : Hilos → ℕ → ℕ → Resultado (Puntero × Hilos)
  unfolding creada
  crear_tcb h prioridad pid = do
    ids ← creada h.lista_thread_id
    ok (
      some (length h.tcbs),
      record h {
        tcbs =
            h.tcbs
            ++ (some (record {
              pid = pid;
              tid = e.tid_inicial;
              prioridad = prioridad;
              estado = estado_ready;
            })
                ∷ []);
        lista_thread_id = some ((C.lista ℕ).list_replace ids pid (ultimo_tid ids pid + 1));
      },
    )

  unfoldable pub crear_hilo : Hilos → List ℕ → ℕ → ℕ → Resultado Hilos
  unfolding crear_tcb crear_hilo_memoria liberar_tcb agregar_hilo_a_ready cargar
  crear_hilo h archivo prioridad pid = do
    (p, h1) ← crear_tcb h prioridad pid
    t ← cargar h1.tcbs p
    (enviado, respuesta) ← crear_hilo_memoria e.malloc t archivo e.respuesta_hilo
    let h2 : Hilos = record h1 { a_memoria = h1.a_memoria ++ (enviado ∷ []) }
    if respuesta == 0
        then liberar_tcb C (agregar_hilo_a_ready C e.algoritmo e.fuel) h2 p
        else agregar_hilo_a_ready C e.algoritmo e.fuel h2 p

  -- The queues and lists that still hold the thread are left as they are. The log line reads the
  -- thread before it is freed.
  unfoldable pub finalizar_hilo : Hilos → Puntero → Resultado Hilos
  unfolding finalizar_hilo_memoria liberar_tcb agregar_hilo_a_ready cargar liberar
  finalizar_hilo h none = ok h
  finalizar_hilo h (some i) = do
    t ← cargar h.tcbs (some i)
    (enviado, respuesta) ← finalizar_hilo_memoria e.malloc t e.respuesta_hilo
    let h1 : Hilos = record h { a_memoria = h.a_memoria ++ (enviado ∷ []) }
    elim (respuesta == 0) [
      | true ↦ ok h1
      | false ↦ do
        h2 ← liberar_tcb C (agregar_hilo_a_ready C e.algoritmo e.fuel) h1 (some i)
        _ ← cargar h2.tcbs (some i)
        m ← liberar h2.tcbs (some i)
        ok (record h2 { tcbs = m })
    ]

module _ (C : CommonsApi) where
  unfoldable pub get_next_thread : Hilos → ℕ → Resultado (Puntero × Hilos)
  unfolding creada
  get_next_thread h prioridad = elim (get_elem? h.colas_ready_cmn prioridad) [
    | none ↦ falla fuera_de_bloque
    | some nivel ↦ do
      cola ← creada nivel
      if (C.cola Puntero).queue_is_empty cola
          then ok (none, h)
          else (let (frente, cola') = (C.cola Puntero).queue_pop cola in
              ok (
                aplanar frente,
                record h { colas_ready_cmn = set h.colas_ready_cmn prioridad (some cola') },
              ))
  ]
