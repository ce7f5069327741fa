-- ===== src/Kernel/Procesos.antt =====
-- The long-term planner: the part PROCESOS of kernel/src/k_largo_plazo.c, and `obtener_PCB_por_PID`
-- of kernel/src/main.c on pointers.
pub mod Altas
pub mod Atasco
pub mod Cierre
use so_tp_2c.Prelude.{
  ℕ, zero, suc, ◌+◌, ◌-◌, ◌==◌, Bool, true, false, Option, none, some, List, [], ◌∷◌, ◌++◌, length,
  if◌then◌else◌,
}
use so_tp_2c.Prelude.Resultado.{Resultado, ok, falla, puntero_nulo, sin_fin, ◌>>=◌}
use so_tp_2c.Commons.{CommonsApi}
use so_tp_2c.Kernel.Estado.{
  Puntero, Heap, cargar, guardar_en, liberar, aplanar, creada, Hilos, PcbKernel, Procesos, Alta,
  Kernel, estado_new, estado_ready,
}
use so_tp_2c.Kernel.Pedidos.{crear_proceso_memoria, finalizar_proceso_memoria}
use so_tp_2c.Kernel.Hilos.{push, obtener_tcb_por_pid_y_tid, quitar_tcb_de_lista_exec_hilo}
use so_tp_2c.Kernel.Hilos.Vida.{Entorno, crear_hilo}

unfoldable pub crear_pcb : Procesos → Puntero × Procesos
crear_pcb ps = (
  some (length ps.pcbs),
  record ps {
    pcbs =
        ps.pcbs
        ++ (some (record { pid = ps.process_id; estado = estado_new; tids = []; mutex = [] }) ∷ []);
    process_id = ps.process_id + 1;
  },
)

module _ (C : CommonsApi) where
  -- the loop of `obtener_PCB_por_PID`, on how many turns are left
  unfoldable pub rotar_pcbs :
      Heap PcbKernel → ℕ → List Puntero → ℕ → Resultado (Puntero × List Puntero)
  unfolding cargar
  rotar_pcbs m zero cola pid = ok (none, cola)
  rotar_pcbs m (suc n) cola pid =
      let (frente, cola') = (C.cola Puntero).queue_pop cola in
      do
        pcb ← cargar m (aplanar frente)
        elim (pcb.pid == pid) [
          | true ↦ ok (aplanar frente, cola')
          | false ↦ rotar_pcbs m n (push C cola' (aplanar frente)) pid
        ]

  -- the process in `cola_exec`, which it leaves
  unfoldable pub obtener_de_exec : Procesos → ℕ → Resultado (Puntero × Procesos)
  unfolding rotar_pcbs
  obtener_de_exec ps pid = do
    (p, cola) ← rotar_pcbs ps.pcbs ((C.cola Puntero).queue_size ps.cola_exec) ps.cola_exec pid
    ok (p, record ps { cola_exec = cola })

  module _ (e : Entorno) where
    -- memory has room: the process goes to READY with its first thread
    unfoldable pub admitir : Kernel → Puntero → Alta → Resultado Kernel
    unfolding cargar guardar_en crear_hilo
    admitir k p a =
        let ps = k.procesos in
        do
          pcb ← cargar ps.pcbs p
          m ← guardar_en ps.pcbs p (record pcb { estado = estado_ready })
          h ← crear_hilo C e k.hilos a.archivo a.prioridad pcb.pid
          ids ← creada h.lista_thread_id
          ok (record {
            hilos = record h {
              lista_thread_id = some ((C.lista ℕ).list_add_in_index ids pcb.pid 0);
            };
            procesos = record ps {
              pcbs = m;
              cola_new = ((C.cola Puntero).queue_pop ps.cola_new).1;
              cola_ready = push C ps.cola_ready p;
            };
          })

    -- A call that has to wait for a process to end stays in `esperando`.
    unfoldable pub crear_proceso : Kernel → Alta → Resultado Kernel
    unfolding crear_pcb crear_proceso_memoria admitir
    crear_proceso k a =
        let (p, ps) = crear_pcb k.procesos in
        let nuevo = record ps { cola_new = push C ps.cola_new p } in
        elim ((C.cola Puntero).queue_is_empty k.procesos.cola_new) [
          | false ↦ ok (record k { procesos = nuevo })
          | true ↦ do
            (enviado, respuesta) ←
                crear_proceso_memoria e.malloc k.procesos.process_id a.archivo a.tamanio
                  e.respuesta_proceso
            let h : Hilos = record k.hilos { a_memoria = k.hilos.a_memoria ++ (enviado ∷ []) }
            elim (respuesta == 1) [
              | true ↦ admitir (record { hilos = h; procesos = nuevo }) p a
              | false ↦ ok (record {
                hilos = h;
                procesos = record nuevo { esperando = nuevo.esperando ++ (a ∷ []) };
              })
            ]
        ]

    -- The semaphore and the waiting calls are given: a call that `sem_wait` lets go on calls
    -- crearProceso again. Without a call or without a permit nothing happens.
    unfoldable pub reanudar_con : Kernel → ℕ → List Alta → Resultado Kernel
    unfolding crear_proceso
    reanudar_con k zero altas = ok k
    reanudar_con k (suc n) [] = ok k
    reanudar_con k (suc n) (a ∷ altas) =
        crear_proceso
          (record k { procesos = record k.procesos { sem_nuevo_proceso = n; esperando = altas } }) a

    abbrev pub reanudar : Kernel → Resultado Kernel
    reanudar k = reanudar_con k k.procesos.sem_nuevo_proceso k.procesos.esperando

    abbrev pub crear_proceso_inicial : Kernel → List ℕ → ℕ → Resultado Kernel
    crear_proceso_inicial k archivo tamanio =
        crear_proceso k (record { archivo = archivo; tamanio = tamanio; prioridad = 0 })

  -- `while (count != 0)`, on fuel: nothing changes `count`
  unfoldable pub cerrar_hilos : ℕ → Hilos → ℕ → List ℕ → ℕ → Resultado Hilos
  unfolding obtener_tcb_por_pid_y_tid quitar_tcb_de_lista_exec_hilo liberar
  cerrar_hilos fuel h pid tids zero = ok h
  cerrar_hilos zero h pid tids (suc c) = falla sin_fin
  cerrar_hilos (suc n) h pid tids (suc c) =
      let tid = elim ((C.lista ℕ).list_get tids c) as (λ _. ℕ) [ none ↦ 0 | some t ↦ t ] in
      do
        p ← obtener_tcb_por_pid_y_tid C h.tcbs h.lista_exec_hilo pid tid
        exec ← quitar_tcb_de_lista_exec_hilo C h.tcbs h.lista_exec_hilo pid tid
        m ← liberar h.tcbs p
        cerrar_hilos n (record h { tcbs = m; lista_exec_hilo = some exec }) pid tids (suc c)

  module _ (e : Entorno) where
    unfoldable pub finalizar_proceso : Kernel → Puntero → Resultado Kernel
    unfolding cargar liberar finalizar_proceso_memoria cerrar_hilos
    finalizar_proceso k p =
        let ps = k.procesos in
        do
          pcb ← cargar ps.pcbs p
          (enviado, respuesta) ← finalizar_proceso_memoria e.malloc pcb.pid e.respuesta_proceso
          let h : Hilos = record k.hilos { a_memoria = k.hilos.a_memoria ++ (enviado ∷ []) }
          elim (respuesta == 1) [
            | false ↦ ok (record {
              hilos = h;
              procesos = record ps { sem_nuevo_proceso = ps.sem_nuevo_proceso + 1 };
            })
            | true ↦ do
              h' ← cerrar_hilos e.fuel h pcb.pid pcb.tids ((C.lista ℕ).list_size pcb.tids)
              m ← liberar ps.pcbs p
              ok (record {
                hilos = h';
                procesos = record ps { pcbs = m; sem_nuevo_proceso = ps.sem_nuevo_proceso + 1 };
              })
          ]
