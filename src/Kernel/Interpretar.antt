-- ===== src/Kernel/Interpretar.antt =====
-- `interpretarCPU` of kernel/src/main.c: what the kernel does with a message of the CPU, one function
-- for each case of its switch. The structures that it allocates for itself are not in the heap.
pub mod Cancelar
use so_tp_2c.Prelude.{
  ℕ, ◌+◌, ◌==◌, ◌&&◌, Bool, true, false, Option, none, some, List, [], ◌∷◌, ◌++◌, if◌then◌else◌,
}
use so_tp_2c.Prelude.Resultado.{
  Resultado, ok, falla, puntero_nulo, fuera_de_bloque, no_inicializado, tipo_erroneo, ◌>>=◌,
}
use so_tp_2c.Commons.{CommonsApi}
use so_tp_2c.Comunes.Texto.{texto_eq}
use so_tp_2c.Comunes.Buffer.{Buffer, buffer_read_uint32, buffer_read_int, buffer_read_string}
use so_tp_2c.Comunes.Serializar.{Tcb, deserializar_tcb}
use so_tp_2c.Comunes.Red.{recibir_buffer, enviar_operacion}
use so_tp_2c.Memoria.Peticiones.{memoria_kernel_memory_dump}
use so_tp_2c.Cpu.Instruccion.{
  Codigo, numero_de, set, read_mem, write_mem, sum, sub, jnz, log, dump_memory, io, process_create,
  thread_create, thread_join, thread_cancel, mutex_create, mutex_lock, mutex_unlock, thread_exit,
  process_exit, resize, copy_string, wait, signal, inst_exit, invalid_instruction,
}
use so_tp_2c.Kernel.Estado.{
  Puntero, Heap, cargar, guardar_en, creada, Hilos, Mutex, PcbKernel, Procesos, Alta, Kernel,
  estado_blocked, estado_ready, estado_exit,
}
use so_tp_2c.Kernel.Hilos.{
  no_es_nulo, agregar_a_lista, obtener_tcb_por_pid_y_tid, quitar_tcb_de_lista_exec_hilo,
  agregar_hilo_a_ready,
}
use so_tp_2c.Kernel.Hilos.Buscar.{buscar_hilo}
use so_tp_2c.Kernel.Hilos.Vida.{Entorno, crear_hilo, finalizar_hilo}
use so_tp_2c.Kernel.Procesos.{obtener_de_exec, crear_proceso, finalizar_proceso}

-- `funcion` as an enumerator of `instruccion`
unfoldable pub codigo_entre : List Codigo → ℕ → Option Codigo
codigo_entre [] n = none
codigo_entre (c ∷ cs) n = if n == numero_de c then some c else codigo_entre cs n

abbrev pub codigos : List Codigo
codigos =
    set ∷ read_mem ∷ write_mem ∷ sum ∷ sub ∷ jnz ∷ log ∷ dump_memory ∷ io ∷ process_create
    ∷ thread_create ∷ thread_join ∷ thread_cancel ∷ mutex_create ∷ mutex_lock ∷ mutex_unlock
    ∷ thread_exit ∷ process_exit ∷ resize ∷ copy_string ∷ wait ∷ signal ∷ inst_exit
    ∷ invalid_instruction ∷ []

-- `OP_OUT_OF_MEMORY`
abbrev op_out_of_memory : ℕ
op_out_of_memory = 2

-- the fields of PROCESS_CREATE
unfoldable pub leer_alta : Buffer → Resultado Alta
unfolding buffer_read_string buffer_read_uint32
leer_alta b = do
  (archivo, b1) ← buffer_read_string b
  (tamanio, b2) ← buffer_read_uint32 b1
  (prioridad, _) ← buffer_read_uint32 b2
  ok (record { archivo = archivo; tamanio = tamanio; prioridad = prioridad })

-- what `interpretarCPU` reads first: the two identifiers, the number of the function, and the buffer
-- with its fields
unfoldable pub leer_cabecera : (ℕ → List ℕ) → List ℕ → Resultado ((ℕ × ℕ) × (ℕ × Buffer))
unfolding recibir_buffer deserializar_tcb buffer_read_uint32
leer_cabecera malloc entrada = do
  (b, _) ← recibir_buffer malloc entrada
  (t, b1) ← deserializar_tcb b
  (funcion, b2) ← buffer_read_int b1
  ok ((t.pid, t.tid), (funcion, b2))

module _ (C : CommonsApi) where
  -- the loop of `buscar_mutex`
  unfoldable pub buscar_mutex : List Mutex → List ℕ → Option Mutex
  unfolding texto_eq
  buscar_mutex [] recurso = none
  buscar_mutex (m ∷ ms) recurso =
      if texto_eq m.recurso recurso then some m else buscar_mutex ms recurso

  unfoldable pub atender_mutex_lock : Kernel → ℕ → ℕ → Buffer → Resultado Kernel
  unfolding buffer_read_string obtener_de_exec obtener_tcb_por_pid_y_tid cargar buscar_mutex
  atender_mutex_lock k pid tid b = do
    (recurso, _) ← buffer_read_string b
    (q, ps) ← obtener_de_exec C k.procesos pid
    p ← obtener_tcb_por_pid_y_tid C k.hilos.tcbs k.hilos.lista_exec_hilo pid tid
    pcb ← cargar ps.pcbs q
    elim (buscar_mutex pcb.mutex recurso) [
      | none ↦ ok (record k { procesos = ps })
      | some m ↦ elim m.tomado [
        | true ↦ falla no_inicializado
        | false ↦ do _ ← cargar k.hilos.tcbs p; falla no_inicializado
      ]
    ]

  -- `mutex`, declared in another case, has no value.
  unfoldable pub atender_mutex_unlock : Kernel → ℕ → ℕ → Buffer → Resultado Kernel
  unfolding buffer_read_string obtener_de_exec obtener_tcb_por_pid_y_tid cargar
  atender_mutex_unlock k pid tid b = do
    (_, b1) ← buffer_read_string b
    (_, _) ← buffer_read_string b1
    (q, ps) ← obtener_de_exec C k.procesos pid
    _ ← obtener_tcb_por_pid_y_tid C k.hilos.tcbs k.hilos.lista_exec_hilo pid tid
    _ ← cargar ps.pcbs q
    falla no_inicializado

  module _ (e : Entorno) where
    -- The first list is the TCB itself, whose PID and TID stand where a list has the pointer to its head:
    -- it is an empty list when both are 0. The message sent is the one received.
    unfoldable pub atender_dump_memory : Kernel → ℕ → ℕ → Buffer → Resultado Kernel
    unfolding obtener_tcb_por_pid_y_tid guardar_en cargar creada quitar_tcb_de_lista_exec_hilo
        finalizar_hilo enviar_operacion
    atender_dump_memory k pid tid b =
        let h = k.hilos in
        do
          p ← obtener_tcb_por_pid_y_tid C h.tcbs h.lista_exec_hilo pid tid
          t ← cargar h.tcbs p
          m ← guardar_en h.tcbs p (record t { estado = estado_blocked })
          elim ((t.pid == 0) && (t.tid == 0)) [
            | false ↦ falla tipo_erroneo
            | true ↦ do
              bloq ← creada h.lista_bloq_hilo
              enviado ← enviar_operacion memoria_kernel_memory_dump b
              let h1 : Hilos = record h {
                tcbs = m;
                lista_bloq_hilo = some (agregar_a_lista C bloq p);
                a_memoria = h.a_memoria ++ (enviado ∷ []);
              }
              elim e.dump_negativo [
                | true ↦ do
                  m1 ← guardar_en m p (record t { estado = estado_exit })
                  exec ← quitar_tcb_de_lista_exec_hilo C m1 h.lista_exec_hilo pid tid
                  h' ← finalizar_hilo C e (record h1 { tcbs = m1; lista_exec_hilo = some exec }) p
                  ok (record k { hilos = h' })
                | false ↦ do
                  m1 ← guardar_en m p (record t { estado = estado_ready })
                  bloq' ← quitar_tcb_de_lista_exec_hilo C m1 h1.lista_bloq_hilo pid tid
                  exec ← creada h.lista_exec_hilo
                  ok (record k {
                    hilos = record h1 {
                      tcbs = m1;
                      lista_bloq_hilo = some bloq';
                      lista_exec_hilo = some (agregar_a_lista C exec p);
                    };
                  })
              ]
          ]

    unfoldable pub atender_io : Kernel → ℕ → ℕ → Buffer → Resultado Kernel
    unfolding buffer_read_uint32 obtener_tcb_por_pid_y_tid quitar_tcb_de_lista_exec_hilo
        agregar_hilo_a_ready
    atender_io k pid tid b = do
      (_, _) ← buffer_read_uint32 b
      p ← obtener_tcb_por_pid_y_tid C k.hilos.tcbs k.hilos.lista_exec_hilo pid tid
      exec ← quitar_tcb_de_lista_exec_hilo C k.hilos.tcbs k.hilos.lista_exec_hilo pid tid
      h ←
          agregar_hilo_a_ready C e.algoritmo e.fuel (record k.hilos { lista_exec_hilo = some exec })
            p
      ok (record k { hilos = h })

    unfoldable pub atender_process_create : Kernel → Buffer → Resultado Kernel
    unfolding leer_alta crear_proceso
    atender_process_create k b = do a ← leer_alta b; crear_proceso C e k a

    unfoldable pub atender_thread_create : Kernel → ℕ → Buffer → Resultado Kernel
    unfolding buffer_read_string buffer_read_uint32 crear_hilo
    atender_thread_create k pid b = do
      (archivo, b1) ← buffer_read_string b
      (prioridad, _) ← buffer_read_uint32 b1
      h ← crear_hilo C e k.hilos archivo prioridad pid
      ok (record k { hilos = h })

    -- The block of the dependency has the size of a pointer, since its variable has the name of its
    -- type: the second of its two pointers does not fit.
    unfoldable pub atender_thread_join : Kernel → ℕ → Buffer → Resultado Kernel
    unfolding buffer_read_uint32 buscar_hilo obtener_tcb_por_pid_y_tid
    atender_thread_join k pid b = do
      (tid, _) ← buffer_read_uint32 b
      (p, h) ← buscar_hilo C e.algoritmo k.hilos pid tid
      elim (no_es_nulo p) [
        | false ↦ ok (record k { hilos = h })
        | true ↦ do
          _ ← obtener_tcb_por_pid_y_tid C h.tcbs h.lista_exec_hilo pid tid
          falla fuera_de_bloque
      ]

    unfoldable pub atender_thread_cancel : Kernel → ℕ → Buffer → Resultado Kernel
    unfolding buffer_read_uint32 buscar_hilo cargar guardar_en finalizar_hilo
    atender_thread_cancel k pid b = do
      (tid, _) ← buffer_read_uint32 b
      (p, h) ← buscar_hilo C e.algoritmo k.hilos pid tid
      t ← cargar h.tcbs p
      m ← guardar_en h.tcbs p (record t { estado = estado_exit })
      h' ← finalizar_hilo C e (record h { tcbs = m }) p
      ok (record k { hilos = h' })

    unfoldable pub atender_mutex_create : Kernel → ℕ → ℕ → Buffer → Resultado Kernel
    unfolding buffer_read_string obtener_de_exec buscar_hilo cargar guardar_en
    atender_mutex_create k pid tid b = do
      (recurso, _) ← buffer_read_string b
      (q, ps) ← obtener_de_exec C k.procesos pid
      (_, h) ← buscar_hilo C e.algoritmo k.hilos pid tid
      pcb ← cargar ps.pcbs q
      let nuevo : Mutex = record {
        recurso = recurso;
        tomado = false;
        bloqueado = false;
        hilo_actual = 0;
      }
      m ← guardar_en ps.pcbs q (record pcb { mutex = agregar_a_lista C pcb.mutex nuevo })
      ok (record { hilos = h; procesos = record ps { pcbs = m } })

    unfoldable pub atender_thread_exit : Kernel → ℕ → ℕ → Resultado Kernel
    unfolding obtener_tcb_por_pid_y_tid cargar guardar_en quitar_tcb_de_lista_exec_hilo
        finalizar_hilo
    atender_thread_exit k pid tid =
        let h = k.hilos in
        do
          p ← obtener_tcb_por_pid_y_tid C h.tcbs h.lista_exec_hilo pid tid
          t ← cargar h.tcbs p
          m ← guardar_en h.tcbs p (record t { estado = estado_exit })
          exec ← quitar_tcb_de_lista_exec_hilo C m h.lista_exec_hilo pid tid
          h' ← finalizar_hilo C e (record h { tcbs = m; lista_exec_hilo = some exec }) p
          ok (record k { hilos = h' })

    -- the end of the process in `cola_exec`, for WRITE_MEM and PROCESS_EXIT
    unfoldable pub terminar_proceso : Kernel → ℕ → Resultado Kernel
    unfolding obtener_de_exec finalizar_proceso
    terminar_proceso k pid = do
      (q, ps) ← obtener_de_exec C k.procesos pid
      finalizar_proceso C e (record k { procesos = ps }) q

    unfoldable pub atender_write_mem : Kernel → ℕ → Buffer → Resultado Kernel
    unfolding buffer_read_uint32 terminar_proceso
    atender_write_mem k pid b = do
      (error, _) ← buffer_read_int b
      if error == op_out_of_memory then terminar_proceso k pid else ok k

    unfoldable pub atender_process_exit : Kernel → ℕ → ℕ → Resultado Kernel
    unfolding terminar_proceso
    atender_process_exit k pid tid = if tid == 0 then terminar_proceso k pid else ok k

    -- the switch; `none` is a number that no enumerator has
    unfoldable pub atender_llamada : Kernel → ℕ → ℕ → Buffer → Option Codigo → Resultado Kernel
    unfolding atender_dump_memory atender_io atender_process_create atender_thread_create
        atender_thread_join atender_thread_cancel atender_mutex_create atender_mutex_lock
        atender_mutex_unlock atender_thread_exit atender_write_mem atender_process_exit
    atender_llamada k pid tid b (some dump_memory) = atender_dump_memory k pid tid b
    atender_llamada k pid tid b (some io) = atender_io k pid tid b
    atender_llamada k pid tid b (some process_create) = atender_process_create k b
    atender_llamada k pid tid b (some thread_create) = atender_thread_create k pid b
    atender_llamada k pid tid b (some thread_join) = atender_thread_join k pid b
    atender_llamada k pid tid b (some thread_cancel) = atender_thread_cancel k pid b
    atender_llamada k pid tid b (some mutex_create) = atender_mutex_create k pid tid b
    atender_llamada k pid tid b (some mutex_lock) = atender_mutex_lock k pid tid b
    atender_llamada k pid tid b (some mutex_unlock) = atender_mutex_unlock k pid tid b
    atender_llamada k pid tid b (some thread_exit) = atender_thread_exit k pid tid
    atender_llamada k pid tid b (some write_mem) = atender_write_mem k pid b
    atender_llamada k pid tid b (some process_exit) = atender_process_exit k pid tid
    atender_llamada k pid tid b _ = ok k

    unfoldable pub interpretar_cpu : Kernel → List ℕ → Resultado Kernel
    unfolding leer_cabecera codigo_entre numero_de atender_llamada
    interpretar_cpu k entrada = do
      ((pid, tid), (funcion, b)) ← leer_cabecera e.malloc entrada
      atender_llamada k pid tid b (codigo_entre codigos funcion)
