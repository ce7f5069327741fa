-- ===== src/Kernel/Interpretar/Cancelar.antt =====
-- The two calls of kernel/src/main.c that end a thread, THREAD_EXIT and THREAD_CANCEL, and what the list
-- of threads in execution holds after them.
use so_tp_2c.Prelude.{
  ℕ, ◌^◌, ◌<◌, ◌≡◌, ◌≢◌, refl, false, none, some, List, [], ◌∷◌, ◌++◌, arith, length, get_elem?,
  set, get_elem?-set,
}
use so_tp_2c.Prelude.Resultado.{ok, falla, uso_tras_free}
use so_tp_2c.Commons.{CommonsApi}
use so_tp_2c.Comunes.Bytes.{le32}
use so_tp_2c.Comunes.Buffer.{Buffer}
use so_tp_2c.Comunes.Buffer.Leyes.{Ante, buffer_read_uint32-Ante}
use so_tp_2c.Comunes.Serializar.{Tcb}
use so_tp_2c.Kernel.Estado.{
  Puntero, Heap, Dependencia, cargar, guardar_en, creada, Hilos, Kernel, comparar_por_pid_y_tid,
  estado_exit,
}
use so_tp_2c.Kernel.Pedidos.{leer_respuesta}
use so_tp_2c.Kernel.Hilos.{dependiente_en, obtener_tcb_por_pid_y_tid, quitar_tcb_de_lista_exec_hilo}
use so_tp_2c.Kernel.Hilos.Buscar.{buscar_hilo}
use so_tp_2c.Kernel.Hilos.Vida.{Entorno}
use so_tp_2c.Kernel.Hilos.Fin.{finalizar_hilo-libera}
use so_tp_2c.Kernel.Interpretar.{atender_thread_cancel, atender_thread_exit}

module _ (C : CommonsApi) where
  -- the first of the list has the two identifiers
  obtener-primero :
      (m : Heap Tcb) (i : ℕ) (ps : List Puntero) (t : Tcb)
      → get_elem? m i ≡ some (some t)
      → obtener_tcb_por_pid_y_tid C m (some (some i ∷ ps)) t.pid t.tid ≡ ok (some i)
  unfolding obtener_tcb_por_pid_y_tid comparar_por_pid_y_tid cargar
  obtener-primero m i ps t hi = ground (
    arith,
    hi,
    (C.lista Puntero).list_find_first (some i ∷ ps) (comparar_por_pid_y_tid m t.pid t.tid),
  )

  quitar-primero :
      (m : Heap Tcb) (i : ℕ) (ps : List Puntero) (t : Tcb)
      → get_elem? m i ≡ some (some t)
      → quitar_tcb_de_lista_exec_hilo C m (some (some i ∷ ps)) t.pid t.tid ≡ ok ps
  unfolding quitar_tcb_de_lista_exec_hilo comparar_por_pid_y_tid cargar creada
  quitar-primero m i ps t hi = ground (
    arith,
    hi,
    (C.lista Puntero).list_remove_first (some i ∷ ps) (comparar_por_pid_y_tid m t.pid t.tid),
  )

  -- the first of the list was freed
  obtener-colgante :
      (m : Heap Tcb) (i pid tid : ℕ) (ps : List Puntero)
      → get_elem? m i ≡ some none
      → obtener_tcb_por_pid_y_tid C m (some (some i ∷ ps)) pid tid ≡ falla uso_tras_free
  unfolding obtener_tcb_por_pid_y_tid comparar_por_pid_y_tid cargar
  obtener-colgante m i pid tid ps hi = ground (
    arith,
    hi,
    (C.lista Puntero).list_find_first (some i ∷ ps) (comparar_por_pid_y_tid m pid tid),
  )

  module _ (e : Entorno) (k : Kernel) (i n : ℕ) (t : Tcb) (ps : List Puntero)
      (ds : List Dependencia) (hm : length (e.malloc 8) ≡ 8)
      (hr : leer_respuesta e.malloc e.respuesta_hilo ≡ ok n) (hn : n ≢ 0)
      (hi : get_elem? k.hilos.tcbs i ≡ some (some t))
      (hx : k.hilos.lista_exec_hilo ≡ some (some i ∷ ps))
      (hd : k.hilos.lista_dependencias ≡ some ds) (hs : dependiente_en C ds (some i) ≡ false) where
    abbrev terminado : Tcb
    terminado = record t { estado = estado_exit }

    abbrev marcado : Heap Tcb
    marcado = set k.hilos.tcbs i (some terminado)

    marcado-aqui : get_elem? marcado i ≡ some (some terminado)
    marcado-aqui = get_elem?-set k.hilos.tcbs i (some terminado) hi

    -- The section's conditions are that malloc returns the block asked for, the answer of the memory is
    -- read as a number other than 0, and the thread is live, first in execution, and waited for by no
    -- other. THREAD_EXIT of it returns: the thread is freed and out of the list of threads in execution.
    pub atender_thread_exit-limpio :
        (l : Kernel) × (atender_thread_exit C e k t.pid t.tid ≡ ok l)
        × (l.hilos.lista_exec_hilo ≡ some ps)
        × (cargar l.hilos.tcbs (some i) ≡ falla uso_tras_free)
    unfolding atender_thread_exit cargar guardar_en
    atender_thread_exit-limpio =
        let h : Hilos = record k.hilos { tcbs = marcado; lista_exec_hilo = some ps } in
        let (enviado, he) =
          finalizar_hilo-libera C e h i n terminado ds hm hr hn marcado-aqui hd hs in
        (
          record k {
            hilos = record h {
              tcbs = set marcado i none;
              a_memoria = h.a_memoria ++ (enviado ∷ []);
            };
          },
          ground (
            arith,
            hi,
            hx,
            he,
            obtener-primero k.hilos.tcbs i ps t hi,
            quitar-primero marcado i ps terminado marcado-aqui,
          ),
          refl,
          ground (arith, get_elem?-set marcado i none marcado-aqui),
        )

    -- Under the same conditions, THREAD_CANCEL of it by a thread of its process frees it too, but
    -- leaves its pointer first in the list of threads in execution, so that the next search in that list,
    -- for any thread, reads freed memory. The TID in the message is a word of 32 bits.
    pub atender_thread_cancel-colgante :
        (b : Buffer) (resto : List ℕ)
        → t.tid < 2 ^ 32
        → Ante b (le32 t.tid ++ resto)
        → (l : Kernel) × (atender_thread_cancel C e k t.pid b ≡ ok l)
          × ((pid tid : ℕ)
              → obtener_tcb_por_pid_y_tid C l.hilos.tcbs l.hilos.lista_exec_hilo pid tid
                ≡ falla uso_tras_free)
    unfolding atender_thread_cancel buscar_hilo cargar guardar_en
    atender_thread_cancel-colgante b resto ht v =
        let h : Hilos = record k.hilos { tcbs = marcado } in
        let (enviado, he) =
          finalizar_hilo-libera C e h i n terminado ds hm hr hn marcado-aqui hd hs in
        (
          record k {
            hilos = record h {
              tcbs = set marcado i none;
              a_memoria = h.a_memoria ++ (enviado ∷ []);
            };
          },
          ground (
            arith,
            hi,
            hx,
            he,
            obtener-primero k.hilos.tcbs i ps t hi,
            (buffer_read_uint32-Ante b t.tid resto ht v).0,
          ),
          λ pid tid. ground (
            arith,
            hx,
            obtener-colgante (set marcado i none) i pid tid ps
                (get_elem?-set marcado i none marcado-aqui),
          ),
        )
