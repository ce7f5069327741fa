-- ===== src/Kernel/Pasos/Llamadas.antt =====
-- What the system calls get in the states that the kernel reaches.
use so_tp_2c.Prelude.{ℕ, ◌≡◌, [], List, some, arith}
use so_tp_2c.Prelude.Resultado.{ok, falla, puntero_nulo}
use so_tp_2c.Commons.{CommonsApi}
use so_tp_2c.Comunes.Buffer.{Buffer, buffer_read_string}
use so_tp_2c.Cpu.Instruccion.{mutex_create, mutex_lock, process_exit}
use so_tp_2c.Kernel.Estado.{Puntero, cargar, Hilos, Kernel}
use so_tp_2c.Kernel.Hilos.{obtener_tcb_por_pid_y_tid}
use so_tp_2c.Kernel.Hilos.Buscar.{buscar_hilo}
use so_tp_2c.Kernel.Hilos.Vida.{Entorno}
use so_tp_2c.Kernel.Procesos.{finalizar_proceso}
use so_tp_2c.Kernel.Interpretar.{
  atender_llamada, atender_process_exit, atender_mutex_create, atender_mutex_lock, terminar_proceso,
}
use so_tp_2c.Kernel.Pasos.{Alcanza}
use so_tp_2c.Kernel.Pasos.Invariantes.{obtener_de_exec-vacia}
use so_tp_2c.Kernel.Pasos.Invariantes.Atascado.{Alcanza-SinExec}

-- In every state that the kernel reaches from one with no process in cola_exec, MUTEX_CREATE, MUTEX_LOCK
-- and PROCESS_EXIT of the thread 0, of any process, read through NULL the process that
-- obtener_PCB_por_PID does not find, when the name of the resource can be read from the message and the
-- two searches for the thread return.
pub atender_llamada-nulo :
    (C : CommonsApi) (k l : Kernel) (e : Entorno) (pid tid : ℕ) (b b1 : Buffer) (recurso : List ℕ)
    (p q : Puntero) (h : Hilos)
    → k.procesos.cola_exec ≡ []
    → Alcanza C k l
    → buffer_read_string b ≡ ok (recurso, b1)
    → obtener_tcb_por_pid_y_tid C l.hilos.tcbs l.hilos.lista_exec_hilo pid tid ≡ ok p
    → buscar_hilo C e.algoritmo l.hilos pid tid ≡ ok (q, h)
    → (atender_llamada C e l pid tid b (some mutex_create) ≡ falla puntero_nulo)
      × (atender_llamada C e l pid tid b (some mutex_lock) ≡ falla puntero_nulo)
      × (atender_llamada C e l pid 0 b (some process_exit) ≡ falla puntero_nulo)
unfolding atender_llamada atender_process_exit atender_mutex_create atender_mutex_lock
    terminar_proceso finalizar_proceso cargar
atender_llamada-nulo C k l e pid tid b b1 recurso p q h v r hb hp hq =
    let nadie = obtener_de_exec-vacia C l.procesos pid (Alcanza-SinExec C v r) in
    (ground (arith, hb, nadie, hq), ground (arith, hb, nadie, hp), ground (arith, nadie))
