-- ===== src/Kernel/Pasos/Invariantes.antt =====
-- What every step of the kernel keeps: `Conservada` gathers what a property of the processes has to
-- meet for that.
pub mod Atascado
use so_tp_2c.Prelude.{
  ℕ, zero, suc, ◌≡◌, sym, subst, Bool-cases, inl, inr, List, [], Option, none, some, arith, ◌==◌,
}
use so_tp_2c.Prelude.Resultado.{Resultado, ok, falla, Resultado-cases}
use so_tp_2c.Commons.{CommonsApi}
use so_tp_2c.Comunes.Buffer.{Buffer, buffer_read_uint32}
use so_tp_2c.Comunes.Serializar.{deserializar_tcb}
use so_tp_2c.Comunes.Red.{recibir_buffer}
use so_tp_2c.Cpu.Instruccion.{
  Codigo, set, read_mem, write_mem, sum, sub, jnz, log, dump_memory, io, process_create,
  thread_create, thread_join, thread_cancel, mutex_create, mutex_lock, mutex_unlock, thread_exit,
  process_exit, resize, copy_string, wait, signal, inst_exit, invalid_instruction,
}
use so_tp_2c.Kernel.Estado.{Puntero, Procesos, Kernel, Alta, cargar}
use so_tp_2c.Kernel.Hilos.Vida.{Entorno}
use so_tp_2c.Kernel.Procesos.{
  rotar_pcbs, obtener_de_exec, crear_proceso, reanudar, finalizar_proceso,
}
use so_tp_2c.Kernel.Interpretar.{
  atender_dump_memory, atender_io, atender_process_create, atender_thread_create,
  atender_thread_join, atender_thread_cancel, atender_mutex_create, atender_mutex_lock,
  atender_mutex_unlock, atender_thread_exit, atender_write_mem, atender_process_exit,
  terminar_proceso, leer_alta, leer_cabecera, codigo_entre, codigos, atender_llamada,
  interpretar_cpu,
}
use so_tp_2c.Kernel.Planificador.{
  Ronda, sigue, ejecutar_hilo, despachar_fifo, ronda_fifo, despachar_prioridades, ronda_prioridades,
  atender_nivel, atender_niveles, atender_cmn,
}
use so_tp_2c.Kernel.Planificador.Despacho.{
  ronda_fifo-procesos, ronda_prioridades-procesos, atender_cmn-procesos,
}
use so_tp_2c.Kernel.Pasos.{
  Paso, crea, reanuda, interpreta, planifica_fifo, planifica_prioridades, planifica_cmn, Alcanza,
  aqui, luego,
}

-- A property of the processes that has none in cola_exec, and that a new process and a call that goes
-- on keep.
pub record Conservada (C : CommonsApi) (J : Procesos → Type 0) : Type 0 where
  pub vacia : {ps : Procesos} → J ps → ps.cola_exec ≡ []
  pub con_alta :
      (e : Entorno) (k l : Kernel) (a : Alta)
      → J k.procesos
      → crear_proceso C e k a ≡ ok l
      → J l.procesos
  pub con_permiso :
      (e : Entorno) (k l : Kernel) → J k.procesos → reanudar C e k ≡ ok l → J l.procesos

-- With no process in cola_exec the search gives NULL.
pub obtener_de_exec-vacia :
    (C : CommonsApi) (ps : Procesos) (pid : ℕ)
    → ps.cola_exec ≡ []
    → obtener_de_exec C ps pid ≡ ok (none, ps)
unfolding obtener_de_exec rotar_pcbs
obtener_de_exec-vacia C ps pid h = ground (arith, h, (C.cola Puntero).size_counts [])

module _ (C : CommonsApi) (e : Entorno) (k l : Kernel) where
  atender_io-procesos :
      (pid tid : ℕ) (b : Buffer) → atender_io C e k pid tid b ≡ ok l → l.procesos ≡ k.procesos
  unfolding atender_io
  atender_io-procesos pid tid b h = ground (arith, h)

  atender_thread_create-procesos :
      (pid : ℕ) (b : Buffer) → atender_thread_create C e k pid b ≡ ok l → l.procesos ≡ k.procesos
  unfolding atender_thread_create
  atender_thread_create-procesos pid b h = ground (arith, h)

  atender_thread_join-procesos :
      (pid : ℕ) (b : Buffer) → atender_thread_join C e k pid b ≡ ok l → l.procesos ≡ k.procesos
  unfolding atender_thread_join
  atender_thread_join-procesos pid b h = ground (arith, h)

  atender_thread_cancel-procesos :
      (pid : ℕ) (b : Buffer) → atender_thread_cancel C e k pid b ≡ ok l → l.procesos ≡ k.procesos
  unfolding atender_thread_cancel
  atender_thread_cancel-procesos pid b h = ground (arith, h)

  atender_thread_exit-procesos :
      (pid tid : ℕ) → atender_thread_exit C e k pid tid ≡ ok l → l.procesos ≡ k.procesos
  unfolding atender_thread_exit
  atender_thread_exit-procesos pid tid h = ground (arith, h)

  atender_dump_memory-procesos :
      (pid tid : ℕ) (b : Buffer)
      → atender_dump_memory C e k pid tid b ≡ ok l
      → l.procesos ≡ k.procesos
  unfolding atender_dump_memory
  atender_dump_memory-procesos pid tid b h = ground (arith, h)

  -- MUTEX_UNLOCK never returns.

  pub atender_mutex_unlock-falla :
      (pid tid : ℕ) (b : Buffer) → ¬ (atender_mutex_unlock C k pid tid b ≡ ok l)
  unfolding atender_mutex_unlock
  atender_mutex_unlock-falla pid tid b h = ground (arith, h)

  -- Nor do those that need a process in cola_exec, when there is none.
  module _ (v : k.procesos.cola_exec ≡ []) where
    pub atender_mutex_create-falla :
        (pid tid : ℕ) (b : Buffer) → ¬ (atender_mutex_create C e k pid tid b ≡ ok l)
    unfolding atender_mutex_create cargar
    atender_mutex_create-falla pid tid b h =
        ground (arith, obtener_de_exec-vacia C k.procesos pid v, h)

    pub atender_mutex_lock-falla :
        (pid tid : ℕ) (b : Buffer) → ¬ (atender_mutex_lock C k pid tid b ≡ ok l)
    unfolding atender_mutex_lock cargar
    atender_mutex_lock-falla pid tid b h =
        ground (arith, obtener_de_exec-vacia C k.procesos pid v, h)

    pub terminar_proceso-falla : (pid : ℕ) → ¬ (terminar_proceso C e k pid ≡ ok l)
    unfolding terminar_proceso finalizar_proceso cargar
    terminar_proceso-falla pid h = ground (arith, obtener_de_exec-vacia C k.procesos pid v, h)

    atender_write_mem-igual : (pid : ℕ) (b : Buffer) → atender_write_mem C e k pid b ≡ ok l → l ≡ k
    unfolding atender_write_mem
    atender_write_mem-igual pid b h = ground (arith, h, terminar_proceso-falla pid)

    atender_process_exit-igual : (pid tid : ℕ) → atender_process_exit C e k pid tid ≡ ok l → l ≡ k
    unfolding atender_process_exit
    atender_process_exit-igual pid tid h = ground (arith, h, terminar_proceso-falla pid)

module _ (C : CommonsApi) (J : Procesos → Type 0) (c : Conservada C J) where
  queda : (k l : Kernel) → J k.procesos → l.procesos ≡ k.procesos → J l.procesos
  queda k l j h = subst J (sym h) j

  igual : (k l : Kernel) → J k.procesos → l ≡ k → J l.procesos
  igual k l j h = subst (λ x. J x.procesos) (sym h) j

  module _ (e : Entorno) where
    atender_process_create-Conservada :
        (k l : Kernel) (b : Buffer)
        → J k.procesos
        → atender_process_create C e k b ≡ ok l
        → J l.procesos
    unfolding atender_process_create
    atender_process_create-Conservada k l b j h = elim (Resultado-cases (leer_alta b)) [
      | inl (a, r) ↦ c.con_alta e k l a j (ground (arith, h, r))
      | inr (inl r) ↦ ground (arith, h, r)
      | inr (inr (x, r)) ↦ ground (arith, h, r)
    ]

    atender_llamada-Conservada :
        (k l : Kernel) (pid tid : ℕ) (b : Buffer) (o : Option Codigo)
        → J k.procesos
        → atender_llamada C e k pid tid b o ≡ ok l
        → J l.procesos
    unfolding atender_llamada
    atender_llamada-Conservada k l pid tid b (some dump_memory) j h =
        queda k l j (atender_dump_memory-procesos C e k l pid tid b h)
    atender_llamada-Conservada k l pid tid b (some io) j h =
        queda k l j (atender_io-procesos C e k l pid tid b h)
    atender_llamada-Conservada k l pid tid b (some process_create) j h =
        atender_process_create-Conservada k l b j h
    atender_llamada-Conservada k l pid tid b (some thread_create) j h =
        queda k l j (atender_thread_create-procesos C e k l pid b h)
    atender_llamada-Conservada k l pid tid b (some thread_join) j h =
        queda k l j (atender_thread_join-procesos C e k l pid b h)
    atender_llamada-Conservada k l pid tid b (some thread_cancel) j h =
        queda k l j (atender_thread_cancel-procesos C e k l pid b h)
    atender_llamada-Conservada k l pid tid b (some mutex_create) j h =
        absurd (atender_mutex_create-falla C e k l (c.vacia j) pid tid b h)
    atender_llamada-Conservada k l pid tid b (some mutex_lock) j h =
        absurd (atender_mutex_lock-falla C e k l (c.vacia j) pid tid b h)
    atender_llamada-Conservada k l pid tid b (some mutex_unlock) j h =
        absurd (atender_mutex_unlock-falla C e k l pid tid b h)
    atender_llamada-Conservada k l pid tid b (some thread_exit) j h =
        queda k l j (atender_thread_exit-procesos C e k l pid tid h)
    atender_llamada-Conservada k l pid tid b (some write_mem) j h =
        igual k l j (atender_write_mem-igual C e k l (c.vacia j) pid b h)
    atender_llamada-Conservada k l pid tid b (some process_exit) j h =
        igual k l j (atender_process_exit-igual C e k l (c.vacia j) pid tid h)
    atender_llamada-Conservada k l pid tid b none j h = igual k l j (ground (arith, h))
    atender_llamada-Conservada k l pid tid b (some set) j h = igual k l j (ground (arith, h))
    atender_llamada-Conservada k l pid tid b (some read_mem) j h = igual k l j (ground (arith, h))
    atender_llamada-Conservada k l pid tid b (some sum) j h = igual k l j (ground (arith, h))
    atender_llamada-Conservada k l pid tid b (some sub) j h = igual k l j (ground (arith, h))
    atender_llamada-Conservada k l pid tid b (some jnz) j h = igual k l j (ground (arith, h))
    atender_llamada-Conservada k l pid tid b (some log) j h = igual k l j (ground (arith, h))
    atender_llamada-Conservada k l pid tid b (some resize) j h = igual k l j (ground (arith, h))
    atender_llamada-Conservada k l pid tid b (some copy_string) j h =
        igual k l j (ground (arith, h))
    atender_llamada-Conservada k l pid tid b (some wait) j h = igual k l j (ground (arith, h))
    atender_llamada-Conservada k l pid tid b (some signal) j h = igual k l j (ground (arith, h))
    atender_llamada-Conservada k l pid tid b (some inst_exit) j h = igual k l j (ground (arith, h))
    atender_llamada-Conservada k l pid tid b (some invalid_instruction) j h =
        igual k l j (ground (arith, h))

    interpretar_cpu-Conservada :
        (k l : Kernel) (entrada : List ℕ)
        → J k.procesos
        → interpretar_cpu C e k entrada ≡ ok l
        → J l.procesos
    unfolding interpretar_cpu
    interpretar_cpu-Conservada k l entrada j h =
        elim (Resultado-cases (leer_cabecera e.malloc entrada)) [
          | inl (((pid, tid), (n, b)), r) ↦
              atender_llamada-Conservada k l pid tid b (codigo_entre codigos n) j
                (ground (arith, h, r))
          | inr (inl r) ↦ ground (arith, h, r)
          | inr (inr (x, r)) ↦ ground (arith, h, r)
        ]

  Paso-Conservada : {k l : Kernel} → J k.procesos → Paso C k l → J l.procesos
  Paso-Conservada {k} {l} j (crea e a h) = c.con_alta e k l a j h
  Paso-Conservada {k} {l} j (reanuda e h) = c.con_permiso e k l j h
  Paso-Conservada {k} {l} j (interpreta e entrada h) = interpretar_cpu-Conservada e k l entrada j h
  Paso-Conservada {k} {l} j (planifica_fifo e entrada h) =
      queda k l j (ronda_fifo-procesos C e k l entrada h)
  Paso-Conservada {k} {l} j (planifica_prioridades e entrada h) =
      queda k l j (ronda_prioridades-procesos C e k l entrada h)
  Paso-Conservada {k} {l} j (planifica_cmn e entradas h) =
      queda k l j (atender_cmn-procesos C e entradas k l h)

  pub Alcanza-Conservada : {k l : Kernel} → J k.procesos → Alcanza C k l → J l.procesos
  Alcanza-Conservada j aqui = j
  Alcanza-Conservada j (luego r p) = Paso-Conservada (Alcanza-Conservada j r) p
