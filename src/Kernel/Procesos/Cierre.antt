-- ===== src/Kernel/Procesos/Cierre.antt =====
-- finalizarProceso of kernel/src/k_largo_plazo.c, on every branch.
use so_tp_2c.Prelude.{
  length-append, Bool-cases, if◌then◌else◌, ℕ, ◌+◌, ◌≡◌, refl, ◌==◌, none, some, List, [], ◌∷◌,
  ◌++◌, arith, length, take, get_elem?, set, get_elem?-set, inl, inr,
}
use so_tp_2c.Prelude.Resultado.{ok, falla, uso_tras_free}
use so_tp_2c.Commons.{CommonsApi}
use so_tp_2c.Comunes.Bytes.{le32, length-le32}
use so_tp_2c.Comunes.Buffer.{buffer_add_uint32}
use so_tp_2c.Comunes.Buffer.Escritor.{escribir_partes-buffer_create}
use so_tp_2c.Comunes.Red.{enviar_buffer, enviar_operacion}
use so_tp_2c.Memoria.Peticiones.{memoria_kernel_finalizar_proceso}
use so_tp_2c.Kernel.Estado.{cargar, liberar, PcbKernel, Kernel}
use so_tp_2c.Kernel.Pedidos.{leer_respuesta, finalizar_proceso_memoria}
use so_tp_2c.Kernel.Hilos.Vida.{Entorno}
use so_tp_2c.Kernel.Procesos.{cerrar_hilos, finalizar_proceso}

module _ (C : CommonsApi) where
  finalizar_proceso_memoria-cabe :
      (malloc : ℕ → List ℕ) (pid n : ℕ) (respuesta : List ℕ)
      → length (malloc 4) ≡ 4
      → leer_respuesta malloc respuesta ≡ ok n
      → (enviado : List ℕ) × (finalizar_proceso_memoria malloc pid respuesta ≡ ok (enviado, n))
  unfolding finalizar_proceso_memoria buffer_add_uint32 enviar_operacion enviar_buffer
  finalizar_proceso_memoria-cabe malloc pid n respuesta hm hr =
      let (b, resto, eb, s, v, largo) =
        escribir_partes-buffer_create (le32 pid ∷ []) (malloc 4)
          (omega (arith, hm, length-append (le32 pid) [], length-le32 pid)) in
      (
        le32 memoria_kernel_finalizar_proceso
            ++ (le32 (length b.stream) ++ take (length b.stream) b.stream),
        ground (arith, eb, s, hr),
      )

  -- finalizarProceso of a live process without threads in its list, when malloc returns the block asked
  -- for and the answer can be read, returns and raises the semaphore of new processes by one, whatever
  -- the answer; the process is freed when the answer is 1, and stays when it is another number.
  pub finalizar_proceso-sin_hilos :
      (e : Entorno) (k : Kernel) (i n : ℕ) (pcb : PcbKernel)
      → length (e.malloc 4) ≡ 4
      → leer_respuesta e.malloc e.respuesta_proceso ≡ ok n
      → get_elem? k.procesos.pcbs i ≡ some (some pcb)
      → pcb.tids ≡ []
      → (l : Kernel) × (finalizar_proceso C e k (some i) ≡ ok l)
        × (l.procesos.sem_nuevo_proceso ≡ k.procesos.sem_nuevo_proceso + 1)
        × (cargar l.procesos.pcbs (some i) ≡ (if n == 1 then falla uso_tras_free else ok pcb))
  unfolding finalizar_proceso cargar liberar cerrar_hilos
  finalizar_proceso-sin_hilos e k i n pcb hm hr hi ht =
      let (enviado, he) =
        finalizar_proceso_memoria-cabe e.malloc pcb.pid n e.respuesta_proceso hm hr in
      elim (Bool-cases (n == 1)) [
        | inl hn ↦ (
          record {
            hilos = record k.hilos { a_memoria = k.hilos.a_memoria ++ (enviado ∷ []) };
            procesos = record k.procesos {
              pcbs = set k.procesos.pcbs i none;
              sem_nuevo_proceso = k.procesos.sem_nuevo_proceso + 1;
            };
          },
          ground (arith, he, hi, ht, hn, (C.lista ℕ).list_size_counts []),
          refl,
          ground (arith, hn, get_elem?-set k.procesos.pcbs i none hi),
        )
        | inr hn ↦ (
          record {
            hilos = record k.hilos { a_memoria = k.hilos.a_memoria ++ (enviado ∷ []) };
            procesos = record k.procesos { sem_nuevo_proceso = k.procesos.sem_nuevo_proceso + 1 };
          },
          ground (arith, he, hi, ht, hn),
          refl,
          ground (arith, hn, hi),
        )
      ]
