-- ===== src/Pruebas/Nucleo/Colocar.antt =====
-- The threads of the kernel: the theorems at concrete inputs.
use so_tp_2c.Prelude.{
  get_elem?, ℕ, ◌+◌, ◌≡◌, refl, if◌then◌else◌, Bool, inl, some, [], ◌∷◌, ◌++◌, arith, set, ltb,
}
use so_tp_2c.Prelude.Resultado.{ok, falla, uso_tras_free}
use so_tp_2c.Comunes.Bytes.{le32}
use so_tp_2c.Comunes.Buffer.{Buffer, buffer_create}
use so_tp_2c.Comunes.Buffer.Leyes.{Ante, Ante-buffer_create}
use so_tp_2c.Comunes.Texto.{codes}
use so_tp_2c.Kernel.Colas.Prioridad.{cmn}
use so_tp_2c.Kernel.Estado.{Kernel, Hilos, cargar, max_niveles_prioridad}
use so_tp_2c.Kernel.Hilos.{
  insertar_en_cola_ready_cmn, agregar_hilo_a_ready, obtener_tcb_por_pid_y_tid, dependiente_en,
}
use so_tp_2c.Kernel.Hilos.Vida.{crear_hilo, get_next_thread, ultimo_tid}
use so_tp_2c.Kernel.Hilos.Leyes.{tcb_nuevo, crear_hilo-fifo}
use so_tp_2c.Kernel.Hilos.Niveles.{
  Creadas, vista, encolar, desencolar, cabeza, insertar_en_cola_ready_cmn-encolar,
  get_next_thread-desencolar,
}
use so_tp_2c.Kernel.Hilos.Acaba.{Acaba}
use so_tp_2c.Kernel.Hilos.Termina.{agregar_hilo_a_ready-Acaba}
use so_tp_2c.Kernel.Interpretar.{atender_thread_exit, atender_thread_cancel}
use so_tp_2c.Kernel.Interpretar.Cancelar.{
  atender_thread_exit-limpio, atender_thread_cancel-colgante,
}
use so_tp_2c.Pruebas.Nucleo.{C, e, respuesta_uno, tcb, hilos, hilos-Creadas, k_exec}

-- four threads have been made for its process
abbrev con_contador : Hilos
con_contador = record hilos { lista_thread_id = some (4 ∷ []) }

crear_hilo-fifo_example :
    (l : Hilos) × (crear_hilo C e con_contador (codes "a.t") 3 0 ≡ ok l)
    × (l.cola_ready_fifo_prioridades ≡ some (some 0 ∷ some 1 ∷ []))
    × (cargar l.tcbs (some 1) ≡ ok (tcb_nuevo C e 3 0))
    × (l.lista_thread_id ≡ some (set (4 ∷ []) 0 (ultimo_tid C e (4 ∷ []) 0 + 1)))
    × (get_elem? (set (4 ∷ []) 0 (ultimo_tid C e (4 ∷ []) 0 + 1)) 0 ≡ some 5)
crear_hilo-fifo_example =
    crear_hilo-fifo C e con_contador (codes "a.t") 3 0 1 0 (4 ∷ []) (some 0 ∷ []) refl (omega arith)
      (omega arith) (omega arith) (omega arith) respuesta_uno (λ h. ground (arith, h)) refl refl
      (inl refl) refl

insertar_en_cola_ready_cmn-encolar_example :
    (b : Bool) × (l : Hilos) × (insertar_en_cola_ready_cmn C hilos (some 0) ≡ ok (b, l))
    × (b ≡ ltb 3 max_niveles_prioridad)
    × (l ≡ (
        if b
        then record hilos {
          colas_ready_cmn = set hilos.colas_ready_cmn 3 (some (vista hilos 3 ++ (some 0 ∷ [])));
        }
        else hilos))
    × ((j : ℕ) → vista l j ≡ (if b then encolar (vista hilos) 3 (some 0) j else vista hilos j))
    × Creadas l
insertar_en_cola_ready_cmn-encolar_example =
    insertar_en_cola_ready_cmn-encolar C hilos 0 tcb hilos-Creadas refl

get_next_thread-desencolar_example :
    (l : Hilos) × (get_next_thread C hilos 3 ≡ ok (cabeza (vista hilos 3), l))
    × ((j : ℕ) → vista l j ≡ desencolar (vista hilos) 3 j)
    × Creadas l
get_next_thread-desencolar_example =
    get_next_thread-desencolar C hilos 3 hilos-Creadas (omega arith)

-- its thread has a priority that no level has, and another waits for it
abbrev con_dependencia : Hilos
con_dependencia = record hilos {
  tcbs = some (record tcb { prioridad = 100 }) ∷ some tcb ∷ [];
  lista_dependencias = some (record { hilo = some 0; dependiente = some 1 } ∷ []);
}

agregar_hilo_a_ready-Acaba_example :
    Acaba 1 (agregar_hilo_a_ready C (some cmn) 2 con_dependencia (some 0))
agregar_hilo_a_ready-Acaba_example =
    agregar_hilo_a_ready-Acaba C (some cmn) 2 con_dependencia (some 0) (omega arith)

atender_thread_exit-limpio_example :
    (l : Kernel) × (atender_thread_exit C e k_exec 0 0 ≡ ok l)
    × (l.hilos.lista_exec_hilo ≡ some [])
    × (cargar l.hilos.tcbs (some 0) ≡ falla uso_tras_free)
unfolding dependiente_en
atender_thread_exit-limpio_example =
    atender_thread_exit-limpio C e k_exec 0 1 tcb [] [] refl respuesta_uno (λ h. ground (arith, h))
      refl refl refl refl

abbrev mensaje : Buffer
mensaje = buffer_create (0 ∷ 0 ∷ 0 ∷ 0 ∷ [])

mensaje-Ante : Ante mensaje (le32 0 ++ [])
unfolding le32
mensaje-Ante = Ante-buffer_create _

atender_thread_cancel-colgante_example :
    (l : Kernel) × (atender_thread_cancel C e k_exec 0 mensaje ≡ ok l)
    × ((pid tid : ℕ)
        → obtener_tcb_por_pid_y_tid C l.hilos.tcbs l.hilos.lista_exec_hilo pid tid
          ≡ falla uso_tras_free)
unfolding dependiente_en
atender_thread_cancel-colgante_example =
    atender_thread_cancel-colgante C e k_exec 0 1 tcb [] [] refl respuesta_uno
      (λ h. ground (arith, h)) refl refl refl refl mensaje [] (omega arith) mensaje-Ante
