-- ===== src/Pruebas/Nucleo/Altas.antt =====
-- The long-term planner and the requests to the memory module: the theorems at concrete inputs.
use so_tp_2c.Prelude.{none, ℕ, ◌≡◌, refl, false, inl, some, Option, List, [], ◌∷◌, arith}
use so_tp_2c.Prelude.Resultado.{ok, falla, puntero_nulo, fuera_de_bloque}
use so_tp_2c.Comunes.Bytes.{le32, de_le32}
use so_tp_2c.Comunes.Buffer.{
  buffer_read_string, buffer_read_uint32, buffer_read, Buffer, buffer_create, buffer_add_uint32,
  buffer_write,
}
use so_tp_2c.Comunes.Texto.{codes}
use so_tp_2c.Comunes.Red.{enviar_buffer, enviar_operacion}
use so_tp_2c.Cpu.Instruccion.{mutex_create, mutex_lock, process_exit}
use so_tp_2c.Memoria.Peticiones.{enviar_estado, memoria_kernel_crear_proceso}
use so_tp_2c.Kernel.Estado.{Kernel, kernel_inicial, cargar, estado_new, estado_ready}
use so_tp_2c.Kernel.Pedidos.{leer_respuesta, mensaje_crear_proceso, mensaje_crear_hilo}
use so_tp_2c.Kernel.Pedidos.Leyes.{mensajes-desbordan}
use so_tp_2c.Kernel.Pedidos.Respuestas.{leer_respuesta-enviar_estado}
use so_tp_2c.Kernel.Hilos.{obtener_tcb_por_pid_y_tid}
use so_tp_2c.Kernel.Hilos.Buscar.{buscar_hilo}
use so_tp_2c.Kernel.Hilos.Vida.{Entorno}
use so_tp_2c.Kernel.Hilos.Leyes.{tcb_nuevo}
use so_tp_2c.Kernel.Procesos.{crear_pcb, crear_proceso, crear_proceso_inicial}
use so_tp_2c.Kernel.Procesos.Altas.{crear_proceso-admite}
use so_tp_2c.Kernel.Procesos.Atasco.{crear_proceso-enviar_estado, crear_proceso_inicial-sin_listas}
use so_tp_2c.Kernel.Interpretar.{atender_llamada}
use so_tp_2c.Kernel.Planificador.{ronda_fifo, ronda_prioridades}
use so_tp_2c.Kernel.Pasos.{Alcanza, aqui, luego, crea}
use so_tp_2c.Kernel.Pasos.Invariantes.Atascado.{Alcanza-cola_ready}
use so_tp_2c.Kernel.Pasos.Llamadas.{atender_llamada-nulo}
use so_tp_2c.Pruebas.Nucleo.{ceros, length-ceros, C, e, respuesta_uno, tcb, pcb, k, k_new, alta}

crear_proceso-admite_example :
    (l : Kernel) × (crear_proceso C e k alta ≡ ok l)
    × (l.procesos.cola_new ≡ [])
    × (l.procesos.cola_ready ≡ some 0 ∷ some 1 ∷ [])
    × (cargar l.procesos.pcbs (some 1)
        ≡ ok (record { pid = 1; estado = estado_ready; tids = []; mutex = [] }))
    × (l.procesos.process_id ≡ 2)
    × (l.hilos.cola_ready_fifo_prioridades ≡ some (some 0 ∷ some 1 ∷ []))
    × (cargar l.hilos.tcbs (some 1) ≡ ok (tcb_nuevo C e 3 1))
crear_proceso-admite_example =
    crear_proceso-admite C e k alta 0 [] (some 0 ∷ []) refl refl (omega arith) (omega arith)
      (omega arith) (omega arith) (omega arith) respuesta_uno respuesta_uno refl refl refl
      (inl refl) refl

-- the bytes that the memory sends for the state 1
abbrev e_memoria : Entorno
e_memoria = record e { respuesta_proceso = 5 ∷ 0 ∷ 0 ∷ 0 ∷ 4 ∷ 0 ∷ 0 ∷ 0 ∷ 1 ∷ 0 ∷ 0 ∷ 0 ∷ [] }

estado_uno : enviar_estado (ceros 4) 1 memoria_kernel_crear_proceso ≡ ok e_memoria.respuesta_proceso
unfolding enviar_estado enviar_operacion enviar_buffer buffer_add_uint32 buffer_write le32
estado_uno = refl

crear_proceso-enviar_estado_example :
    (l : Kernel) × (crear_proceso C e_memoria k alta ≡ ok l)
    × (l.procesos.cola_new ≡ some 1 ∷ [])
    × (cargar l.procesos.pcbs (some 1)
        ≡ ok (record { pid = 1; estado = estado_new; tids = []; mutex = [] }))
    × (l.procesos.esperando ≡ alta ∷ [])
    × ((m : Kernel) → Alcanza C l m → m.procesos.cola_ready ≡ some 0 ∷ [])
crear_proceso-enviar_estado_example =
    crear_proceso-enviar_estado C e_memoria k alta (ceros 4) 1 length-ceros refl estado_uno
      (omega arith) (omega arith) (omega arith) refl refl

crear_proceso_inicial-sin_listas_example :
    (crear_proceso_inicial C e kernel_inicial (codes "a.t") 16 ≡ falla puntero_nulo)
    × (ronda_fifo C e kernel_inicial [] ≡ falla puntero_nulo)
    × (ronda_prioridades C e kernel_inicial [] ≡ falla puntero_nulo)
crear_proceso_inicial-sin_listas_example =
    crear_proceso_inicial-sin_listas C e (codes "a.t") 16 [] refl (omega arith) (omega arith)
      respuesta_uno

-- one more process behind the one in cola_new
abbrev k_new2 : Kernel
k_new2 = record k_new {
  procesos = record k_new.procesos {
    pcbs = some pcb ∷ some (record { pid = 1; estado = 0; tids = []; mutex = [] }) ∷ [];
    cola_new = some 0 ∷ some 1 ∷ [];
    process_id = 2;
  };
}

un_alta : crear_proceso C e k_new alta ≡ ok k_new2
unfolding crear_proceso crear_pcb
un_alta = refl

Alcanza-cola_ready_example :
    (k_new2.procesos.cola_ready ≡ k_new.procesos.cola_ready)
    × ((C.cola (Option ℕ)).queue_is_empty k_new2.procesos.cola_new ≡ false)
Alcanza-cola_ready_example =
    Alcanza-cola_ready C k_new k_new2 refl refl (luego aqui (crea e alta un_alta))

-- the text "m" after its length
abbrev recurso : Buffer
recurso = buffer_create (1 ∷ 0 ∷ 0 ∷ 0 ∷ 109 ∷ [])

leido : buffer_read_string recurso ≡ ok (codes "m", record recurso { offset = 5 })
unfolding buffer_read_string buffer_read_uint32 buffer_read de_le32
leido = refl

atender_llamada-nulo_example :
    (atender_llamada C e k_new2 0 0 recurso (some mutex_create) ≡ falla puntero_nulo)
    × (atender_llamada C e k_new2 0 0 recurso (some mutex_lock) ≡ falla puntero_nulo)
    × (atender_llamada C e k_new2 0 0 recurso (some process_exit) ≡ falla puntero_nulo)
unfolding obtener_tcb_por_pid_y_tid buscar_hilo
atender_llamada-nulo_example =
    atender_llamada-nulo C k_new k_new2 e 0 0 recurso (record recurso { offset = 5 }) (codes "m")
      none (some 0) k_new2.hilos refl (luego aqui (crea e alta un_alta)) leido refl refl

mensajes-desbordan_example :
    (mensaje_crear_proceso ceros 3 (codes "a.txt") 16 ≡ falla fuera_de_bloque)
    × (mensaje_crear_hilo ceros tcb (codes "a.txt") ≡ falla fuera_de_bloque)
mensajes-desbordan_example =
    mensajes-desbordan ceros 3 tcb (codes "a.txt") 16 refl refl (omega arith)

leer_respuesta-enviar_estado_example :
    (enviado : List ℕ) × (enviar_estado (ceros 4) 1 memoria_kernel_crear_proceso ≡ ok enviado)
    × (leer_respuesta ceros enviado ≡ ok 4)
leer_respuesta-enviar_estado_example =
    leer_respuesta-enviar_estado ceros (ceros 4) 1 memoria_kernel_crear_proceso length-ceros refl
      (omega arith) (omega arith)
