-- ===== src/Kernel/Pedidos.antt =====
-- The requests of the kernel to the memory module: crearProcesoMemoria to crearHiloMemoria of
-- kernel/src/main.c. Each builds a message, sends it, and reads one int of the answer. `malloc` gives
-- the blocks, and `respuesta` is what comes over the connection.
pub mod Leyes
pub mod Respuestas
pub mod Paquete
use so_tp_2c.Prelude.{ℕ, ◌+◌, List, []}
use so_tp_2c.Prelude.Resultado.{Resultado, ok, ◌>>=◌}
use so_tp_2c.Comunes.Serializar.{Tcb}
use so_tp_2c.Comunes.Buffer.{
  Buffer, buffer_create, buffer_add_uint32, buffer_add_string, buffer_read_int,
}
use so_tp_2c.Memoria.Peticiones.{
  memoria_kernel_crear_proceso, memoria_kernel_crear_hilo, memoria_kernel_finalizar_proceso,
  memoria_kernel_finalizar_hilo,
}
use so_tp_2c.Comunes.Red.{enviar_operacion, recibir_buffer}

module _ (malloc : ℕ → List ℕ) where
  -- `RecibirBuffer`, then `buffer_read_int`
  unfoldable pub leer_respuesta : List ℕ → Resultado ℕ
  unfolding recibir_buffer
  leer_respuesta respuesta = do
    (b, _) ← recibir_buffer malloc respuesta
    (n, _) ← buffer_read_int b
    ok n

  -- The message of crearProcesoMemoria, in a block of two words and a pointer.
  unfoldable pub mensaje_crear_proceso : ℕ → List ℕ → ℕ → Resultado Buffer
  unfolding buffer_add_uint32 buffer_add_string
  mensaje_crear_proceso pid archivo tamanio = do
    b1 ← buffer_add_uint32 (buffer_create (malloc 16)) pid
    b2 ← buffer_add_string b1 archivo
    buffer_add_uint32 b2 tamanio

  -- The result is what is sent and the answer.
  unfoldable pub crear_proceso_memoria : ℕ → List ℕ → ℕ → List ℕ → Resultado (List ℕ × ℕ)
  unfolding mensaje_crear_proceso leer_respuesta
  crear_proceso_memoria pid archivo tamanio respuesta = do
    b ← mensaje_crear_proceso pid archivo tamanio
    enviado ← enviar_operacion memoria_kernel_crear_proceso b
    n ← leer_respuesta respuesta
    ok (enviado, n)

  unfoldable pub finalizar_proceso_memoria : ℕ → List ℕ → Resultado (List ℕ × ℕ)
  unfolding buffer_add_uint32 leer_respuesta
  finalizar_proceso_memoria pid respuesta = do
    b ← buffer_add_uint32 (buffer_create (malloc 4)) pid
    enviado ← enviar_operacion memoria_kernel_finalizar_proceso b
    n ← leer_respuesta respuesta
    ok (enviado, n)

  unfoldable pub finalizar_hilo_memoria : Tcb → List ℕ → Resultado (List ℕ × ℕ)
  unfolding buffer_add_uint32 leer_respuesta
  finalizar_hilo_memoria t respuesta = do
    b1 ← buffer_add_uint32 (buffer_create (malloc 8)) t.pid
    b2 ← buffer_add_uint32 b1 t.tid
    enviado ← enviar_operacion memoria_kernel_finalizar_hilo b2
    n ← leer_respuesta respuesta
    ok (enviado, n)

  -- The message of crearHiloMemoria, in a block of three words and a pointer.
  unfoldable pub mensaje_crear_hilo : Tcb → List ℕ → Resultado Buffer
  unfolding buffer_add_uint32 buffer_add_string
  mensaje_crear_hilo t archivo = do
    b1 ← buffer_add_uint32 (buffer_create (malloc 20)) t.pid
    b2 ← buffer_add_uint32 b1 t.tid
    b3 ← buffer_add_string b2 archivo
    buffer_add_uint32 b3 t.prioridad

  unfoldable pub crear_hilo_memoria : Tcb → List ℕ → List ℕ → Resultado (List ℕ × ℕ)
  unfolding mensaje_crear_hilo leer_respuesta
  crear_hilo_memoria t archivo respuesta = do
    b ← mensaje_crear_hilo t archivo
    enviado ← enviar_operacion memoria_kernel_crear_hilo b
    n ← leer_respuesta respuesta
    ok (enviado, n)
