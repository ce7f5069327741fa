-- ===== src/Memoria/Peticiones.antt =====
-- The requests of the kernel to the memory module: `manejar_peticion` of
-- memoria/src/manejar_kernel.c, and `enviar_estado` of
-- memoria/src/main.c. The fields of a message are read first, then the request is carried out.
use so_tp_2c.Prelude.{ℕ, ◌==◌, if◌then◌else◌, Bool, true, Option, none, some, List}
use so_tp_2c.Prelude.Resultado.{Resultado, ok, ◌>>=◌}
use so_tp_2c.Commons.{ListaApi, DictApi}
use so_tp_2c.Comunes.Buffer.{
  Buffer, buffer_create, buffer_add_uint32, buffer_add_int, buffer_read_uint32, buffer_read_int,
  buffer_read_string,
}
use so_tp_2c.Comunes.Red.{enviar_operacion, recibir_paquete}
use so_tp_2c.Memoria.Pseudocodigo.{Archivos}
use so_tp_2c.Memoria.Particiones.{Particion}
use so_tp_2c.Memoria.Procesos.{
  Hilo, Proceso, Estado, crear_proceso, crear_hilo, finalizar_proceso, finalizar_hilo,
}

pub data Peticion : Type 0 where
  kernel_crear_proceso : ℕ → List ℕ → ℕ → Peticion
  kernel_crear_hilo : ℕ → ℕ → List ℕ → ℕ → Peticion
  kernel_finalizar_proceso : ℕ → Peticion
  kernel_finalizar_hilo : ℕ → ℕ → Peticion
  kernel_memory_dump : ℕ → ℕ → Peticion
  no_reconocida : Peticion

-- `Memoria_operaciones_t`, by their numbers
abbrev pub memoria_kernel_crear_proceso : ℕ
memoria_kernel_crear_proceso = 5

abbrev pub memoria_kernel_crear_hilo : ℕ
memoria_kernel_crear_hilo = 6

abbrev pub memoria_kernel_finalizar_proceso : ℕ
memoria_kernel_finalizar_proceso = 7

abbrev pub memoria_kernel_finalizar_hilo : ℕ
memoria_kernel_finalizar_hilo = 8

abbrev pub memoria_kernel_memory_dump : ℕ
memoria_kernel_memory_dump = 9

-- The fields of each request, in the order in which `manejar_peticion` reads them.
unfoldable pub leer_crear_proceso : Buffer → Resultado Peticion
unfolding buffer_read_uint32 buffer_read_string
leer_crear_proceso b = do
  (pid, b1) ← buffer_read_int b
  (archivo, b2) ← buffer_read_string b1
  (tam_proceso, _) ← buffer_read_int b2
  ok (kernel_crear_proceso pid archivo tam_proceso)

unfoldable pub leer_crear_hilo : Buffer → Resultado Peticion
unfolding buffer_read_uint32 buffer_read_string
leer_crear_hilo b = do
  (pid, b1) ← buffer_read_int b
  (tid, b2) ← buffer_read_int b1
  (archivo, b3) ← buffer_read_string b2
  (prioridad, _) ← buffer_read_int b3
  ok (kernel_crear_hilo pid tid archivo prioridad)

unfoldable pub leer_peticion : ℕ → Buffer → Resultado Peticion
unfolding buffer_read_uint32 leer_crear_proceso leer_crear_hilo
leer_peticion op b =
    if op == memoria_kernel_crear_proceso
    then leer_crear_proceso b
    else if op == memoria_kernel_crear_hilo
    then leer_crear_hilo b
    else if op == memoria_kernel_finalizar_proceso
    then (do (pid, _) ← buffer_read_int b; ok (kernel_finalizar_proceso pid))
    else if op == memoria_kernel_finalizar_hilo
    then (do
      (pid, b1) ← buffer_read_int b
      (tid, _) ← buffer_read_int b1
      ok (kernel_finalizar_hilo pid tid))
    else if op == memoria_kernel_memory_dump
    then (do
      (pid, b1) ← buffer_read_int b
      (tid, _) ← buffer_read_int b1
      ok (kernel_memory_dump pid tid))
    else ok no_reconocida

-- `enviar_estado`: what is sent back, in a block of one int
unfoldable pub enviar_estado : List ℕ → ℕ → ℕ → Resultado (List ℕ)
unfolding buffer_add_uint32 enviar_operacion
enviar_estado bloque estado operacion = do
  b ← buffer_add_int (buffer_create bloque) estado
  enviar_operacion operacion b

-- The message as manejar_peticion gets it. `inicial` is the offset of its buffer, which recibir_paquete
-- does not set.
unfoldable pub recibir_peticion : (ℕ → List ℕ) → ℕ → List ℕ → Resultado (Peticion × List ℕ)
unfolding recibir_paquete leer_peticion
recibir_peticion malloc inicial entrada = do
  (p, resto) ← recibir_paquete malloc inicial entrada
  peticion ← leer_peticion p.op_code p.buffer
  ok (peticion, resto)

-- `memory_dump`, which is not finished.
abbrev pub memory_dump : ℕ → ℕ → Bool
memory_dump pid tid = true

module _ (H : DictApi Hilo) (P : DictApi (Proceso H.Dict)) (L : ListaApi Particion)
    (archivos : Archivos) where
  -- The state sent back, or nothing, and the memory after the request.
  abbrev pub Respuesta : Type 0
  Respuesta = Option Bool × Estado P.Dict

  abbrev pub con_estado : Bool × Estado P.Dict → Respuesta
  con_estado (estado, m) = (some estado, m)

  unfoldable pub manejar_peticion : Bool → Estado P.Dict → Peticion → Resultado Respuesta
  unfolding crear_proceso crear_hilo finalizar_proceso finalizar_hilo
  manejar_peticion hay_memoria m (kernel_crear_proceso pid archivo tam_proceso) =
      ok (con_estado (crear_proceso H P L archivos hay_memoria m pid archivo tam_proceso))
  manejar_peticion hay_memoria m (kernel_crear_hilo pid tid archivo prioridad) =
      ok (con_estado (crear_hilo H P L archivos m pid tid archivo prioridad))
  manejar_peticion hay_memoria m (kernel_finalizar_proceso pid) = do
    r ← finalizar_proceso H P L archivos m pid
    ok (con_estado r)
  manejar_peticion hay_memoria m (kernel_finalizar_hilo pid tid) = do
    r ← finalizar_hilo H P L archivos m pid tid
    ok (con_estado r)
  manejar_peticion hay_memoria m (kernel_memory_dump pid tid) = ok (some (memory_dump pid tid), m)
  manejar_peticion hay_memoria m no_reconocida = ok (none, m)
