-- ===== src/Cpu/Servidor.antt =====
-- `ServerCPU` of cpu/src/main.c: what the CPU does with the messages of the kernel. What memory answers
-- during the execution is in the arguments of `ejecutar_proceso`.
pub mod Respuesta
pub mod Vacia
use so_tp_2c.Prelude.{
  ◌∷◌, ℕ, zero, suc, ◌+◌, ◌^◌, Bool, true, false, Option, none, some, List, [], ◌++◌, ◌==◌, length,
  take, drop, leb, if◌then◌else◌,
}
use so_tp_2c.Prelude.Resultado.{Resultado, ok, exit_failure, falla, no_inicializado, ◌>>=◌}
use so_tp_2c.Comunes.Bytes.{le32, de_le32}
use so_tp_2c.Comunes.Buffer.{
  Buffer, buffer_create, buffer_read_uint32, buffer_add_uint32, buffer_add_string,
}
use so_tp_2c.Comunes.Serializar.{Tcb, deserializar_tcb, deserializar_registros, serializar_pid_tid}
use so_tp_2c.Comunes.Red.{
  enviar_buffer, enviar_operacion, recibir_buffer, recibir_operacion, cpu, handshake_server,
}
use so_tp_2c.Cpu.Registros.{Registros}
use so_tp_2c.Cpu.Ejecucion.{Campo, numero, texto, Cpu, Entorno}
use so_tp_2c.Cpu.Ciclo.{ejecutar_proceso}
use so_tp_2c.Cpu.Conexion.{solicitar_contexto}

-- `op_code` of cpu/utils_C/main.h, and MEMORIA_CPU_ACTUALIZAR_CONTEXTO, by their numbers
abbrev pub op_handshake : ℕ
op_handshake = 0

abbrev pub op_contexto : ℕ
op_contexto = 1

abbrev pub op_interrupcion : ℕ
op_interrupcion = 2

abbrev pub memoria_cpu_actualizar_contexto : ℕ
memoria_cpu_actualizar_contexto = 1

-- The globals of the CPU, and what it has sent: to the memory and to the kernel.
pub record Servidor : Type 0 where
  pub interrupcion_recibida : Bool
  pub proceso_en_ejecucion : ℕ
  pub thread_en_ejecucion : ℕ
  pub a_memoria : List ℕ
  pub a_kernel : List ℕ

-- What surrounds the execution of a thread: the blocks of `malloc`, its bytes in the offset of a new
-- buffer, the answer of the memory to the request of the context, the instructions that it sends, its
-- answers to reads and writes, what WRITE_MEM gets for `value32`, the interruption flag as it is read during the cycle and as the cycle
-- leaves it, and the fuel of the cycle.
pub record Mundo : Type 0 where
  pub malloc : ℕ → List ℕ
  pub inicial : ℕ
  pub contexto : List ℕ
  pub fetch : ℕ → Option (List ℕ)
  pub leer_en_memoria : Option ℕ → ℕ
  pub escribir_en_memoria : Option ℕ → ℕ → ℕ
  pub value_32_sin_valor : Resultado ℕ
  pub interrupcion : ℕ → Bool
  pub al_final : Bool
  pub fuel : ℕ

-- What the instructions write into `bufferRetorno`.
unfoldable pub escribir_campos : Buffer → List Campo → Resultado Buffer
unfolding buffer_add_uint32 buffer_add_string
escribir_campos b [] = ok b
escribir_campos b (numero n ∷ campos) = do b' ← buffer_add_uint32 b n; escribir_campos b' campos
escribir_campos b (texto t ∷ campos) = do b' ← buffer_add_string b t; escribir_campos b' campos

module _ (w : Mundo) where
  -- CONTEXTO, up to the execution: the thread, the registers, the request and the rest of the messages
  unfoldable pub preparar : List ℕ → Resultado ((Tcb × Registros) × (List ℕ × List ℕ))
  unfolding recibir_buffer deserializar_tcb solicitar_contexto deserializar_registros
  preparar entrada = do
    (b, resto) ← recibir_buffer w.malloc entrada
    (t, _) ← deserializar_tcb b
    pedido ← solicitar_contexto (w.malloc 8) t
    (bc, _) ← recibir_buffer w.malloc w.contexto
    (r, _) ← deserializar_registros bc
    ok ((t, r), (pedido, resto))

  abbrev pub entorno_de : Tcb → Entorno
  entorno_de t = record {
    leer_en_memoria = w.leer_en_memoria;
    escribir_en_memoria = w.escribir_en_memoria;
    proceso_en_ejecucion = t.pid;
    thread_en_ejecucion = t.tid;
    value_32_sin_valor = w.value_32_sin_valor;
  }

  -- The buffer that goes back to the kernel is created with the size 0, and written to by every
  -- instruction that reports something.
  unfoldable pub devolver : Servidor → Tcb → List ℕ → Cpu → Resultado Servidor
  unfolding escribir_campos serializar_pid_tid enviar_operacion enviar_buffer
  devolver s t pedido c = do
    valor_retorno ← escribir_campos (buffer_create (w.malloc 0)) c.retorno
    b ← serializar_pid_tid (w.malloc 44) w.inicial c.registros t.pid t.tid
    actualizacion ← enviar_operacion memoria_cpu_actualizar_contexto b
    retorno ← enviar_buffer valor_retorno
    ok (record s {
      interrupcion_recibida = w.al_final;
      proceso_en_ejecucion = t.pid;
      thread_en_ejecucion = t.tid;
      a_memoria = s.a_memoria ++ (pedido ++ actualizacion);
      a_kernel = s.a_kernel ++ retorno;
    })

  -- CONTEXTO; `none` is the fuel of the cycle used up.
  unfoldable pub atender_contexto : Servidor → List ℕ → Option (Resultado (Servidor × List ℕ))
  unfolding preparar ejecutar_proceso devolver
  atender_contexto s entrada = elim (preparar entrada) [
    | exit_failure ↦ some exit_failure
    | falla x ↦ some (falla x)
    | ok ((t, r), (pedido, resto)) ↦
        elim (ejecutar_proceso (entorno_de t) w.fetch w.interrupcion w.fuel r) [
          | none ↦ none
          | some res ↦ some (do c ← res; s' ← devolver s t pedido c; ok (s', resto))
        ]
  ]

  unfoldable pub atender_interrupcion : Servidor → List ℕ → Resultado (Servidor × List ℕ)
  unfolding recibir_buffer buffer_read_uint32
  atender_interrupcion s entrada = do
    (b, resto) ← recibir_buffer w.malloc entrada
    (_, _) ← buffer_read_uint32 b
    ok (record s { interrupcion_recibida = true }, resto)

  -- HANDSHAKE: the number of the module that asks is an int, and the answer is 0 or -1
  unfoldable pub atender_handshake : Servidor → List ℕ → Resultado (Servidor × List ℕ)
  unfolding handshake_server
  atender_handshake s entrada =
      if leb 4 (length entrada)
      then ok (
        record s {
          a_kernel =
              s.a_kernel
              ++ (if handshake_server cpu (de_le32 (take 4 entrada))
                  then le32 0
                  else le32 4294967295);
        },
        drop 4 entrada,
      )
      else falla no_inicializado

  -- the switch over the operation, which has been read
  unfoldable pub atender_operacion : Servidor → ℕ → List ℕ → Option (Resultado (Servidor × List ℕ))
  unfolding atender_handshake atender_contexto atender_interrupcion
  atender_operacion s op entrada =
      if op == op_handshake
      then some (atender_handshake s entrada)
      else if op == op_contexto
      then atender_contexto s entrada
      else if op == op_interrupcion
      then some (atender_interrupcion s entrada)
      else some (ok (s, entrada))

-- The loop, over the bytes that arrive; `mundos` has what surrounds each message. It ends when nothing
-- more arrives, and at an operation that is a negative int. The outer `none` is its own fuel used up,
-- the inner one that of a cycle.
unfoldable pub atender :
    (ℕ → Mundo) → ℕ → ℕ → Servidor → List ℕ → Option (Option (Resultado Servidor))
unfolding recibir_operacion atender_operacion
atender mundos n zero s entrada = none
atender mundos n (suc fuel) s entrada = elim (recibir_operacion entrada) [
  | none ↦ some (some (ok s))
  | some (op, resto) ↦ elim (leb (2 ^ 31) op) [
    | true ↦ some (some (ok s))
    | false ↦ elim (atender_operacion (mundos n) s op resto) [
      | none ↦ some none
      | some exit_failure ↦ some (some exit_failure)
      | some (falla x) ↦ some (some (falla x))
      | some (ok (s', resto')) ↦ atender mundos (n + 1) fuel s' resto'
    ]
  ]
]

unfoldable pub server_cpu :
    (ℕ → Mundo) → ℕ → Servidor → List ℕ → Option (Option (Resultado Servidor))
unfolding atender
server_cpu mundos fuel s entrada =
    atender mundos 0 fuel (record s { interrupcion_recibida = false }) entrada
