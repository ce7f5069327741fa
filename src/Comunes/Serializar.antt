-- ===== src/Comunes/Serializar.antt =====
-- The structures that travel in a buffer, `SerializarTCB` to `SerializarPIDTID` of
-- utils/src/commons.c, and `TCB` of utils/src/commons.h. The four estados are their numbers in
-- `estados_proceso`, NEW 0 to EXIT 4. Blocks that `malloc` and `realloc` return are arguments.
pub mod Escritura
pub mod Ida
pub mod Pcb
use so_tp_2c.Prelude.{ℕ, ◌+◌, ◌-◌, ◌*◌, ◌≡◌, Option, none, some, List, [], ◌∷◌, ◌++◌, length, take}
use so_tp_2c.Prelude.Resultado.{Resultado, ok, falla, ◌>>=◌}
use so_tp_2c.Comunes.Bytes.{le32}
use so_tp_2c.Comunes.Buffer.{
  Buffer, buffer_create, buffer_write, buffer_read_uint32, buffer_read_int, buffer_add_string,
}
use so_tp_2c.Cpu.Registros.{Registros}

pub record Tcb : Type 0 where
  pub pid : ℕ
  pub tid : ℕ
  pub prioridad : ℕ
  pub estado : ℕ

-- `*(uint32_t*)(buffer->stream + buffer->offset) = ...; buffer->offset += sizeof(uint32_t)`, once
-- for each word.
unfoldable pub escribir_palabras : Buffer → List ℕ → Resultado Buffer
escribir_palabras b [] = ok b
escribir_palabras b (n ∷ ns) = do b' ← buffer_write b (le32 n); escribir_palabras b' ns

-- The size is not set.
unfoldable pub serializar_tcb : List ℕ → Tcb → Resultado Buffer
unfolding escribir_palabras
serializar_tcb bloque p =
    escribir_palabras (record { size = none; offset = 0; stream = bloque })
      (p.pid ∷ p.tid ∷ p.prioridad ∷ p.estado ∷ [])

unfoldable pub deserializar_tcb : Buffer → Resultado (Tcb × Buffer)
unfolding buffer_read_uint32
deserializar_tcb b = do
  (pid, b1) ← buffer_read_uint32 b
  (tid, b2) ← buffer_read_uint32 b1
  (prioridad, b3) ← buffer_read_uint32 b2
  (estado, b4) ← buffer_read_int b3
  ok (record { pid = pid; tid = tid; prioridad = prioridad; estado = estado }, b4)

unfoldable pub palabras_de : Registros → List ℕ
palabras_de r =
    r.pc ∷ r.ax ∷ r.bx ∷ r.cx ∷ r.dx ∷ r.ex ∷ r.fx ∷ r.gx ∷ r.hx ∷ r.base ∷ r.limite ∷ []

-- `realloc` keeps what fits of the old block; `nuevo` is what the rest of the new one holds.
unfoldable pub serializar_registros : List ℕ → Buffer → Registros → Resultado Buffer
unfolding escribir_palabras palabras_de
serializar_registros nuevo b r =
    escribir_palabras (record b { stream = take (b.offset + 44) (b.stream ++ nuevo) })
      (palabras_de r)

unfoldable pub deserializar_registros : Buffer → Resultado (Registros × Buffer)
unfolding buffer_read_uint32
deserializar_registros b = do
  (pc, b1) ← buffer_read_uint32 b
  (ax, b2) ← buffer_read_uint32 b1
  (bx, b3) ← buffer_read_uint32 b2
  (cx, b4) ← buffer_read_uint32 b3
  (dx, b5) ← buffer_read_uint32 b4
  (ex, b6) ← buffer_read_uint32 b5
  (fx, b7) ← buffer_read_uint32 b6
  (gx, b8) ← buffer_read_uint32 b7
  (hx, b9) ← buffer_read_uint32 b8
  (base, b10) ← buffer_read_uint32 b9
  (limite, b11) ← buffer_read_uint32 b10
  ok (
    record {
      pc = pc;
      ax = ax;
      bx = bx;
      cx = cx;
      dx = dx;
      ex = ex;
      fx = fx;
      gx = gx;
      hx = hx;
      base = base;
      limite = limite;
    },
    b11,
  )

-- The offset of the writes is a local one: that of the buffer is whatever `malloc` left there.
unfoldable pub serializar_pid_tid : List ℕ → ℕ → Registros → ℕ → ℕ → Resultado Buffer
unfolding escribir_palabras
serializar_pid_tid bloque inicial r pid tid = do
  b ←
      escribir_palabras (record { size = some 44; offset = 0; stream = bloque })
        (r.pc ∷ r.ax ∷ r.bx ∷ r.cx ∷ r.dx ∷ r.ex ∷ r.fx ∷ r.gx ∷ r.hx ∷ pid ∷ tid ∷ [])
  ok (record b { offset = inicial })

-- `SerializarString`: `bloque` has the length of the text and of an int.
unfoldable pub serializar_string : List ℕ → List ℕ → Resultado Buffer
unfolding buffer_add_string
serializar_string bloque mensaje = buffer_add_string (buffer_create bloque) mensaje
