-- ===== src/Comunes/Serializar/Ida.antt =====
-- The serialised structures, read back.
use so_tp_2c.Prelude.{
  ℕ, ◌+◌, ◌^◌, ◌<◌, ◌≡◌, refl, sym, ap, subst, none, some, List, [], ◌∷◌, ◌++◌, arith, take, drop,
  length, length-append, append_assoc, append-nil, take-length_append,
}
use so_tp_2c.Prelude.Resultado.{ok, falla, no_inicializado}
use so_tp_2c.Comunes.Bytes.{le32, length-le32}
use so_tp_2c.Comunes.Buffer.{
  Buffer, buffer_create, buffer_read_uint32, buffer_add_string, buffer_read_string,
}
use so_tp_2c.Comunes.Buffer.Leyes.{
  Ante, avanzado, Ante-buffer_create, buffer_read_uint32-Ante, buffer_read_string-Ante,
}
use so_tp_2c.Comunes.Serializar.{
  Tcb, serializar_tcb, deserializar_tcb, palabras_de, serializar_registros, deserializar_registros,
  serializar_pid_tid, serializar_string,
}
use so_tp_2c.Comunes.Red.{enviar_operacion}
use so_tp_2c.Comunes.Red.Cable.{enviar_operacion-sin_size}
use so_tp_2c.Cpu.Registros.{Registros}
use so_tp_2c.Comunes.Serializar.Escritura.{
  bytes_de, length-bytes_de, SonPalabras, drop_todo, length-drop, buffer_write_lem,
  escribir_palabras_lem,
}

-- A buffer whose next words are `n` and the ones of `ns`.
pub leer_palabra :
    (b : Buffer) (n : ℕ) (ns : List ℕ) (resto : List ℕ)
    → n < 2 ^ 32
    → Ante b (bytes_de (n ∷ ns) ++ resto)
    → (buffer_read_uint32 b ≡ ok (n, avanzado b 4)) × Ante (avanzado b 4) (bytes_de ns ++ resto)
unfolding bytes_de
leer_palabra b n ns resto h v =
    buffer_read_uint32-Ante b n (bytes_de ns ++ resto) h
      (subst (Ante b) (append_assoc (le32 n) (bytes_de ns) resto) v)

-- The thread that is read from a buffer about to read its four words.
pub deserializar_tcb-Ante :
    (b : Buffer) (t : Tcb) (resto : List ℕ)
    → SonPalabras (t.pid ∷ t.tid ∷ t.prioridad ∷ t.estado ∷ [])
    → Ante b (bytes_de (t.pid ∷ t.tid ∷ t.prioridad ∷ t.estado ∷ []) ++ resto)
    → deserializar_tcb b ≡ ok (t, avanzado b 16)
unfolding deserializar_tcb SonPalabras
deserializar_tcb-Ante b t resto (h1, (h2, (h3, (h4, _)))) v =
    let (e1, v1) = leer_palabra b t.pid (t.tid ∷ t.prioridad ∷ t.estado ∷ []) resto h1 v in
    let (e2, v2) = leer_palabra (avanzado b 4) t.tid (t.prioridad ∷ t.estado ∷ []) resto h2 v1 in
    let (e3, v3) =
      leer_palabra (avanzado (avanzado b 4) 4) t.prioridad (t.estado ∷ []) resto h3 v2 in
    let (e4, v4) = leer_palabra (avanzado (avanzado (avanzado b 4) 4) 4) t.estado [] resto h4 v3 in
    ground (arith, e1, e2, e3, e4)

-- SerializarTCB writes the four words of a thread into its block of 16 bytes, and DeserializarTCB
-- reads the thread back from those bytes, when its fields are words of 32 bits; but the buffer has
-- no size, so that sending it with any operation, as the kernel does to hand the thread to the CPU,
-- reads a variable that was never given a value.
pub deserializar-serializar_tcb :
    (t : Tcb) (bloque : List ℕ) (op : ℕ)
    → length bloque ≡ 16
    → SonPalabras (t.pid ∷ t.tid ∷ t.prioridad ∷ t.estado ∷ [])
    → (b : Buffer) × (serializar_tcb bloque t ≡ ok b)
      × (enviar_operacion op b ≡ falla no_inicializado)
      × (deserializar_tcb (buffer_create b.stream) ≡ ok (t, avanzado (buffer_create b.stream) 16))
unfolding serializar_tcb
deserializar-serializar_tcb t bloque op largo palabras = (
  _,
  (escribir_palabras_lem (record { size = none; offset = 0; stream = bloque })
      (t.pid ∷ t.tid ∷ t.prioridad ∷ t.estado ∷ []) [] bloque refl refl (omega (arith, largo))),
  enviar_operacion-sin_size op _ refl,
  deserializar_tcb-Ante _ t _ palabras (Ante-buffer_create _),
)

-- The registers that are read from a buffer about to read their eleven words.
pub deserializar_registros-Ante :
    (b : Buffer) (r : Registros) (resto : List ℕ)
    → SonPalabras (palabras_de r)
    → Ante b (bytes_de (palabras_de r) ++ resto)
    → deserializar_registros b ≡ ok (r, avanzado b 44)
unfolding deserializar_registros SonPalabras palabras_de
deserializar_registros-Ante b r resto
      (h1, (h2, (h3, (h4, (h5, (h6, (h7, (h8, (h9, (h10, (h11, _))))))))))) v =
    let (e1, v1) =
      leer_palabra b r.pc
        (r.ax ∷ r.bx ∷ r.cx ∷ r.dx ∷ r.ex ∷ r.fx ∷ r.gx ∷ r.hx ∷ r.base ∷ r.limite ∷ []) resto h1
        v in
    let (e2, v2) =
      leer_palabra (avanzado b 4) r.ax
        (r.bx ∷ r.cx ∷ r.dx ∷ r.ex ∷ r.fx ∷ r.gx ∷ r.hx ∷ r.base ∷ r.limite ∷ []) resto h2 v1 in
    let (e3, v3) =
      leer_palabra (avanzado (avanzado b 4) 4) r.bx
        (r.cx ∷ r.dx ∷ r.ex ∷ r.fx ∷ r.gx ∷ r.hx ∷ r.base ∷ r.limite ∷ []) resto h3 v2 in
    let (e4, v4) =
      leer_palabra (avanzado (avanzado (avanzado b 4) 4) 4) r.cx
        (r.dx ∷ r.ex ∷ r.fx ∷ r.gx ∷ r.hx ∷ r.base ∷ r.limite ∷ []) resto h4 v3 in
    let (e5, v5) =
      leer_palabra (avanzado (avanzado (avanzado (avanzado b 4) 4) 4) 4) r.dx
        (r.ex ∷ r.fx ∷ r.gx ∷ r.hx ∷ r.base ∷ r.limite ∷ []) resto h5 v4 in
    let (e6, v6) =
      leer_palabra (avanzado (avanzado (avanzado (avanzado (avanzado b 4) 4) 4) 4) 4) r.ex
        (r.fx ∷ r.gx ∷ r.hx ∷ r.base ∷ r.limite ∷ []) resto h6 v5 in
    let (e7, v7) =
      leer_palabra (avanzado (avanzado (avanzado (avanzado (avanzado (avanzado b 4) 4) 4) 4) 4) 4)
        r.fx (r.gx ∷ r.hx ∷ r.base ∷ r.limite ∷ []) resto h7 v6 in
    let (e8, v8) =
      leer_palabra
        (avanzado (avanzado (avanzado (avanzado (avanzado (avanzado (avanzado b 4) 4) 4) 4) 4) 4) 4)
        r.gx (r.hx ∷ r.base ∷ r.limite ∷ []) resto h8 v7 in
    let (e9, v9) =
      leer_palabra
        (avanzado
          (avanzado (avanzado (avanzado (avanzado (avanzado (avanzado (avanzado b 4) 4) 4) 4) 4) 4)
            4)
          4)
        r.hx (r.base ∷ r.limite ∷ []) resto h9 v8 in
    let (e10, v10) =
      leer_palabra
        (avanzado
          (avanzado
            (avanzado
              (avanzado (avanzado (avanzado (avanzado (avanzado (avanzado b 4) 4) 4) 4) 4) 4) 4)
            4)
          4)
        r.base (r.limite ∷ []) resto h10 v9 in
    let (e11, v11) =
      leer_palabra
        (avanzado
          (avanzado
            (avanzado
              (avanzado
                (avanzado (avanzado (avanzado (avanzado (avanzado (avanzado b 4) 4) 4) 4) 4) 4) 4)
              4)
            4)
          4)
        r.limite [] resto h11 v10 in
    ground (arith, e1, e2, e3, e4, e5, e6, e7, e8, e9, e10, e11)

length-palabras_de : (r : Registros) → length (palabras_de r) ≡ 11
unfolding palabras_de
length-palabras_de r = refl

-- SerializarRegistros appends the eleven registers to what a buffer has written so far, when the
-- block that realloc returns reaches 44 bytes further, and DeserializarRegistros, before those bytes,
-- reads the same registers back when they are words of 32 bits.
pub deserializar-serializar_registros :
    (b : Buffer) (r : Registros) (nuevo : List ℕ)
    → length b.stream ≡ b.offset
    → length nuevo ≡ 44
    → SonPalabras (palabras_de r)
    → (b' : Buffer) × (serializar_registros nuevo b r ≡ ok b')
      × (b'.stream ≡ b.stream ++ bytes_de (palabras_de r))
      × (deserializar_registros (record b' { offset = b.offset }) ≡ ok (r, b'))
unfolding serializar_registros
deserializar-serializar_registros b r nuevo en largo palabras = (
  record b { offset = b.offset + 44; stream = b.stream ++ bytes_de (palabras_de r) },
  ground (
    arith,
    escribir_palabras_lem (record b { stream = take (b.offset + 44) (b.stream ++ nuevo) })
        (palabras_de r) b.stream nuevo entero (sym en) (omega (arith, largo, length-palabras_de r)),
    length-palabras_de r,
    append-nil (bytes_de (palabras_de r)),
    drop_todo nuevo 44 largo,
  ),
  refl,
  ground (
    arith,
    deserializar_registros-Ante (record b { stream = b.stream ++ bytes_de (palabras_de r) }) r []
        palabras
        (record {
          antes = b.stream;
          bloque = ap (λ xs. b.stream ++ xs) (sym (append-nil (bytes_de (palabras_de r))));
          en = sym en;
        }),
  ),
)
  where
    entero : take (b.offset + 44) (b.stream ++ nuevo) ≡ b.stream ++ nuevo
    entero = ground (
      arith,
      en,
      largo,
      take-length_append (b.stream ++ nuevo) [],
      append-nil (b.stream ++ nuevo),
      length-append b.stream nuevo,
    )

-- SerializarString fills a block as long as the text and an int, and DeserializarString reads the
-- same text back from it, when the length is a word of 32 bits.
pub deserializar-serializar_string :
    (mensaje bloque : List ℕ)
    → length bloque ≡ length mensaje + 4
    → length mensaje < 2 ^ 32
    → (b : Buffer) × (serializar_string bloque mensaje ≡ ok b)
      × (buffer_read_string (buffer_create b.stream)
          ≡ ok (mensaje, avanzado (avanzado (buffer_create b.stream) 4) (length mensaje)))
unfolding serializar_string buffer_add_string
deserializar-serializar_string mensaje bloque largo h = (
  record {
    size = some (length bloque);
    offset = 4 + length mensaje;
    stream = le32 (length mensaje) ++ (mensaje ++ []);
  },
  ground (
    arith,
    length-le32 (length mensaje),
    buffer_write_lem (buffer_create bloque) (le32 (length mensaje)) [] bloque refl refl
        (omega (arith, largo, length-le32 (length mensaje))),
    buffer_write_lem
        (record {
          size = some (length bloque);
          offset = 4;
          stream = le32 (length mensaje) ++ drop 4 bloque;
        })
        mensaje (le32 (length mensaje)) (drop 4 bloque) refl (sym (length-le32 (length mensaje)))
        (omega (arith, largo, length-drop 4 bloque)),
    drop_todo (drop 4 bloque) (length mensaje) (omega (arith, largo, length-drop 4 bloque)),
  ),
  (buffer_read_string-Ante _ mensaje [] h (Ante-buffer_create _)).0,
)

-- SerializarPIDTID fills its block of 44 bytes, but a reader that takes a PID and a TID from the
-- start of it, as the memory does with the contexts it updates, gets the registers PC and AX, when
-- the words have 32 bits.
pub serializar_pid_tid-lectura :
    (r : Registros) (pid tid inicial : ℕ) (bloque : List ℕ)
    → length bloque ≡ 44
    → r.pc < 2 ^ 32
    → r.ax < 2 ^ 32
    → (b : Buffer) × (serializar_pid_tid bloque inicial r pid tid ≡ ok b)
      × (b.size ≡ some (length b.stream))
      × (buffer_read_uint32 (buffer_create b.stream)
          ≡ ok (r.pc, avanzado (buffer_create b.stream) 4))
      × (buffer_read_uint32 (avanzado (buffer_create b.stream) 4)
          ≡ ok (r.ax, avanzado (avanzado (buffer_create b.stream) 4) 4))
unfolding serializar_pid_tid
serializar_pid_tid-lectura r pid tid inicial bloque largo hpc hax =
    let ns : List ℕ = r.bx ∷ r.cx ∷ r.dx ∷ r.ex ∷ r.fx ∷ r.gx ∷ r.hx ∷ pid ∷ tid ∷ [] in
    let ws : List ℕ = r.pc ∷ r.ax ∷ ns in
    let b : Buffer = record { size = some 44; offset = inicial; stream = bytes_de ws ++ [] } in
    let (e1, v1) =
      leer_palabra (buffer_create b.stream) r.pc (r.ax ∷ ns) [] hpc (Ante-buffer_create _) in
    let (e2, v2) = leer_palabra (avanzado (buffer_create b.stream) 4) r.ax ns [] hax v1 in
    (
      b,
      ground (
        arith,
        escribir_palabras_lem (record { size = some 44; offset = 0; stream = bloque }) ws [] bloque
            refl refl (omega (arith, largo)),
        drop_todo bloque 44 largo,
      ),
      ground (arith, length-append (bytes_de ws) [], length-bytes_de ws),
      e1,
      e2,
    )
