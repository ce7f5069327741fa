-- ===== src/Memoria/Contexto/Mensajes.antt =====
-- The context of a thread as a message: `buffer_add_contexto` and `buffer_read_contexto` of
-- utils/src/commons.c, and `enviar_contexto` of memoria/src/manejar_cpu.c, against what the CPU reads of
-- it in solicitar_contexto of cpu/src/conexion_memoria.c. `bloque` is what `malloc` returned: a
-- `t_contexto_cpu` has 56 bytes, of which 8 are a pointer and 8 are padding.
use so_tp_2c.Prelude.{
  ℕ, ◌+◌, ◌^◌, ◌<◌, ◌≤◌, ◌≡◌, refl, ◌∙◌, Bool, false, ◌==◌, ◌||◌, List, [], ◌∷◌, ◌++◌, arith, take,
  drop, length, length-append, append_assoc, append-nil, if◌then◌else◌, take-length_append,
}
use so_tp_2c.Prelude.Resultado.{Resultado, ok, falla, fuera_de_bloque, no_inicializado, ◌>>=◌}
use so_tp_2c.Comunes.Bytes.{le32, de_le32, length-le32}
use so_tp_2c.Comunes.Buffer.{
  Buffer, buffer_create, buffer_write, buffer_add_uint32, buffer_add_string, buffer_read,
  buffer_read_uint32,
}
use so_tp_2c.Comunes.Buffer.Leyes.{avanzado, buffer_read_uint32-Ante}
use so_tp_2c.Comunes.Buffer.Escritor.{
  escribir_partes, juntar, escribir_partes-buffer_create, escribir_partes-Lleno,
  Escrito-buffer_create, Ante-bytes,
}
use so_tp_2c.Comunes.Serializar.{deserializar_registros}
use so_tp_2c.Comunes.Serializar.Escritura.{bytes_de, length-bytes_de}
use so_tp_2c.Comunes.Red.{enviar_buffer, recibir_buffer}
use so_tp_2c.Comunes.Red.Cable.{recibir_buffer-le32}
use so_tp_2c.Cpu.Registros.{Registros}
use so_tp_2c.Memoria.Procesos.{RegistrosHilo}
use so_tp_2c.Memoria.Contexto.{ContextoCpu}

-- the fields of `t_registros_hilo`, in their order
abbrev palabras_hilo : RegistrosHilo → List ℕ
palabras_hilo r = r.ax ∷ r.bx ∷ r.cx ∷ r.dx ∷ r.ex ∷ r.fx ∷ r.gx ∷ r.hx ∷ r.pc ∷ []

unfoldable pub buffer_add_contexto : Buffer → ContextoCpu → Resultado Buffer
unfolding buffer_add_string buffer_add_uint32 buffer_write bytes_de
buffer_add_contexto b c = do
  b1 ← buffer_add_string b c.base
  b2 ← buffer_add_uint32 b1 c.limite
  buffer_write b2 (bytes_de (palabras_hilo c.registros))

unfoldable pub enviar_contexto : List ℕ → ContextoCpu → Resultado (List ℕ)
unfolding buffer_add_contexto enviar_buffer
enviar_contexto bloque c = do b ← buffer_add_contexto (buffer_create bloque) c; enviar_buffer b

-- whether `strlen` finds the end of a text
abbrev hay_fin : List ℕ → Bool
hay_fin [] = false
hay_fin (c ∷ cs) = (c == 0) || hay_fin cs

-- The context is written through a pointer that has no value.
unfoldable pub buffer_read_contexto : Buffer → Resultado (ContextoCpu × Buffer)
buffer_read_contexto b =
    if hay_fin (drop b.offset b.stream) then falla no_inicializado else falla fuera_de_bloque

abbrev partes_contexto : ContextoCpu → List (List ℕ)
partes_contexto c =
    le32 (length c.base) ∷ c.base ∷ le32 c.limite ∷ bytes_de (palabras_hilo c.registros) ∷ []

buffer_add_contexto-partes :
    (b : Buffer) (c : ContextoCpu) → buffer_add_contexto b c ≡ escribir_partes b (partes_contexto c)
unfolding buffer_add_contexto buffer_add_string buffer_add_uint32
buffer_add_contexto-partes b c = ground arith

length-partes : (c : ContextoCpu) → length (juntar (partes_contexto c)) ≡ 44 + length c.base
length-partes c = ground (
  arith,
  length-append (le32 (length c.base))
      (c.base ++ (le32 c.limite ++ (bytes_de (palabras_hilo c.registros) ++ []))),
  length-append c.base (le32 c.limite ++ (bytes_de (palabras_hilo c.registros) ++ [])),
  length-append (le32 c.limite) (bytes_de (palabras_hilo c.registros) ++ []),
  append-nil (bytes_de (palabras_hilo c.registros)),
  length-bytes_de (palabras_hilo c.registros),
  length-le32 (length c.base),
  length-le32 c.limite,
)

-- A word can be read as long as four bytes are left.
pub leer-algo :
    (b : Buffer)
    → b.offset + 4 ≤ length b.stream
    → (n : ℕ) × (buffer_read_uint32 b ≡ ok (n, avanzado b 4))
unfolding buffer_read_uint32 buffer_read
leer-algo b h = (de_le32 (take 4 (drop b.offset b.stream)), ground (arith, h))

-- From a block of 44 bytes or more the CPU reads its registers, and its program counter first.
deserializar_registros-pc :
    (s : List ℕ) (n : ℕ) (resto : List ℕ)
    → s ≡ le32 n ++ resto
    → n < 2 ^ 32
    → 44 ≤ length s
    → (r : Registros) × (b : Buffer) × (deserializar_registros (buffer_create s) ≡ ok (r, b))
      × (r.pc ≡ n)
unfolding deserializar_registros
deserializar_registros-pc s n resto hs hn hl =
    let b0 = buffer_create s in
    let (e0, _) = buffer_read_uint32-Ante b0 n resto hn (Ante-bytes s _ hs) in
    let (ax, e1) = leer-algo (avanzado b0 4) (omega (arith, hl)) in
    let (bx, e2) = leer-algo (avanzado (avanzado b0 4) 4) (omega (arith, hl)) in
    let b3 = avanzado (avanzado (avanzado b0 4) 4) 4 in
    let (cx, e3) = leer-algo b3 (omega (arith, hl)) in
    let (dx, e4) = leer-algo (avanzado b3 4) (omega (arith, hl)) in
    let (ex, e5) = leer-algo (avanzado (avanzado b3 4) 4) (omega (arith, hl)) in
    let b6 = avanzado (avanzado (avanzado b3 4) 4) 4 in
    let (fx, e6) = leer-algo b6 (omega (arith, hl)) in
    let (gx, e7) = leer-algo (avanzado b6 4) (omega (arith, hl)) in
    let (hx, e8) = leer-algo (avanzado (avanzado b6 4) 4) (omega (arith, hl)) in
    let b9 = avanzado (avanzado (avanzado b6 4) 4) 4 in
    let (base, e9) = leer-algo b9 (omega (arith, hl)) in
    let (limite, e10) = leer-algo (avanzado b9 4) (omega (arith, hl)) in
    (
      record {
        pc = n;
        ax = ax;
        bx = bx;
        cx = cx;
        dx = dx;
        ex = ex;
        fx = fx;
        gx = gx;
        hx = hx;
        base = base;
        limite = limite;
      },
      avanzado (avanzado b9 4) 4,
      ground (arith, e0, e1, e2, e3, e4, e5, e6, e7, e8, e9, e10),
      refl,
    )

-- What enviar_contexto sends when the text of the base has at most 12 characters and malloc returns
-- blocks of the size asked for, the CPU receives, and from it reads registers whose program counter is
-- the length of that text, whatever the program counter of the thread is.
pub deserializar_registros-enviar_contexto :
    (malloc : ℕ → List ℕ) (c : ContextoCpu)
    → ((n : ℕ) → length (malloc n) ≡ n)
    → length c.base ≤ 12
    → (cable : List ℕ) × (b : Buffer) × (r : Registros) × (b' : Buffer) × (enviar_contexto
          (malloc 56)
          c
        ≡ ok cable)
      × (recibir_buffer malloc cable ≡ ok (b, []))
      × (deserializar_registros b ≡ ok (r, b'))
      × (r.pc ≡ length c.base)
unfolding enviar_contexto enviar_buffer
deserializar_registros-enviar_contexto malloc c hm hb =
    let (b, resto, e, s, v, largo) =
      escribir_partes-buffer_create (partes_contexto c) (malloc 56)
        (omega (arith, hm 56, hb, length-partes c)) in
    let (r, b', er, hr) =
      deserializar_registros-pc b.stream (length c.base)
        ((c.base ++ (le32 c.limite ++ (bytes_de (palabras_hilo c.registros) ++ []))) ++ resto)
        (v
          ∙ append_assoc (le32 (length c.base))
              (c.base ++ (le32 c.limite ++ (bytes_de (palabras_hilo c.registros) ++ []))) resto)
        (omega (arith, hb)) (omega (arith, largo, hm 56)) in
    (
      le32 (length b.stream) ++ (b.stream ++ []),
      buffer_create b.stream,
      r,
      b',
      ground (
        arith,
        buffer_add_contexto-partes (buffer_create (malloc 56)) c,
        e,
        s,
        take-length_append b.stream [],
        append-nil b.stream,
      ),
      recibir_buffer-le32 malloc b.stream [] (hm (length b.stream)) (omega (arith, largo, hm 56)),
      er,
      hr,
    )

-- A longer text is written past the end of the block, which holds a pointer in its place.
pub enviar_contexto-desborda :
    (bloque : List ℕ) (c : ContextoCpu)
    → length bloque ≡ 56
    → 12 < length c.base
    → enviar_contexto bloque c ≡ falla fuera_de_bloque
unfolding enviar_contexto
enviar_contexto-desborda bloque c hm hb = ground (
  arith,
  buffer_add_contexto-partes (buffer_create bloque) c,
  escribir_partes-Lleno (partes_contexto c) (buffer_create bloque) [] (length bloque)
      (Escrito-buffer_create bloque) (omega (arith, hm, hb, length-partes c)),
)
