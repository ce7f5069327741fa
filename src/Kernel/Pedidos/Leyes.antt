-- ===== src/Kernel/Pedidos/Leyes.antt =====
-- The requests of the kernel against what the memory module reads of them and answers.
use so_tp_2c.Prelude.{
  ℕ, ◌+◌, ◌^◌, ◌≤◌, ◌<◌, ◌≡◌, ap, ◌∙◌, some, List, [], ◌∷◌, ◌++◌, arith, length, length-append,
  append_assoc, append-nil,
}
use so_tp_2c.Prelude.Resultado.{ok, falla, fuera_de_bloque}
use so_tp_2c.Comunes.Bytes.{le32, length-le32}
use so_tp_2c.Comunes.Buffer.{Buffer, buffer_create, buffer_add_uint32, buffer_add_string}
use so_tp_2c.Comunes.Buffer.Leyes.{Ante, avanzado, buffer_read_uint32-Ante, buffer_read_string-Ante}
use so_tp_2c.Comunes.Buffer.Escritor.{
  Escrito-buffer_create, escribir_partes, juntar, escribir_partes-Lleno,
  escribir_partes-buffer_create, Ante-bytes,
}
use so_tp_2c.Comunes.Serializar.{Tcb}
use so_tp_2c.Memoria.Peticiones.{
  kernel_crear_proceso, kernel_crear_hilo, leer_crear_proceso, leer_crear_hilo, leer_peticion,
  memoria_kernel_crear_proceso, memoria_kernel_crear_hilo,
}
use so_tp_2c.Kernel.Pedidos.{mensaje_crear_proceso, mensaje_crear_hilo}

abbrev pub partes_crear_proceso : ℕ → List ℕ → ℕ → List (List ℕ)
partes_crear_proceso pid archivo tamanio =
    le32 pid ∷ le32 (length archivo) ∷ archivo ∷ le32 tamanio ∷ []

pub mensaje_crear_proceso-partes :
    (malloc : ℕ → List ℕ) (pid : ℕ) (archivo : List ℕ) (tamanio : ℕ)
    → mensaje_crear_proceso malloc pid archivo tamanio
      ≡ escribir_partes (buffer_create (malloc 16)) (partes_crear_proceso pid archivo tamanio)
unfolding mensaje_crear_proceso buffer_add_uint32 buffer_add_string
mensaje_crear_proceso-partes malloc pid archivo tamanio = ground arith

abbrev partes_crear_hilo : Tcb → List ℕ → List (List ℕ)
partes_crear_hilo t archivo =
    le32 t.pid ∷ le32 t.tid ∷ le32 (length archivo) ∷ archivo ∷ le32 t.prioridad ∷ []

mensaje_crear_hilo-partes :
    (malloc : ℕ → List ℕ) (t : Tcb) (archivo : List ℕ)
    → mensaje_crear_hilo malloc t archivo
      ≡ escribir_partes (buffer_create (malloc 20)) (partes_crear_hilo t archivo)
unfolding mensaje_crear_hilo buffer_add_uint32 buffer_add_string
mensaje_crear_hilo-partes malloc t archivo = ground arith

pub length-partes_proceso :
    (pid : ℕ) (archivo : List ℕ) (tamanio : ℕ)
    → length (juntar (partes_crear_proceso pid archivo tamanio)) ≡ 12 + length archivo
length-partes_proceso pid archivo tamanio = ground (
  arith,
  length-append (le32 pid) (le32 (length archivo) ++ (archivo ++ (le32 tamanio ++ []))),
  length-append (le32 (length archivo)) (archivo ++ (le32 tamanio ++ [])),
  length-append archivo (le32 tamanio ++ []),
  length-append (le32 tamanio) [],
  length-le32 pid,
  length-le32 (length archivo),
  length-le32 tamanio,
)

length-partes_hilo :
    (t : Tcb) (archivo : List ℕ)
    → length (juntar (partes_crear_hilo t archivo)) ≡ 16 + length archivo
length-partes_hilo t archivo = ground (
  arith,
  length-append (le32 t.pid) (juntar (partes_crear_proceso t.tid archivo t.prioridad)),
  length-partes_proceso t.tid archivo t.prioridad,
  length-le32 t.pid,
)

-- From a buffer about to read what the request holds, the memory module reads the request.
leer_crear_proceso-Ante :
    (b : Buffer) (pid : ℕ) (archivo : List ℕ) (tamanio : ℕ) (resto : List ℕ)
    → pid < 2 ^ 32
    → length archivo < 2 ^ 32
    → tamanio < 2 ^ 32
    → Ante b (le32 pid ++ (le32 (length archivo) ++ (archivo ++ (le32 tamanio ++ resto))))
    → leer_crear_proceso b ≡ ok (kernel_crear_proceso pid archivo tamanio)
unfolding leer_crear_proceso
leer_crear_proceso-Ante b pid archivo tamanio resto hp ha ht v =
    let (e1, v1) = buffer_read_uint32-Ante b pid _ hp v in
    let (e2, v2) = buffer_read_string-Ante (avanzado b 4) archivo _ ha v1 in
    let (e3, _) =
      buffer_read_uint32-Ante (avanzado (avanzado (avanzado b 4) 4) (length archivo)) tamanio resto
        ht v2 in
    ground (arith, e1, e2, e3)

leer_crear_hilo-Ante :
    (b : Buffer) (t : Tcb) (archivo : List ℕ) (resto : List ℕ)
    → t.pid < 2 ^ 32
    → t.tid < 2 ^ 32
    → length archivo < 2 ^ 32
    → t.prioridad < 2 ^ 32
    → Ante b (
        le32 t.pid
        ++ (le32 t.tid ++ (le32 (length archivo) ++ (archivo ++ (le32 t.prioridad ++ resto)))))
    → leer_crear_hilo b ≡ ok (kernel_crear_hilo t.pid t.tid archivo t.prioridad)
unfolding leer_crear_hilo
leer_crear_hilo-Ante b t archivo resto hp ht ha hr v =
    let (e1, v1) = buffer_read_uint32-Ante b t.pid _ hp v in
    let (e2, v2) = buffer_read_uint32-Ante (avanzado b 4) t.tid _ ht v1 in
    let (e3, v3) = buffer_read_string-Ante (avanzado (avanzado b 4) 4) archivo _ ha v2 in
    let (e4, _) =
      buffer_read_uint32-Ante (avanzado (avanzado (avanzado (avanzado b 4) 4) 4) (length archivo))
        t.prioridad resto hr v3 in
    ground (arith, e1, e2, e3, e4)

pub juntar-resto :
    (a b c d resto : List ℕ)
    → juntar (a ∷ b ∷ c ∷ d ∷ []) ++ resto ≡ a ++ (b ++ (c ++ (d ++ resto)))
juntar-resto a b c d resto = ground (
  arith,
  append-nil d,
  append_assoc a (b ++ (c ++ d)) resto,
  append_assoc b (c ++ d) resto,
  append_assoc c d resto,
)

-- When the name of the file has at most 4 characters and the numbers are words of 32 bits, the message
-- of crearProcesoMemoria, in the block of 16 bytes that malloc returns, is written in full, and
-- manejar_peticion reads from those bytes the request with the same identifier, name and size.
pub leer-mensaje_crear_proceso :
    (malloc : ℕ → List ℕ) (pid : ℕ) (archivo : List ℕ) (tamanio : ℕ)
    → length (malloc 16) ≡ 16
    → length archivo ≤ 4
    → pid < 2 ^ 32
    → tamanio < 2 ^ 32
    → (b : Buffer) × (mensaje_crear_proceso malloc pid archivo tamanio ≡ ok b)
      × (b.size ≡ some (length b.stream))
      × (leer_peticion memoria_kernel_crear_proceso (buffer_create b.stream)
          ≡ ok (kernel_crear_proceso pid archivo tamanio))
unfolding leer_peticion
leer-mensaje_crear_proceso malloc pid archivo tamanio hm ha hp ht =
    let (b, resto, e, s, v, _) =
      escribir_partes-buffer_create (partes_crear_proceso pid archivo tamanio) (malloc 16)
        (omega (arith, hm, ha, length-partes_proceso pid archivo tamanio)) in
    (
      b,
      mensaje_crear_proceso-partes malloc pid archivo tamanio ∙ e,
      s,
      leer_crear_proceso-Ante (buffer_create b.stream) pid archivo tamanio resto hp
          (omega (arith, ha)) ht
          (Ante-bytes b.stream _
            (v ∙ juntar-resto (le32 pid) (le32 (length archivo)) archivo (le32 tamanio) resto)),
    )

-- When the name of the file has at most 4 characters and the numbers are words of 32 bits, the message
-- of crearHiloMemoria, in the block of 20 bytes that malloc returns, is written in full, and
-- manejar_peticion reads from those bytes the request with the same identifiers, name and priority.
pub leer-mensaje_crear_hilo :
    (malloc : ℕ → List ℕ) (t : Tcb) (archivo : List ℕ)
    → length (malloc 20) ≡ 20
    → length archivo ≤ 4
    → t.pid < 2 ^ 32
    → t.tid < 2 ^ 32
    → t.prioridad < 2 ^ 32
    → (b : Buffer) × (mensaje_crear_hilo malloc t archivo ≡ ok b)
      × (b.size ≡ some (length b.stream))
      × (leer_peticion memoria_kernel_crear_hilo (buffer_create b.stream)
          ≡ ok (kernel_crear_hilo t.pid t.tid archivo t.prioridad))
unfolding leer_peticion
leer-mensaje_crear_hilo malloc t archivo hm ha hp ht hr =
    let (b, resto, e, s, v, _) =
      escribir_partes-buffer_create (partes_crear_hilo t archivo) (malloc 20)
        (omega (arith, hm, ha, length-partes_hilo t archivo)) in
    (
      b,
      mensaje_crear_hilo-partes malloc t archivo ∙ e,
      s,
      leer_crear_hilo-Ante (buffer_create b.stream) t archivo resto hp ht (omega (arith, ha)) hr (
          Ante-bytes b.stream _ (
            v
            ∙ append_assoc (le32 t.pid) (juntar (partes_crear_proceso t.tid archivo t.prioridad))
                resto
            ∙ ap (λ x. le32 t.pid ++ x)
                (juntar-resto (le32 t.tid) (le32 (length archivo)) archivo (le32 t.prioridad)
                  resto))),
    )

-- When the name of the file has more than 4 characters, both messages are written past the end of
-- their blocks, which hold a pointer where the text goes.
pub mensajes-desbordan :
    (malloc : ℕ → List ℕ) (pid : ℕ) (t : Tcb) (archivo : List ℕ) (tamanio : ℕ)
    → length (malloc 16) ≡ 16
    → length (malloc 20) ≡ 20
    → 4 < length archivo
    → (mensaje_crear_proceso malloc pid archivo tamanio ≡ falla fuera_de_bloque)
      × (mensaje_crear_hilo malloc t archivo ≡ falla fuera_de_bloque)
mensajes-desbordan malloc pid t archivo tamanio hm hn ha = (
  mensaje_crear_proceso-partes malloc pid archivo tamanio
      ∙ escribir_partes-Lleno (partes_crear_proceso pid archivo tamanio) _ [] (length (malloc 16))
          (Escrito-buffer_create (malloc 16))
          (omega (arith, hm, ha, length-partes_proceso pid archivo tamanio)),
  mensaje_crear_hilo-partes malloc t archivo
      ∙ escribir_partes-Lleno (partes_crear_hilo t archivo) _ [] (length (malloc 20))
          (Escrito-buffer_create (malloc 20)) (omega (arith, hn, ha, length-partes_hilo t archivo)),
)
