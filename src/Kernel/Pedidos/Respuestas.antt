-- ===== src/Kernel/Pedidos/Respuestas.antt =====
-- What the kernel reads of the answers that `enviar_estado` of memoria/src/main.c sends it.
use so_tp_2c.Prelude.{
  ℕ, ◌^◌, ◌≤◌, ◌<◌, ◌≡◌, refl, List, [], ◌∷◌, ◌++◌, arith, take, drop, length, length-append,
}
use so_tp_2c.Prelude.Resultado.{ok}
use so_tp_2c.Comunes.Bytes.{le32, length-le32, de_le32-le32}
use so_tp_2c.Comunes.Buffer.{Buffer, buffer_create, buffer_add_uint32, buffer_read_uint32}
use so_tp_2c.Comunes.Buffer.Leyes.{buffer_read_uint32-Ante}
use so_tp_2c.Comunes.Buffer.Escritor.{escribir_partes-buffer_create, Ante-bytes}
use so_tp_2c.Comunes.Red.{enviar_buffer, enviar_operacion, recibir_buffer, recibir_en}
use so_tp_2c.Memoria.Peticiones.{enviar_estado}
use so_tp_2c.Kernel.Pedidos.{leer_respuesta}

abbrev partes_crear_proceso : ℕ → List ℕ → ℕ → List (List ℕ)
partes_crear_proceso pid archivo tamanio =
    le32 pid ∷ le32 (length archivo) ∷ archivo ∷ le32 tamanio ∷ []

recibir_en-le32 :
    (w x y z : ℕ) (bs : List ℕ) (n : ℕ) (resto : List ℕ)
    → recibir_en (w ∷ x ∷ y ∷ z ∷ bs) (le32 n ++ resto) ≡ le32 n ++ recibir_en bs resto
unfolding recibir_en le32
recibir_en-le32 w x y z bs n resto = refl

-- The first word of what was received, over a block that has room for it.
leer-recibir_en :
    (bloque : List ℕ) (n : ℕ) (resto : List ℕ)
    → 4 ≤ length bloque
    → n < 2 ^ 32
    → (b : Buffer) × (buffer_read_uint32 (buffer_create (recibir_en bloque (le32 n ++ resto)))
        ≡ ok (n, b))
leer-recibir_en [] n resto h hn = ground (arith, h)
leer-recibir_en (w ∷ []) n resto h hn = ground (arith, h)
leer-recibir_en (w ∷ x ∷ []) n resto h hn = ground (arith, h)
leer-recibir_en (w ∷ x ∷ y ∷ []) n resto h hn = ground (arith, h)
leer-recibir_en (w ∷ x ∷ y ∷ z ∷ bs) n resto h hn =
    (_, (buffer_read_uint32-Ante _ n _ hn (Ante-bytes _ _ (recibir_en-le32 w x y z bs n resto))).0)

recibir_buffer-le32 :
    (malloc : ℕ → List ℕ) (n : ℕ) (resto : List ℕ)
    → n < 2 ^ 31
    → recibir_buffer malloc (le32 n ++ resto)
      ≡ ok (buffer_create (recibir_en (malloc n) resto), drop n resto)
unfolding recibir_buffer le32
recibir_buffer-le32 malloc n resto h = ground (arith, h, de_le32-le32 n (omega (arith, h)))

enviar_estado-bytes :
    (bloque : List ℕ) (estado op : ℕ)
    → length bloque ≡ 4
    → (x : List ℕ) × (enviar_estado bloque estado op ≡ ok (le32 op ++ (le32 4 ++ x)))
unfolding enviar_estado buffer_add_uint32 enviar_operacion enviar_buffer
enviar_estado-bytes bloque estado op h =
    let (b, resto, e, s, v, largo) =
      escribir_partes-buffer_create (le32 estado ∷ []) bloque
        (omega (arith, h, length-append (le32 estado) [], length-le32 estado)) in
    (take 4 b.stream, ground (arith, e, s, largo, h))

-- The kernel reads the answers of the memory module without their operation, so that it takes the
-- operation for the size and the size for the answer: whatever state enviar_estado sends, with an
-- operation from 4 on that is not a negative int, as those of the kernel's requests are, the kernel reads the number 4.
pub leer_respuesta-enviar_estado :
    (malloc : ℕ → List ℕ) (bloque : List ℕ) (estado op : ℕ)
    → ((n : ℕ) → length (malloc n) ≡ n)
    → length bloque ≡ 4
    → 4 ≤ op
    → op < 2 ^ 31
    → (enviado : List ℕ) × (enviar_estado bloque estado op ≡ ok enviado)
      × (leer_respuesta malloc enviado ≡ ok 4)
unfolding leer_respuesta
leer_respuesta-enviar_estado malloc bloque estado op hm h h4 ho =
    let (x, e) = enviar_estado-bytes bloque estado op h in
    let (b, eb) = leer-recibir_en (malloc op) 4 x (omega (arith, hm op, h4)) (omega arith) in
    (
      le32 op ++ (le32 4 ++ x),
      e,
      ground (arith, recibir_buffer-le32 malloc op (le32 4 ++ x) ho, eb),
    )
