-- ===== src/Memoria/Contexto/Servicio/Lectura.antt =====
-- What `hilo_instrucciones_cpu` of memoria/src/manejar_cpu.c understands of the messages that
-- cpu/src/conexion_memoria.c sends.
use so_tp_2c.Prelude.{
  ℕ, zero, suc, ◌+◌, ◌*◌, ◌^◌, ◌≤◌, ◌≡◌, refl, ap, some, List, [], ◌∷◌, ◌++◌, arith, length, take,
  drop,
}
use so_tp_2c.Prelude.Resultado.{ok}
use so_tp_2c.Comunes.Bytes.{le32, de_le32}
use so_tp_2c.Comunes.Buffer.{Buffer, buffer_read_uint32}
use so_tp_2c.Comunes.Buffer.Leyes.{Ante, avanzado, buffer_read-Ante}
use so_tp_2c.Comunes.Serializar.{Tcb}
use so_tp_2c.Comunes.Red.{recibir_en}

pub take-corta {ℓ} : {A : Type ℓ} (n : ℕ) (xs : List A) → length xs ≤ n → take n xs ≡ xs
take-corta zero [] h = refl
take-corta zero (x ∷ xs) h = ground (arith, h)
take-corta (suc n) [] h = refl
take-corta (suc n) (x ∷ xs) h = ap (x ∷◌) (take-corta n xs (omega (arith, h)))

-- What arrives when less arrives than the block holds: the rest of the block stays.
pub recibir_en-corta :
    (bloque entrada : List ℕ)
    → length entrada ≤ length bloque
    → recibir_en bloque entrada ≡ entrada ++ drop (length entrada) bloque
unfolding recibir_en
recibir_en-corta bloque entrada h = rw (take-corta (length bloque) entrada h) refl

-- Any four bytes are a word.
pub buffer_read_uint32-bytes :
    (b : Buffer) (x y z w : ℕ) (ys : List ℕ)
    → Ante b (x ∷ y ∷ z ∷ w ∷ ys)
    → (buffer_read_uint32 b ≡ ok (x + 2 ^ 8 * y + 2 ^ 16 * z + 2 ^ 24 * w, avanzado b 4))
      × Ante (avanzado b 4) ys
unfolding buffer_read_uint32 de_le32
buffer_read_uint32-bytes b x y z w ys v =
    let (e, v') = buffer_read-Ante b (x ∷ y ∷ z ∷ w ∷ []) ys v in (ground (arith, e), v')

-- the bytes after the five that recibir_paquete takes for the operation and the size
abbrev corridos : Tcb → List ℕ
corridos t = 0 ∷ 0 ∷ 0 ∷ (le32 t.pid ++ (le32 t.tid ++ []))

-- The buffer that the memory makes of the request for a context.
abbrev recibido : (ℕ → List ℕ) → Tcb → Buffer
recibido malloc t = record {
  size = some 134217728;
  offset = 0;
  stream = corridos t ++ drop 11 (malloc 134217728);
}
