-- ===== src/Comunes/Buffer/Leyes.antt =====
-- What is written into a buffer is read back.
use so_tp_2c.Prelude.{
  ℕ, ◌+◌, ◌^◌, ◌<◌, ◌≡◌, refl, sym, ap, ◌∙◌, List, [], ◌++◌, arith, drop, length, length-append,
  append_assoc, take-length_append, drop-length_append,
}
use so_tp_2c.Prelude.Resultado.{ok}
use so_tp_2c.Comunes.Bytes.{le32, length-le32, de_le32-le32}
use so_tp_2c.Comunes.Buffer.{
  Buffer, buffer_create, buffer_read, buffer_read_uint32, buffer_read_string,
}

-- A buffer about to read `bytes`, which follow what has been read.
pub record Ante (b : Buffer) (bytes : List ℕ) : Type 0 where
  pub antes : List ℕ
  pub bloque : b.stream ≡ antes ++ bytes
  pub en : b.offset ≡ length antes

abbrev pub avanzado : Buffer → ℕ → Buffer
avanzado b n = record b { offset = b.offset + n }

pub Ante-buffer_create : (bytes : List ℕ) → Ante (buffer_create bytes) bytes
Ante-buffer_create bytes = record { antes = []; bloque = refl; en = refl }

pub buffer_read-Ante :
    (b : Buffer) (xs ys : List ℕ)
    → Ante b (xs ++ ys)
    → (buffer_read b (length xs) ≡ ok (xs, avanzado b (length xs)))
      × Ante (avanzado b (length xs)) ys
unfolding buffer_read
buffer_read-Ante b xs ys v = (
  ground (
    arith,
    corta,
    take-length_append xs ys,
    ap length v.bloque,
    length-append v.antes (xs ++ ys),
    length-append xs ys,
    v.en,
  ),
  record {
    antes = v.antes ++ xs;
    bloque = v.bloque ∙ sym (append_assoc v.antes xs ys);
    en = omega (arith, length-append v.antes xs, v.en);
  },
)
  where
    corta : drop b.offset b.stream ≡ xs ++ ys
    corta = rw (v.bloque, v.en) (drop-length_append v.antes (xs ++ ys))

pub buffer_read_uint32-Ante :
    (b : Buffer) (n : ℕ) (ys : List ℕ)
    → n < 2 ^ 32
    → Ante b (le32 n ++ ys)
    → (buffer_read_uint32 b ≡ ok (n, avanzado b 4)) × Ante (avanzado b 4) ys
unfolding buffer_read_uint32
buffer_read_uint32-Ante b n ys h v = (ground (arith, leido.0, de_le32-le32 n h), leido.1)
  where
    leido : (buffer_read b 4 ≡ ok (le32 n, avanzado b 4)) × Ante (avanzado b 4) ys
    leido = rw (length-le32 n) at (buffer_read-Ante b (le32 n) ys v)

pub buffer_read_string-Ante :
    (b : Buffer) (t ys : List ℕ)
    → length t < 2 ^ 32
    → Ante b (le32 (length t) ++ (t ++ ys))
    → (buffer_read_string b ≡ ok (t, avanzado (avanzado b 4) (length t)))
      × Ante (avanzado (avanzado b 4) (length t)) ys
unfolding buffer_read_string
buffer_read_string-Ante b t ys h v = (ground (arith, largo.0, texto.0), texto.1)
  where
    largo : (buffer_read_uint32 b ≡ ok (length t, avanzado b 4)) × Ante (avanzado b 4) (t ++ ys)
    largo = buffer_read_uint32-Ante b (length t) (t ++ ys) h v

    texto :
        (buffer_read (avanzado b 4) (length t) ≡ ok (t, avanzado (avanzado b 4) (length t)))
        × Ante (avanzado (avanzado b 4) (length t)) ys
    texto = buffer_read-Ante (avanzado b 4) t ys (largo.1)
