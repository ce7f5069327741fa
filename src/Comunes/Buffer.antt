-- ===== src/Comunes/Buffer.antt =====
-- `t_buffer` and its readers and writers: utils/src/commons.c. `stream` is the allocated block; a
-- size that was never set is `none`. Words are bit patterns of 32 bits.
pub mod Leyes
pub mod Escritor
use so_tp_2c.Prelude.{
  ℕ, ◌+◌, ◌-◌, ◌*◌, ◌%◌, ◌≡◌, Bool, true, false, Option, none, some, List, [], ◌∷◌, ◌++◌, leb, take,
  drop, length, if◌then◌else◌,
}
use so_tp_2c.Prelude.Resultado.{
  Resultado, ok, falla, puntero_nulo, fuera_de_bloque, no_inicializado, ◌>>=◌,
}
use so_tp_2c.Comunes.Bytes.{le32, de_le32}

pub record Buffer : Type 0 where
  pub size : Option ℕ
  pub offset : ℕ
  pub stream : List ℕ

-- `buffer_create`, given the block that `malloc` returns, whatever it holds.
abbrev pub buffer_create : List ℕ → Buffer
buffer_create bloque = record { size = some (length bloque); offset = 0; stream = bloque }

-- `memcpy(buffer->stream + buffer->offset, ..., n); buffer->offset += n`
unfoldable pub buffer_write : Buffer → List ℕ → Resultado Buffer
buffer_write b bytes =
    if leb (b.offset + length bytes) (length b.stream)
    then ok (record b {
      offset = b.offset + length bytes;
      stream = take b.offset b.stream ++ (bytes ++ drop (b.offset + length bytes) b.stream);
    })
    else falla fuera_de_bloque

unfoldable pub buffer_read : Buffer → ℕ → Resultado (List ℕ × Buffer)
buffer_read b n =
    if leb (b.offset + n) (length b.stream)
    then ok (take n (drop b.offset b.stream), record b { offset = b.offset + n })
    else falla fuera_de_bloque

unfoldable pub buffer_add_uint32 : Buffer → ℕ → Resultado Buffer
unfolding buffer_write
buffer_add_uint32 b dato = buffer_write b (le32 dato)

-- `buffer_add_int`: the same four bytes.
abbrev pub buffer_add_int : Buffer → ℕ → Resultado Buffer
buffer_add_int = buffer_add_uint32

unfoldable pub buffer_add_uint8 : Buffer → ℕ → Resultado Buffer
unfolding buffer_write
buffer_add_uint8 b dato = buffer_write b (dato % 256 ∷ [])

unfoldable pub buffer_add_string : Buffer → List ℕ → Resultado Buffer
unfolding buffer_write
buffer_add_string b texto = do b' ← buffer_write b (le32 (length texto)); buffer_write b' texto

unfoldable pub buffer_read_uint32 : Buffer → Resultado (ℕ × Buffer)
unfolding buffer_read
buffer_read_uint32 b = do (bytes, b') ← buffer_read b 4; ok (de_le32 bytes, b')

abbrev pub buffer_read_int : Buffer → Resultado (ℕ × Buffer)
buffer_read_int = buffer_read_uint32

abbrev primero : List ℕ → ℕ
primero [] = 0
primero (c ∷ cs) = c

unfoldable pub buffer_read_uint8 : Buffer → Resultado (ℕ × Buffer)
unfolding buffer_read
buffer_read_uint8 b = do (bytes, b') ← buffer_read b 1; ok (primero bytes, b')

unfoldable pub buffer_read_string : Buffer → Resultado (List ℕ × Buffer)
unfolding buffer_read_uint32 buffer_read
buffer_read_string b = do (largo, b') ← buffer_read_int b; buffer_read b' largo

-- `buffer_add_buffer`: the second block after the first; the offset stays.
unfoldable pub buffer_add_buffer : Buffer → Buffer → Resultado Buffer
buffer_add_buffer b1 b2 = elim b1.size [
  | none ↦ falla no_inicializado
  | some n1 ↦ elim b2.size [
    | none ↦ falla no_inicializado
    | some n2 ↦
        if leb n1 (length b1.stream)
        then (if leb n2 (length b2.stream)
            then ok (record b1 {
              size = some (n1 + n2);
              stream = take n1 b1.stream ++ take n2 b2.stream;
            })
            else falla fuera_de_bloque)
        else falla fuera_de_bloque
  ]
]

-- `buffer_get_sobrante`: what has not been read, as a buffer of its own. Past the size the length is
-- negative, and `malloc` returns NULL for it.
unfoldable pub buffer_get_sobrante : Buffer → Resultado Buffer
buffer_get_sobrante b = elim b.size [
  | none ↦ falla no_inicializado
  | some n ↦
      if leb b.offset n
      then (if leb n (length b.stream)
          then ok (buffer_create (take (n - b.offset) (drop b.offset b.stream)))
          else falla fuera_de_bloque)
      else falla puntero_nulo
]
