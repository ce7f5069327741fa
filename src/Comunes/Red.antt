-- ===== src/Comunes/Red.antt =====
-- What goes over a socket: `EnviarBuffer`, `EnviarOperacion` and `RecibirBuffer` of
-- utils/src/commons.c; `recibir_operacion`, `recibir_paquete` and `handshake_Server` of
-- utils/src/server/utils.c. A connection is the list of the bytes not yet received, all of which
-- `recv` has at hand; fewer bytes than asked for leave the rest of the variable as it was.
pub mod Cable
use so_tp_2c.Prelude.{
  ◌^◌, ℕ, ◌+◌, ◌-◌, ◌*◌, ◌≡◌, Bool, false, ◌||◌, Option, none, some, List, [], ◌∷◌, ◌++◌, leb, ◌==◌,
  length, take, drop, if◌then◌else◌,
}
use so_tp_2c.Prelude.Resultado.{
  Resultado, ok, falla, no_inicializado, fuera_de_bloque, puntero_nulo, ◌>>=◌,
}
use so_tp_2c.Comunes.Bytes.{le32, de_le32}
use so_tp_2c.Comunes.Buffer.{Buffer, buffer_create}

unfoldable pub enviar_buffer : Buffer → Resultado (List ℕ)
enviar_buffer b = elim b.size [
  | none ↦ falla no_inicializado
  | some n ↦
      if leb n (length b.stream) then ok (le32 n ++ take n b.stream) else falla fuera_de_bloque
]

-- The operation goes out as an int of four bytes.
unfoldable pub enviar_operacion : ℕ → Buffer → Resultado (List ℕ)
unfolding enviar_buffer
enviar_operacion op_code b = do bytes ← enviar_buffer b; ok (le32 op_code ++ bytes)

-- The payload, over the block that `malloc` returned.
unfoldable pub recibir_en : List ℕ → List ℕ → List ℕ
recibir_en bloque entrada =
    take (length bloque) entrada ++ drop (length (take (length bloque) entrada)) bloque

-- `malloc` is a function of the size. A size that is a negative int is too large for it: it returns
-- NULL, where the payload is then to be stored.
unfoldable pub recibir_buffer : (ℕ → List ℕ) → List ℕ → Resultado (Buffer × List ℕ)
unfolding recibir_en
recibir_buffer malloc entrada =
    if leb 4 (length entrada)
    then (let size = de_le32 (take 4 entrada) in
        let resto = drop 4 entrada in
        if leb (2 ^ 31) size
        then falla puntero_nulo
        else ok (buffer_create (recibir_en (malloc size) resto), drop size resto))
    else falla no_inicializado

-- `none` is the -1 of a closed connection, which an operation that is -1 looks like.
unfoldable pub recibir_operacion : List ℕ → Option (ℕ × List ℕ)
recibir_operacion entrada =
    if leb 4 (length entrada)
    then (if de_le32 (take 4 entrada) == 2 ^ 32 - 1
        then none
        else some (de_le32 (take 4 entrada), drop 4 entrada))
    else none

pub record Paquete : Type 0 where
  pub op_code : ℕ
  pub buffer : Buffer

-- The operation is read as one byte. The offset of the buffer is whatever `malloc` left there.
unfoldable pub recibir_paquete : (ℕ → List ℕ) → ℕ → List ℕ → Resultado (Paquete × List ℕ)
unfolding recibir_en
recibir_paquete malloc inicial [] = falla no_inicializado
recibir_paquete malloc inicial (op ∷ entrada) =
    if leb 4 (length entrada)
    then (let size = de_le32 (take 4 entrada) in
        let resto = drop 4 entrada in
        if leb (2 ^ 31) size
        then falla puntero_nulo
        else ok (
          record {
            op_code = op;
            buffer = record {
              size = some size;
              offset = inicial;
              stream = recibir_en (malloc size) resto;
            };
          },
          drop size resto,
        ))
    else falla no_inicializado

-- `modulos`, by their numbers
pub data Modulo : Type 0 where
  kernel memoria filesystem cpu : Modulo

abbrev pub numero_de_modulo : Modulo → ℕ
numero_de_modulo kernel = 0
numero_de_modulo memoria = 1
numero_de_modulo filesystem = 2
numero_de_modulo cpu = 3

-- `handshake_Server`: `true` for the answer 0, `false` for -1.
unfoldable pub handshake_server : Modulo → ℕ → Bool
handshake_server memoria cliente =
    (cliente == numero_de_modulo kernel) || (cliente == numero_de_modulo cpu)
handshake_server cpu cliente = cliente == numero_de_modulo kernel
handshake_server _ cliente = false
