-- ===== src/Comunes/Red/Cable.antt =====
-- The two ends of a connection: what one module sends and what the other receives.
use so_tp_2c.Prelude.{
  ℕ, ◌^◌, ◌<◌, ◌≡◌, none, some, List, [], ◌∷◌, ◌++◌, arith, drop, length, append_assoc, append-nil,
  take-length_append, drop-length_append,
}
use so_tp_2c.Prelude.Resultado.{ok, falla, no_inicializado}
use so_tp_2c.Comunes.Bytes.{le32, de_le32, de_le32-le32}
use so_tp_2c.Comunes.Buffer.{Buffer, buffer_create}
use so_tp_2c.Comunes.Red.{
  enviar_buffer, enviar_operacion, recibir_en, recibir_buffer, recibir_operacion, recibir_paquete,
}

recibir_en-length :
    (bloque xs ys : List ℕ) → length bloque ≡ length xs → recibir_en bloque (xs ++ ys) ≡ xs
unfolding recibir_en
recibir_en-length bloque xs ys h = ground (
  arith,
  h,
  take-length_append xs ys,
  drop-length_append bloque [],
  append-nil bloque,
  append-nil xs,
)

recibir_operacion-le32 :
    (op : ℕ) (entrada : List ℕ)
    → op < 2 ^ 31
    → recibir_operacion (le32 op ++ entrada) ≡ some (op, entrada)
unfolding recibir_operacion le32
recibir_operacion-le32 op entrada h = ground (arith, h, de_le32-le32 op (omega (arith, h)))

pub recibir_buffer-le32 :
    (malloc : ℕ → List ℕ) (s resto : List ℕ)
    → length (malloc (length s)) ≡ length s
    → length s < 2 ^ 31
    → recibir_buffer malloc (le32 (length s) ++ (s ++ resto)) ≡ ok (buffer_create s, resto)
unfolding recibir_buffer le32
recibir_buffer-le32 malloc s resto hm h = ground (
  arith,
  h,
  de_le32-le32 (length s) (omega (arith, h)),
  recibir_en-length (malloc (length s)) s resto hm,
  drop-length_append s resto,
)

-- When malloc returns blocks of the size asked for, what EnviarOperacion puts on a connection is what
-- recibir_operacion and then RecibirBuffer take from it: the operation, then a buffer with the whole
-- stream about to be read, then the bytes that follow. The operation and the size are below
-- 2 ^ 31, ints that are not negative, and the size is set to the length of the stream.
pub recibir-enviar_operacion :
    (malloc : ℕ → List ℕ)
    → ((n : ℕ) → length (malloc n) ≡ n)
    → (op : ℕ) (b : Buffer) (resto : List ℕ) → op < 2 ^ 31
    → b.size ≡ some (length b.stream)
    → length b.stream < 2 ^ 31
    → (cable : List ℕ) × (entrada : List ℕ) × (enviar_operacion op b ≡ ok cable)
      × (recibir_operacion (cable ++ resto) ≡ some (op, entrada))
      × (recibir_buffer malloc entrada ≡ ok (buffer_create b.stream, resto))
unfolding enviar_operacion enviar_buffer
recibir-enviar_operacion malloc hm op b resto ho hs hl = (
  le32 op ++ (le32 (length b.stream) ++ b.stream),
  le32 (length b.stream) ++ (b.stream ++ resto),
  ground (arith, hs, take-length_append b.stream [], append-nil b.stream),
  ground (
    arith,
    append_assoc (le32 op) (le32 (length b.stream) ++ b.stream) resto,
    append_assoc (le32 (length b.stream)) b.stream resto,
    recibir_operacion-le32 op (le32 (length b.stream) ++ (b.stream ++ resto)) ho,
  ),
  recibir_buffer-le32 malloc b.stream resto (hm (length b.stream)) hl,
)

pub recibir_paquete-bytes :
    (malloc : ℕ → List ℕ) (inicial op a b c d : ℕ) (xs : List ℕ)
    → de_le32 (a ∷ b ∷ c ∷ d ∷ []) < 2 ^ 31
    → recibir_paquete malloc inicial (op ∷ a ∷ b ∷ c ∷ d ∷ xs)
      ≡ ok (
        record {
          op_code = op;
          buffer = record {
            size = some (de_le32 (a ∷ b ∷ c ∷ d ∷ []));
            offset = inicial;
            stream = recibir_en (malloc (de_le32 (a ∷ b ∷ c ∷ d ∷ []))) xs;
          };
        },
        drop (de_le32 (a ∷ b ∷ c ∷ d ∷ [])) xs,
      )
unfolding recibir_paquete
recibir_paquete-bytes malloc inicial op a b c d xs h = ground (arith, h)

-- A buffer whose size was never set is not sent, whatever the operation.
pub enviar_operacion-sin_size :
    (op : ℕ) (b : Buffer) → b.size ≡ none → enviar_operacion op b ≡ falla no_inicializado
unfolding enviar_operacion enviar_buffer
enviar_operacion-sin_size op b h = ground (arith, h)
