-- ===== src/Comunes/Buffer/Escritor.antt =====
-- A buffer that is being written, and how far it still has room.
use so_tp_2c.Prelude.{
  ℕ, ◌-◌, ◌≤◌, ◌<◌, ◌≡◌, refl, sym, ap, ◌∙◌, some, List, [], ◌∷◌, ◌++◌, Bool-cases, inl, inr, leb,
  leb→le, arith, drop, length, length-append, append_assoc, append-nil,
}
use so_tp_2c.Prelude.Resultado.{Resultado, ok, ◌>>=◌, falla, fuera_de_bloque}
use so_tp_2c.Comunes.Buffer.{Buffer, buffer_create, buffer_write}
use so_tp_2c.Comunes.Buffer.Leyes.{Ante}
use so_tp_2c.Comunes.Serializar.Escritura.{buffer_write_lem, length-drop}

-- The first bytes of the block are `antes`, the next write goes behind them, and `sitio` bytes are left.
pub record Escrito (b : Buffer) (antes : List ℕ) (sitio : ℕ) : Type 0 where
  pub resto : List ℕ
  pub bloque : b.stream ≡ antes ++ resto
  pub en : b.offset ≡ length antes
  pub hueco : length resto ≡ sitio

pub Escrito-buffer_create : (bloque : List ℕ) → Escrito (buffer_create bloque) [] (length bloque)
Escrito-buffer_create bloque = record { resto = bloque; bloque = refl; en = refl; hueco = refl }

pub buffer_write-Escrito :
    (b : Buffer) (bytes antes : List ℕ) (n : ℕ)
    → Escrito b antes n
    → length bytes ≤ n
    → (c : Buffer) × (buffer_write b bytes ≡ ok c)
      × (c.size ≡ b.size)
      × Escrito c (antes ++ bytes) (n - length bytes)
buffer_write-Escrito b bytes antes n v h = (
  _,
  buffer_write_lem b bytes antes v.resto v.bloque v.en (omega (arith, h, v.hueco)),
  refl,
  record {
    resto = drop (length bytes) v.resto;
    bloque = sym (append_assoc antes bytes (drop (length bytes) v.resto));
    en = omega (arith, v.en, length-append antes bytes);
    hueco = omega (arith, v.hueco, length-drop (length bytes) v.resto);
  },
)

pub buffer_write-Lleno :
    (b : Buffer) (bytes antes : List ℕ) (n : ℕ)
    → Escrito b antes n
    → n < length bytes
    → buffer_write b bytes ≡ falla fuera_de_bloque
unfolding buffer_write
buffer_write-Lleno b bytes antes n v h =
    ground (arith, h, v.en, v.hueco, ap length v.bloque, length-append antes v.resto)

-- writes one after the other
abbrev pub escribir_partes : Buffer → List (List ℕ) → Resultado Buffer
escribir_partes b [] = ok b
escribir_partes b (p ∷ ps) = do c ← buffer_write b p; escribir_partes c ps

abbrev pub juntar : List (List ℕ) → List ℕ
juntar [] = []
juntar (p ∷ ps) = p ++ juntar ps

-- Writes that fit are made, in their order.
pub escribir_partes-Escrito :
    (ps : List (List ℕ)) (b : Buffer) (antes : List ℕ) (n : ℕ)
    → Escrito b antes n
    → length (juntar ps) ≤ n
    → (c : Buffer) × (escribir_partes b ps ≡ ok c)
      × (c.size ≡ b.size)
      × Escrito c (antes ++ juntar ps) (n - length (juntar ps))
escribir_partes-Escrito [] b antes n v h = (
  b,
  refl,
  refl,
  record {
    resto = v.resto;
    bloque = v.bloque ∙ ap (λ x. x ++ v.resto) (sym (append-nil antes));
    en = v.en ∙ ap length (sym (append-nil antes));
    hueco = ground (arith, v.hueco);
  },
)
escribir_partes-Escrito (p ∷ ps) b antes n v h =
    let (c, e, s, w) =
      buffer_write-Escrito b p antes n v (omega (arith, h, length-append p (juntar ps))) in
    let (d, e', s', w') =
      escribir_partes-Escrito ps c (antes ++ p) (n - length p) w
        (omega (arith, h, length-append p (juntar ps))) in
    (
      d,
      ground (arith, e, e'),
      s' ∙ s,
      record {
        resto = w'.resto;
        bloque = w'.bloque ∙ ap (λ x. x ++ w'.resto) (append_assoc antes p (juntar ps));
        en = w'.en ∙ ap length (append_assoc antes p (juntar ps));
        hueco = omega (arith, w'.hueco, length-append p (juntar ps));
      },
    )

-- Writes that do not fit go past the end of the block.
pub escribir_partes-Lleno :
    (ps : List (List ℕ)) (b : Buffer) (antes : List ℕ) (n : ℕ)
    → Escrito b antes n
    → n < length (juntar ps)
    → escribir_partes b ps ≡ falla fuera_de_bloque
escribir_partes-Lleno [] b antes n v h = ground (arith, h)
escribir_partes-Lleno (p ∷ ps) b antes n v h = elim (Bool-cases (leb (length p) n)) [
  | inl e ↦
      let (c, ec, _, w) = buffer_write-Escrito b p antes n v (leb→le _ _ e) in
      ground (
        arith,
        ec,
        escribir_partes-Lleno ps c (antes ++ p) (n - length p) w
            (omega (arith, h, leb→le _ _ e, length-append p (juntar ps))),
      )
  | inr e ↦ ground (arith, buffer_write-Lleno b p antes n v (ground (arith, e)))
]

-- Writes that fit in a new block: the buffer is as large as its block, and they are its first bytes.
pub escribir_partes-buffer_create :
    (ps : List (List ℕ)) (bloque : List ℕ)
    → length (juntar ps) ≤ length bloque
    → (b : Buffer) × (resto : List ℕ) × (escribir_partes (buffer_create bloque) ps ≡ ok b)
      × (b.size ≡ some (length b.stream))
      × (b.stream ≡ juntar ps ++ resto)
      × (length b.stream ≡ length bloque)
escribir_partes-buffer_create ps bloque h =
    let (b, e, s, v) =
      escribir_partes-Escrito ps (buffer_create bloque) [] (length bloque)
        (Escrito-buffer_create bloque) h in
    let largo : length b.stream ≡ length bloque =
      ap length v.bloque ∙ length-append (juntar ps) v.resto ∙ omega (arith, v.hueco, h) in
    (b, v.resto, e, s ∙ ap some (sym largo), v.bloque, largo)

-- A buffer whose block starts with these bytes is about to read them.
pub Ante-bytes : (stream bytes : List ℕ) → stream ≡ bytes → Ante (buffer_create stream) bytes
Ante-bytes stream bytes h = record { antes = []; bloque = h; en = refl }
