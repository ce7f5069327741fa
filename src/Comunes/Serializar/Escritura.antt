-- ===== src/Comunes/Serializar/Escritura.antt =====
-- What `escribir_palabras` leaves in the block.
use so_tp_2c.Prelude.{
  ℕ, zero, suc, ◌+◌, ◌-◌, ◌*◌, ◌^◌, ◌≤◌, ◌<◌, ◌≡◌, refl, sym, ap, ◌∙◌, List, [], ◌∷◌, ◌++◌, arith,
  drop, length, length-append, append_assoc, append-nil, take-length_append, drop-length_append,
}
use so_tp_2c.Prelude.Resultado.{ok}
use so_tp_2c.Comunes.Bytes.{le32, length-le32}
use so_tp_2c.Comunes.Buffer.{Buffer, buffer_write}
use so_tp_2c.Comunes.Serializar.{escribir_palabras}

-- The bytes of a list of words.
unfoldable pub bytes_de : List ℕ → List ℕ
bytes_de [] = []
bytes_de (n ∷ ns) = le32 n ++ bytes_de ns

drop-nil : (m : ℕ) → drop {A = ℕ} m [] ≡ []
drop-nil zero = refl
drop-nil (suc m) = refl

pub length-bytes_de : (ns : List ℕ) → length (bytes_de ns) ≡ 4 * length ns
unfolding bytes_de
length-bytes_de [] = refl
length-bytes_de (n ∷ ns) =
    omega (arith, length-append (le32 n) (bytes_de ns), length-le32 n, length-bytes_de ns)

-- Every member is a word of 32 bits.
unfoldable pub SonPalabras : List ℕ → Type 0
SonPalabras [] = Unit
SonPalabras (n ∷ ns) = (n < 2 ^ 32) × SonPalabras ns

pub drop_todo : (xs : List ℕ) (n : ℕ) → length xs ≡ n → drop n xs ≡ []
drop_todo xs n h = ground (arith, h, drop-length_append xs [], append-nil xs)

suc_add : (n m : ℕ) → suc (n + m) ≡ suc n + m
suc_add n m = omega arith

pub drop-drop : (m n : ℕ) (xs : List ℕ) → drop m (drop n xs) ≡ drop (n + m) xs
drop-drop m zero xs = ground arith
drop-drop m (suc n) [] = drop-nil m ∙ sym (drop-nil (suc n + m))
drop-drop m (suc n) (x ∷ xs) = drop-drop m n xs ∙ ap (λ k. drop k (x ∷ xs)) (suc_add n m)

pub drop-length_plus : (xs ys : List ℕ) (n : ℕ) → drop (length xs + n) (xs ++ ys) ≡ drop n ys
drop-length_plus [] ys n = ground arith
drop-length_plus (x ∷ xs) ys n =
    ap (λ k. drop k (x ∷ (xs ++ ys))) (sym (suc_add (length xs) n)) ∙ drop-length_plus xs ys n

pub length-drop : (n : ℕ) (xs : List ℕ) → length (drop n xs) ≡ length xs - n
length-drop zero xs = ground arith
length-drop (suc n) [] = ground arith
length-drop (suc n) (x ∷ xs) = ground (arith, length-drop n xs)

pub buffer_write_lem :
    (b : Buffer) (bytes antes resto : List ℕ)
    → b.stream ≡ antes ++ resto
    → b.offset ≡ length antes
    → length bytes ≤ length resto
    → buffer_write b bytes
      ≡ ok (record b {
        offset = b.offset + length bytes;
        stream = antes ++ (bytes ++ drop (length bytes) resto);
      })
unfolding buffer_write
buffer_write_lem b bytes antes resto bloque en largo = ground (
  arith,
  bloque,
  en,
  ap length bloque,
  length-append antes resto,
  take-length_append antes resto,
  drop-length_plus antes resto (length bytes),
)

-- The words replace as many bytes after those already written.
pub escribir_palabras_lem :
    (b : Buffer) (ns antes resto : List ℕ)
    → b.stream ≡ antes ++ resto
    → b.offset ≡ length antes
    → 4 * length ns ≤ length resto
    → escribir_palabras b ns
      ≡ ok (record b {
        offset = b.offset + 4 * length ns;
        stream = antes ++ (bytes_de ns ++ drop (4 * length ns) resto);
      })
unfolding escribir_palabras bytes_de
escribir_palabras_lem b [] antes resto bloque en largo = ground (arith, bloque)
escribir_palabras_lem b (n ∷ ns) antes resto bloque en largo = ground (
  arith,
  length-le32 n,
  buffer_write_lem b (le32 n) antes resto bloque en (omega (arith, largo, length-le32 n)),
  escribir_palabras_lem
      (record b { offset = b.offset + 4; stream = antes ++ (le32 n ++ drop 4 resto) }) ns
      (antes ++ le32 n) (drop 4 resto) (sym (append_assoc antes (le32 n) (drop 4 resto)))
      (omega (arith, en, length-append antes (le32 n), length-le32 n))
      (omega (arith, largo, length-drop 4 resto)),
  drop-drop (4 * length ns) 4 resto,
  append_assoc antes (le32 n) (bytes_de ns ++ drop (4 * suc (length ns)) resto),
  append_assoc (le32 n) (bytes_de ns) (drop (4 * suc (length ns)) resto),
)
