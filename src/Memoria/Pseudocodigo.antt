-- ===== src/Memoria/Pseudocodigo.antt =====
-- `obtener_instrucciones` of memoria/src/manejar_kernel.c: the lines of a pseudocode file, read by
-- `fgets` into a buffer of BUFF_SIZE characters. A file is the list of its bytes.
pub mod Lineas
use so_tp_2c.Prelude.{
  ℕ, zero, suc, ◌-◌, ◌≡◌, Bool, true, false, ◌||◌, Option, none, some, List, [], ◌∷◌, ◌==◌, length,
  if◌then◌else◌,
}

abbrev pub buff_size : ℕ
buff_size = 256

-- `fgets`: at most `n` characters, to the end of the line and with its newline; the rest follows.
unfoldable pub fgets : ℕ → List ℕ → List ℕ × List ℕ
fgets zero cs = ([], cs)
fgets (suc n) [] = ([], [])
fgets (suc n) (c ∷ cs) =
    let (linea, resto) = fgets n cs in if c == 10 then (c ∷ [], cs) else (c ∷ linea, resto)

-- `linea[strcspn(linea, "\n")] = '\0'`: the text up to a newline or NUL.
unfoldable pub cortar : List ℕ → List ℕ
cortar [] = []
cortar (c ∷ cs) = let resto = cortar cs in if c == 10 || c == 0 then [] else c ∷ resto

-- `linea[0] == '\n'`
abbrev pub es_vacia : List ℕ → Bool
es_vacia [] = false
es_vacia (c ∷ cs) = c == 10

-- What the loop needs of the system: `fopen` gives the bytes of a file, or NULL, and `strdup` a copy of
-- a text, or NULL.
pub record Archivos : Type 0 where
  pub fopen : List ℕ → Option (List ℕ)
  pub strdup : List ℕ → Option (List ℕ)

-- an instruction before those that follow, with the returns of NULL
abbrev pub antepuesta : Option (List ℕ) → Option (List (List ℕ)) → Option (List (List ℕ))
antepuesta none siguientes = none
antepuesta (some instruccion) none = none
antepuesta (some instruccion) (some siguientes) = some (instruccion ∷ siguientes)

-- The loop `while (fgets(...))`. Each round reads a character or more.
unfoldable pub leer_lineas : (List ℕ → Option (List ℕ)) → ℕ → List ℕ → Option (List (List ℕ))
unfolding fgets cortar
leer_lineas strdup zero archivo = some []
leer_lineas strdup (suc fuel) [] = some []
leer_lineas strdup (suc fuel) (c ∷ cs) =
    let (linea, resto) = fgets (buff_size - 1) (c ∷ cs) in
    let siguientes = leer_lineas strdup fuel resto in
    if es_vacia linea then siguientes else antepuesta (strdup (cortar linea)) siguientes

-- The fuel is one round for each byte.
unfoldable pub obtener_instrucciones : Archivos → List ℕ → Option (List (List ℕ))
unfolding leer_lineas
obtener_instrucciones archivos filename = elim (archivos.fopen filename) [
  | none ↦ none
  | some archivo ↦ leer_lineas archivos.strdup (length archivo) archivo
]
