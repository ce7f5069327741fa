-- ===== src/Memoria/Pseudocodigo/Lineas.antt =====
-- What the reading loop makes of a file of lines.
use so_tp_2c.Prelude.{
  ℕ, zero, suc, ◌≤◌, ◌<◌, ◌≡◌, ◌≢◌, refl, ap, ◌∙◌, Option, some, List, [], ◌∷◌, ◌++◌, arith, length,
  length-append, if◌then◌else◌,
}
use so_tp_2c.Memoria.Pseudocodigo.{
  Archivos, antepuesta, fgets, cortar, es_vacia, leer_lineas, obtener_instrucciones,
}

-- A line without newline or NUL.
abbrev pub SinFin : List ℕ → Type 0
SinFin [] = Unit {0}
SinFin (c ∷ cs) = (c ≢ 10) × (c ≢ 0) × SinFin cs

-- Lines that fit the buffer with their newline and the final NUL.
abbrev pub Lineas : List (List ℕ) → Type 0
Lineas [] = Unit {0}
Lineas (l ∷ ls) = SinFin l × (length l ≤ 254) × Lineas ls

-- The file with these lines, each ended by a newline.
pub unir : List (List ℕ) → List ℕ
unir [] = []
unir (l ∷ ls) = l ++ (10 ∷ unir ls)

-- The lines that are not empty.
pub no_vacias : List (List ℕ) → List (List ℕ)
no_vacias [] = []
no_vacias ([] ∷ ls) = no_vacias ls
no_vacias ((c ∷ cs) ∷ ls) = (c ∷ cs) ∷ no_vacias ls

fgets-linea :
    (l resto : List ℕ) (n : ℕ)
    → SinFin l
    → length l < n
    → fgets n (l ++ (10 ∷ resto)) ≡ (l ++ (10 ∷ []), resto)
unfolding fgets
fgets-linea [] resto zero s h = elim h [ ]
fgets-linea [] resto (suc n) s h = refl
fgets-linea (c ∷ l) resto zero s h = elim h [ ]
fgets-linea (c ∷ l) resto (suc n) s h = ground (arith, fgets-linea l resto n s.2 (omega arith))

cortar-linea : (l : List ℕ) → SinFin l → cortar (l ++ (10 ∷ [])) ≡ l
unfolding cortar
cortar-linea [] s = refl
cortar-linea (c ∷ l) s = ground (arith, cortar-linea l s.2)

leer_lineas_fin :
    (strdup : List ℕ → Option (List ℕ)) (fuel : ℕ) → leer_lineas strdup fuel [] ≡ some []
unfolding leer_lineas
leer_lineas_fin strdup zero = refl
leer_lineas_fin strdup (suc fuel) = refl

-- A round of the loop, from what `fgets` returns.
leer_lineas_paso :
    (strdup : List ℕ → Option (List ℕ)) (fuel c : ℕ) (cs linea resto : List ℕ)
    → fgets 255 (c ∷ cs) ≡ (linea, resto)
    → leer_lineas strdup (suc fuel) (c ∷ cs) ≡ (
        if es_vacia linea
        then leer_lineas strdup fuel resto
        else antepuesta (strdup (cortar linea)) (leer_lineas strdup fuel resto))
unfolding leer_lineas
leer_lineas_paso strdup fuel c cs linea resto e =
    ap
      (λ (r : List ℕ × List ℕ).
        if es_vacia r.0
        then leer_lineas strdup fuel r.1
        else antepuesta (strdup (cortar r.0)) (leer_lineas strdup fuel r.1))
      e

leer_lineas-unir :
    (strdup : List ℕ → Option (List ℕ)) (ls : List (List ℕ)) (fuel : ℕ)
    → ((linea : List ℕ) → strdup linea ≡ some linea)
    → Lineas ls
    → length (unir ls) ≤ fuel
    → leer_lineas strdup fuel (unir ls) ≡ some (no_vacias ls)
unfolding unir no_vacias
leer_lineas-unir strdup [] zero g v h = leer_lineas_fin strdup zero
leer_lineas-unir strdup [] (suc f) g v h = leer_lineas_fin strdup (suc f)
leer_lineas-unir strdup ([] ∷ ls) zero g v h = elim h [ ]
leer_lineas-unir strdup ([] ∷ ls) (suc f) g v h =
    leer_lineas_paso strdup f 10 (unir ls) (10 ∷ []) (unir ls)
      (fgets-linea [] (unir ls) 255 tt (omega arith))
    ∙ leer_lineas-unir strdup ls f g v.2 (omega arith)
leer_lineas-unir strdup ((c ∷ l) ∷ ls) zero g v h = elim h [ ]
leer_lineas-unir strdup ((c ∷ l) ∷ ls) (suc f) g v h =
    let corto : length (unir ls) ≤ f = omega (arith, length-append l (10 ∷ unir ls)) in
    let corta : cortar (c ∷ (l ++ (10 ∷ []))) ≡ c ∷ l = cortar-linea (c ∷ l) v.0 in
    leer_lineas_paso strdup f c (l ++ (10 ∷ unir ls)) (c ∷ (l ++ (10 ∷ []))) (unir ls)
      (fgets-linea (c ∷ l) (unir ls) 255 v.0 (omega arith))
    ∙ ground (arith, corta, v.0, g (c ∷ l), leer_lineas-unir strdup ls f g v.2 corto)

-- A file of lines of up to 254 characters is read as its lines that are not empty, in order, when strdup
-- copies each line.
pub obtener_instrucciones-unir :
    (archivos : Archivos) (filename : List ℕ) (ls : List (List ℕ))
    → Lineas ls
    → archivos.fopen filename ≡ some (unir ls)
    → ((linea : List ℕ) → archivos.strdup linea ≡ some linea)
    → obtener_instrucciones archivos filename ≡ some (no_vacias ls)
unfolding obtener_instrucciones
obtener_instrucciones-unir archivos filename ls v e g =
    ground (arith, e, leer_lineas-unir archivos.strdup ls (length (unir ls)) g v (omega arith))
