-- ===== src/Comunes/Texto.antt =====
-- Texts as lists of character codes, and the functions of the C library that the modules call on
-- them: strcmp, snprintf("%d"), atoi, strtok. `string_itoa` of so-commons prints as "%d" does.
pub mod Decimal
pub mod Palabras
use Prim.Native.Char.{code}
use Prim.Native.String.{String}
use so_tp_2c.Prelude.{
  ℕ, zero, suc, ◌+◌, ◌-◌, ◌*◌, ◌/◌, ◌%◌, ◌^◌, ◌≡◌, refl, ◌↔◌, ◌&&◌, ◌||◌, Bool, true, false, List,
  [], ◌∷◌, ◌++◌, arith, ltb, leb, ◌==◌, if◌then◌else◌, take,
}

abbrev pub codes : String → List ℕ
codes String.[] = []
codes (String.◌∷◌ c s) = code c ∷ codes s

-- `strcmp(a, b) == 0`
unfoldable pub texto_eq : List ℕ → List ℕ → Bool
texto_eq [] [] = true
texto_eq [] (c ∷ b) = false
texto_eq (c ∷ a) [] = false
texto_eq (c ∷ a) (d ∷ b) = c == d && texto_eq a b

pub texto_eq_iff : (a b : List ℕ) → (texto_eq a b ≡ true) ↔ (a ≡ b)
unfolding texto_eq
texto_eq_iff [] [] = (λ _. refl, λ _. refl)
texto_eq_iff [] (d ∷ b) = (λ h. cc, λ h. cc)
texto_eq_iff (c ∷ a) [] = (λ h. cc, λ h. cc)
texto_eq_iff (c ∷ a) (d ∷ b) =
    (λ h. ground (arith, texto_eq_iff a b), λ h. ground (arith, texto_eq_iff a b))

-- The decimal digits of a number before those in `resto`; the fuel bounds their number.
unfoldable pub digitos : ℕ → ℕ → List ℕ → List ℕ
digitos zero n resto = resto
digitos (suc f) n resto =
    let mas = digitos f (n / 10) ((b'0' + n % 10) ∷ resto) in
    if ltb n 10 then (b'0' + n) ∷ resto else mas

-- `string_itoa(n)` and the text of "%d", for a number that is not negative.
unfoldable pub itoa : ℕ → List ℕ
unfolding digitos
itoa n = digitos (suc n) n []

-- `snprintf(str, 8, "%d", n)`: seven characters and the final NUL.
unfoldable pub snprintf_8 : ℕ → List ℕ
unfolding itoa
snprintf_8 n = take 7 (itoa n)

unfoldable pub es_digito : ℕ → Bool
es_digito c = leb b'0' c && leb c b'9'

-- The number that leading digits stand for, from an accumulator.
unfoldable pub leer_digitos : ℕ → List ℕ → ℕ
unfolding es_digito
leer_digitos acc [] = acc
leer_digitos acc (c ∷ cs) =
    let resto = leer_digitos (10 * acc + (c - b'0')) cs in if es_digito c then resto else acc

-- `isspace`
unfoldable pub es_espacio : ℕ → Bool
es_espacio c = c == 32 || leb 9 c && leb c 13

-- `(uint32_t)atoi(s)` after white space: a sign, then digits. Negative numbers wrap.
unfoldable pub atoi_con_signo : List ℕ → ℕ
unfolding leer_digitos
atoi_con_signo [] = 0
atoi_con_signo (c ∷ cs) =
    if c == b'-'
    then (2 ^ 32 - leer_digitos 0 cs % 2 ^ 32) % 2 ^ 32
    else if c == b'+'
    then leer_digitos 0 cs % 2 ^ 32
    else leer_digitos 0 (c ∷ cs) % 2 ^ 32

unfoldable pub atoi : List ℕ → ℕ
unfolding atoi_con_signo es_espacio
atoi [] = 0
atoi (c ∷ cs) = let resto = atoi cs in if es_espacio c then resto else atoi_con_signo (c ∷ cs)

-- A token that has begun, given to the list if it is not empty.
abbrev pub cerrar : List ℕ → List (List ℕ) → List (List ℕ)
cerrar [] ts = ts
cerrar (c ∷ cs) ts = (c ∷ cs) ∷ ts

-- The tokens of successive calls `strtok(s, " ")`; `palabra` is the token being read.
unfoldable pub tokens_desde : List ℕ → List ℕ → List (List ℕ)
tokens_desde palabra [] = cerrar palabra []
tokens_desde palabra (c ∷ cs) =
    if c == 32 then cerrar palabra (tokens_desde [] cs) else tokens_desde (palabra ++ (c ∷ [])) cs

unfoldable pub tokens : List ℕ → List (List ℕ)
unfolding tokens_desde
tokens s = tokens_desde [] s
