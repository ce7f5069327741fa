-- ===== src/Comunes/Texto/Decimal.antt =====
-- Decimal texts can be read back, and are short for small numbers.
use native.Mathlib.Nat.{pow-suc}
use so_tp_2c.Prelude.{
  ℕ, zero, suc, ◌+◌, ◌*◌, ◌/◌, ◌%◌, ◌^◌, ◌≤◌, ◌<◌, ◌≡◌, refl, ◌∙◌, ap, sym, List, [], ◌∷◌, ◌++◌,
  arith, ltb, take, length, Bool-cases, inl, inr,
}
use so_tp_2c.Comunes.Texto.Palabras.{SinEspacio, Palabra}
use so_tp_2c.Comunes.Texto.{digitos, itoa, snprintf_8, leer_digitos, atoi}

leer_paso :
    (acc m : ℕ) (resto : List ℕ)
    → m < 10
    → leer_digitos acc ((b'0' + m) ∷ resto) ≡ leer_digitos (10 * acc + m) resto
unfolding leer_digitos
leer_paso acc m resto h = ground arith

leer-digitos :
    (f n : ℕ) (resto : List ℕ) → n < f → leer_digitos 0 (digitos f n resto) ≡ leer_digitos n resto
unfolding digitos
leer-digitos zero n resto h = elim h [ ]
leer-digitos (suc f) n resto h = elim (Bool-cases (ltb n 10)) [
  | inl e ↦ rw e (leer_paso 0 n resto (ground arith) ∙ ap (λ k. leer_digitos k resto) (omega arith))
  | inr e ↦ rw e (
      leer-digitos f (n / 10) ((b'0' + n % 10) ∷ resto) (ground arith)
      ∙ leer_paso (n / 10) (n % 10) resto (omega arith)
      ∙ ap (λ k. leer_digitos k resto) (omega arith))
]

-- The digits that `itoa` prints stand for the number.
pub leer-itoa : (n : ℕ) → leer_digitos 0 (itoa n) ≡ n
unfolding itoa leer_digitos
leer-itoa n = leer-digitos (suc n) n [] (omega arith)

pub itoa-injective : (n m : ℕ) → itoa n ≡ itoa m → n ≡ m
itoa-injective n m e = sym (leer-itoa n) ∙ ap (leer_digitos 0) e ∙ leer-itoa m

length-digitos :
    (f n k : ℕ) (resto : List ℕ)
    → n < f
    → n < 10 ^ suc k
    → length (digitos f n resto) ≤ suc k + length resto
unfolding digitos
length-digitos zero n k resto h b = elim h [ ]
length-digitos (suc f) n zero resto h b = let e : 10 ^ 1 ≡ 10 = refl in ground arith
length-digitos (suc f) n (suc k) resto h b =
    ground (arith, length-digitos f (n / 10) k ((b'0' + n % 10) ∷ resto), pow-suc 10 (suc k))

take_all : (k : ℕ) (xs : List ℕ) → length xs ≤ k → take k xs ≡ xs
take_all zero [] h = refl
take_all zero (x ∷ xs) h = absurd (omega arith)
take_all (suc k) [] h = refl
take_all (suc k) (x ∷ xs) h = ap (◌∷◌ x) (take_all k xs (omega arith))

-- Up to seven digits the buffer of eight holds the whole text.
pub snprintf_8-itoa : (n : ℕ) → n < 10 ^ 7 → snprintf_8 n ≡ itoa n
unfolding snprintf_8 itoa
snprintf_8-itoa n h =
    take_all 7 (digitos (suc n) n []) (omega (arith, length-digitos (suc n) n 6 [] (omega arith) h))

digitos_fuel : (f g n : ℕ) (resto : List ℕ) → n < f → n < g → digitos f n resto ≡ digitos g n resto
unfolding digitos
digitos_fuel zero g n resto h k = elim h [ ]
digitos_fuel (suc f) zero n resto h k = elim k [ ]
digitos_fuel (suc f) (suc g) n resto h k =
    ground (arith, digitos_fuel f g (n / 10) ((b'0' + n % 10) ∷ resto))

digitos-append : (f n : ℕ) (xs ys : List ℕ) → n < f → digitos f n (xs ++ ys) ≡ digitos f n xs ++ ys
unfolding digitos
digitos-append zero n xs ys h = elim h [ ]
digitos-append (suc f) n xs ys h =
    ground (arith, digitos-append f (n / 10) ((b'0' + n % 10) ∷ xs) ys)

-- One more digit is printed at the end.
pub itoa-snoc : (n d : ℕ) → 0 < n → d < 10 → itoa (10 * n + d) ≡ itoa n ++ ((b'0' + d) ∷ [])
unfolding itoa digitos
itoa-snoc n d h k =
    let q : (10 * n + d) / 10 ≡ n = omega arith in
    let r : (10 * n + d) % 10 ≡ d = omega arith in
    let paso : digitos (10 * n + d) n ((b'0' + d) ∷ []) ≡ digitos (suc n) n ((b'0' + d) ∷ []) =
      digitos_fuel (10 * n + d) (suc n) n ((b'0' + d) ∷ []) (omega arith) (omega arith) in
    ground (arith, q, r, paso, digitos-append (suc n) n [] ((b'0' + d) ∷ []) (omega arith))

length-digitos_le : (f n : ℕ) (resto : List ℕ) → length resto ≤ length (digitos f n resto)
unfolding digitos
length-digitos_le zero n resto = omega arith
length-digitos_le (suc f) n resto =
    ground (arith, length-digitos_le f (n / 10) ((b'0' + n % 10) ∷ resto))

pow-pos : (k : ℕ) → 1 ≤ 10 ^ k
pow-pos zero = omega arith
pow-pos (suc k) = omega (arith, pow-pos k, pow-suc 10 k)

length-digitos_ge :
    (f n k : ℕ) (resto : List ℕ)
    → n < f
    → 10 ^ k ≤ n
    → suc k + length resto ≤ length (digitos f n resto)
unfolding digitos
length-digitos_ge zero n k resto h b = elim h [ ]
length-digitos_ge (suc f) n zero resto h b =
    ground (arith, length-digitos_le f (n / 10) ((b'0' + n % 10) ∷ resto))
length-digitos_ge (suc f) n (suc k) resto h b =
    ground
      (arith, length-digitos_ge f (n / 10) k ((b'0' + n % 10) ∷ resto), pow-suc 10 k, pow-pos k)

take_left : (k : ℕ) (xs ys : List ℕ) → length xs ≡ k → take k (xs ++ ys) ≡ xs
take_left zero [] ys e = refl
take_left zero (x ∷ xs) ys e = absurd (omega arith)
take_left (suc k) [] ys e = absurd (omega arith)
take_left (suc k) (x ∷ xs) ys e = ap (◌∷◌ x) (take_left k xs ys (omega arith))

siete_digitos : (n : ℕ) → 10 ^ 6 ≤ n → n < 10 ^ 7 → length (itoa n) ≡ 7
unfolding itoa
siete_digitos n lo hi = omega (
  arith,
  length-digitos (suc n) n 6 [] (omega arith) hi,
  length-digitos_ge (suc n) n 6 [] (omega arith) lo,
)

-- The eighth digit does not fit the buffer of eight.
pub snprintf_8-trunca :
    (n d : ℕ) → 10 ^ 6 ≤ n → n < 10 ^ 7 → d < 10 → snprintf_8 (10 * n + d) ≡ snprintf_8 n
unfolding snprintf_8
snprintf_8-trunca n d lo hi hd =
    let siete : length (itoa n) ≡ 7 = siete_digitos n lo hi in
    rw (itoa-snoc n d (omega arith) hd)
      (take_left 7 (itoa n) ((b'0' + d) ∷ []) siete ∙ sym (take_all 7 (itoa n) (omega arith)))

-- What is printed begins with a digit.
digitos-cabeza :
    (f n : ℕ) (resto : List ℕ)
    → n < f
    → (c : ℕ) × (cs : List ℕ) × (digitos f n resto ≡ c ∷ cs) × (b'0' ≤ c) × (c ≤ b'9')
unfolding digitos
digitos-cabeza zero n resto h = elim h [ ]
digitos-cabeza (suc f) n resto h = elim (Bool-cases (ltb n 10)) [
  | inl e ↦ (b'0' + n, resto, rw e, omega arith, ground arith)
  | inr e ↦
      let (c, cs, r, a, b) = digitos-cabeza f (n / 10) ((b'0' + n % 10) ∷ resto) (ground arith) in
      (c, cs, rw e r, a, b)
]

sin_signo :
    (c : ℕ) (cs : List ℕ) → b'0' ≤ c → c ≤ b'9' → atoi (c ∷ cs) ≡ leer_digitos 0 (c ∷ cs) % 2 ^ 32
unfolding atoi
sin_signo c cs a b = ground arith

-- `atoi` reads back a 32-bit number.
pub atoi-itoa : (n : ℕ) → n < 2 ^ 32 → atoi (itoa n) ≡ n
unfolding itoa
atoi-itoa n h =
    let (c, cs, r, a, b) = digitos-cabeza (suc n) n [] (omega arith) in
    let lee : leer_digitos 0 (c ∷ cs) ≡ n = ap (leer_digitos 0) (sym r) ∙ leer-itoa n in
    ap atoi r ∙ sin_signo c cs a b ∙ omega arith

digitos-SinEspacio : (f n : ℕ) (resto : List ℕ) → SinEspacio resto → SinEspacio (digitos f n resto)
unfolding digitos
digitos-SinEspacio zero n resto h = h
digitos-SinEspacio (suc f) n resto h = elim (Bool-cases (ltb n 10)) [
  | inl e ↦ rw e (omega arith, h)
  | inr e ↦ rw e (digitos-SinEspacio f (n / 10) ((b'0' + n % 10) ∷ resto) (omega arith, h))
]

pub itoa-Palabra : (n : ℕ) → Palabra (itoa n)
unfolding itoa
itoa-Palabra n =
    let (c, cs, r, a, b) = digitos-cabeza (suc n) n [] (omega arith) in
    (λ e. cc (sym r ∙ e), digitos-SinEspacio (suc n) n [] tt)
