-- ===== src/Comunes/Texto/Palabras.antt =====
-- Words joined by spaces are the tokens that `strtok` gives back.
use so_tp_2c.Prelude.{
  ℕ, ◌≡◌, ◌≢◌, refl, ap, ◌∙◌, List, [], ◌∷◌, ◌++◌, arith, append_assoc, append-nil,
}
use so_tp_2c.Comunes.Texto.{cerrar, tokens, tokens_desde}

abbrev pub SinEspacio : List ℕ → Type 0
SinEspacio [] = Unit {0}
SinEspacio (c ∷ cs) = (c ≢ 32) × SinEspacio cs

-- A word: some characters, none of them a space.
abbrev pub Palabra : List ℕ → Type 0
Palabra w = (w ≢ []) × SinEspacio w

abbrev pub Palabras : List (List ℕ) → Type 0
Palabras [] = Unit {0}
Palabras (w ∷ ws) = Palabra w × Palabras ws

-- The words, with a space between any two.
pub unir : List (List ℕ) → List ℕ
unir [] = []
unir (w ∷ []) = w
unir (w ∷ v ∷ ws) = w ++ (32 ∷ unir (v ∷ ws))

tokens_desde-ultima :
    (w palabra : List ℕ) → SinEspacio w → tokens_desde palabra w ≡ cerrar (palabra ++ w) []
unfolding tokens_desde
tokens_desde-ultima [] palabra h = rw append-nil
tokens_desde-ultima (c ∷ w) palabra h =
    ground (arith, tokens_desde-ultima w (palabra ++ (c ∷ [])) h.1, append_assoc palabra (c ∷ []) w)

tokens_desde-palabra :
    (w palabra resto : List ℕ)
    → SinEspacio w
    → tokens_desde palabra (w ++ (32 ∷ resto)) ≡ cerrar (palabra ++ w) (tokens_desde [] resto)
unfolding tokens_desde
tokens_desde-palabra [] palabra resto h = rw append-nil
tokens_desde-palabra (c ∷ w) palabra resto h =
    ground (
      arith,
      tokens_desde-palabra w (palabra ++ (c ∷ [])) resto h.1,
      append_assoc palabra (c ∷ []) w,
    )

cerrar-Palabra : (w : List ℕ) (ts : List (List ℕ)) → w ≢ [] → cerrar w ts ≡ w ∷ ts
cerrar-Palabra [] ts h = absurd (h refl)
cerrar-Palabra (c ∷ w) ts h = refl

-- Words are read back from the text that they make, one space between any two.
pub tokens-unir : (ws : List (List ℕ)) → Palabras ws → tokens (unir ws) ≡ ws
unfolding tokens unir
tokens-unir [] h = refl
tokens-unir (w ∷ []) h = tokens_desde-ultima w [] h.0.1 ∙ cerrar-Palabra w [] h.0.0
tokens-unir (w ∷ v ∷ ws) h =
    tokens_desde-palabra w [] (unir (v ∷ ws)) h.0.1
    ∙ cerrar-Palabra w _ h.0.0
    ∙ ap (◌∷◌ w) (tokens-unir (v ∷ ws) h.1)
