-- ===== src/Memoria/Particiones/Ajuste.antt =====
-- What the loop of the best and worst fit (memoria/src/manejar_kernel.c) finds, for any order by
-- which the space left over is compared.
use so_tp_2c.Prelude.{
  ℕ, ◌+◌, ◌-◌, ◌<◌, ◌≡◌, refl, subst, ◌∙◌, inl, inr, Bool, true, false, Option, none, some, List,
  [], ◌∷◌, ◌++◌, arith, length, get_elem?, append_assoc, append-nil, length-append,
  get_elem?-append_left, get_elem?-append_here, get_elem?-snoc_cases, get_elem?-lt, Bool-cases,
}
use so_tp_2c.Memoria.Particiones.{Particion, considerar, recorrer}

-- A total order, as a Boolean test `mejora a b` for "a is better than b".
pub record EsOrden (mejora : ℕ → ℕ → Bool) : Type 0 where
  pub asimetrica : (a b : ℕ) → mejora a b ≡ true → mejora b a ≡ false
  pub fuerte : (a b c : ℕ) → mejora a b ≡ true → mejora c b ≡ false → mejora a c ≡ true

module _ (apta : Particion → Bool) (mejora : ℕ → ℕ → Bool) (tam_proceso : ℕ) where
  -- The partition at index `i` is suitable, none is better, and those before it are worse.
  pub record Elegida (ps : List Particion) (i s : ℕ) : Type 0 where
    pub p : Particion
    pub leida : get_elem? ps i ≡ some p
    pub es_apta : apta p ≡ true
    pub sobra : s ≡ p.tamanio - tam_proceso
    pub optima :
        (j : ℕ) (q : Particion)
        → get_elem? ps j ≡ some q
        → apta q ≡ true
        → mejora (q.tamanio - tam_proceso) s ≡ false
    pub es_primera :
        (j : ℕ) (q : Particion)
        → j < i
        → get_elem? ps j ≡ some q
        → apta q ≡ true
        → mejora s (q.tamanio - tam_proceso) ≡ true

  abbrev pub EsAjuste : List Particion → Option (ℕ × ℕ) → Type 0
  EsAjuste ps none = (j : ℕ) (q : Particion) → get_elem? ps j ≡ some q → apta q ≡ false
  EsAjuste ps (some (i, s)) = Elegida ps i s

  module _ (orden : EsOrden mejora) (ps : List Particion) (p : Particion) where
    -- The first suitable partition is the best so far.
    nueva_none :
        EsAjuste ps none
        → apta p ≡ true
        → Elegida (ps ++ (p ∷ [])) (length ps) (p.tamanio - tam_proceso)
    nueva_none h e = record {
      p = p;
      leida = get_elem?-append_here ps p [];
      es_apta = e;
      sobra = refl;
      optima = λ j q l a. elim (get_elem?-snoc_cases ps p j l) [
        | inl (_, old) ↦ ground (arith, h j q old)
        | inr (_, same) ↦
            rw same
              (elim (Bool-cases (mejora (p.tamanio - tam_proceso) (p.tamanio - tam_proceso))) [
                | inl t ↦ orden.asimetrica _ _ t
                | inr f ↦ f
              ])
      ];
      es_primera = λ j q lt l a. elim (get_elem?-snoc_cases ps p j l) [
        | inl (_, old) ↦ ground (arith, h j q old)
        | inr (at, _) ↦ absurd (omega arith)
      ];
    }

    -- A better one takes its place.
    nueva_some :
        (i s : ℕ)
        → Elegida ps i s
        → apta p ≡ true
        → mejora (p.tamanio - tam_proceso) s ≡ true
        → Elegida (ps ++ (p ∷ [])) (length ps) (p.tamanio - tam_proceso)
    nueva_some i s v e m = record {
      p = p;
      leida = get_elem?-append_here ps p [];
      es_apta = e;
      sobra = refl;
      optima = λ j q l a. elim (get_elem?-snoc_cases ps p j l) [
        | inl (_, old) ↦ orden.asimetrica _ _ (orden.fuerte _ _ _ m (v.optima j q old a))
        | inr (_, same) ↦
            rw same
              (elim (Bool-cases (mejora (p.tamanio - tam_proceso) (p.tamanio - tam_proceso))) [
                | inl t ↦ orden.asimetrica _ _ t
                | inr f ↦ f
              ])
      ];
      es_primera = λ j q lt l a. elim (get_elem?-snoc_cases ps p j l) [
        | inl (_, old) ↦ orden.fuerte _ _ _ m (v.optima j q old a)
        | inr (at, _) ↦ absurd (omega arith)
      ];
    }

    -- One that is no better leaves it in place.
    misma :
        (i s : ℕ)
        → Elegida ps i s
        → (apta p ≡ true → mejora (p.tamanio - tam_proceso) s ≡ false)
        → Elegida (ps ++ (p ∷ [])) i s
    misma i s v m = record {
      p = v.p;
      leida = get_elem?-append_left ps (p ∷ []) i (get_elem?-lt ps i v.leida) ∙ v.leida;
      es_apta = v.es_apta;
      sobra = v.sobra;
      optima = λ j q l a. elim (get_elem?-snoc_cases ps p j l) [
        | inl (_, old) ↦ v.optima j q old a
        | inr (_, same) ↦ rw same (m (rw same at a))
      ];
      es_primera = λ j q lt l a. elim (get_elem?-snoc_cases ps p j l) [
        | inl (_, old) ↦ v.es_primera j q lt old a
        | inr (at, _) ↦ absurd (omega (arith, get_elem?-lt ps i v.leida))
      ];
    }

    ninguna : EsAjuste ps none → apta p ≡ false → EsAjuste (ps ++ (p ∷ [])) none
    ninguna h e j q l = elim (get_elem?-snoc_cases ps p j l) [
      | inl (_, old) ↦ h j q old
      | inr (_, same) ↦ rw same e
    ]

    considerar-EsAjuste :
        (a : Option (ℕ × ℕ))
        → EsAjuste ps a
        → EsAjuste (ps ++ (p ∷ [])) (considerar apta mejora tam_proceso (length ps) a p)
    unfolding considerar
    considerar-EsAjuste none h = elim (Bool-cases (apta p)) [
      | inl e ↦ rw e (nueva_none h e)
      | inr e ↦ rw e (ninguna h e)
    ]
    considerar-EsAjuste (some (i, s)) v = elim (Bool-cases (apta p)) [
      | inl e ↦ elim (Bool-cases (mejora (p.tamanio - tam_proceso) s)) [
        | inl m ↦ rw (e, m) (nueva_some i s v e m)
        | inr m ↦ rw (e, m) (misma i s v (λ _. m))
      ]
      | inr e ↦ rw e (misma i s v (λ t. cc))
    ]

  -- From a choice among the partitions seen, the loop makes one among all.
  pub recorrer-EsAjuste :
      EsOrden mejora
      → (qs vistas : List Particion) (a : Option (ℕ × ℕ)) (i : ℕ) → i ≡ length vistas
      → EsAjuste vistas a
      → EsAjuste (vistas ++ qs) (recorrer apta mejora tam_proceso i a qs)
  unfolding recorrer
  recorrer-EsAjuste orden [] vistas a i e h = rw append-nil h
  recorrer-EsAjuste orden (q ∷ qs) vistas a i e h =
      subst
        (λ l.
          EsAjuste l (
            recorrer apta mejora tam_proceso (i + 1) (considerar apta mejora tam_proceso i a q) qs))
        (append_assoc vistas (q ∷ []) qs)
        (recorrer-EsAjuste orden qs (vistas ++ (q ∷ [])) _ (i + 1)
          (omega (arith, length-append vistas (q ∷ [])))
          (rw e (considerar-EsAjuste orden vistas q a h)))
