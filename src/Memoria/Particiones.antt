-- ===== src/Memoria/Particiones.antt =====
-- The partitions of user memory: the search algorithms of memoria/src/manejar_kernel.c, and the
-- set-up and release of memoria/src/main.c.
-- An address is its distance from `memoria_usuario`; `none` is NULL. Sizes are not negative.
pub mod Ajuste
pub mod Fijas
pub mod Cobertura
pub mod Dinamicas
pub mod Inicio
pub mod Liberar
use so_tp_2c.Prelude.{
  ℕ, zero, suc, ◌+◌, ◌-◌, ◌≤◌, ◌≡◌, ◌&&◌, Bool, true, false, Option, none, some, List, [], ◌∷◌, ltb,
  leb, ◌==◌, if◌then◌else◌, set,
}
use so_tp_2c.Commons.{ListaApi}
use so_tp_2c.Prelude.Resultado.{Resultado, ok, exit_failure, falla, puntero_nulo}

-- `t_particion`. `estado` is 0 when the partition is free.
pub record Particion : Type 0 where
  pub tamanio : ℕ
  pub estado : ℕ
  pub base : ℕ

abbrev pub esta_libre : Particion → Bool
esta_libre p = p.estado == 0

abbrev pub ocupar : Particion → Particion
ocupar p = record p { estado = 1 }

-- What a search returns: the base that it found, and the list that it leaves.
abbrev pub Busqueda : Type 0
Busqueda = Option ℕ × List Particion

unfoldable pub first_fit : ℕ → List Particion → Busqueda
first_fit tam_proceso [] = (none, [])
first_fit tam_proceso (p ∷ ps) =
    let (base, resto) = first_fit tam_proceso ps in
    if esta_libre p && leb tam_proceso p.tamanio
    then (some p.base, ocupar p ∷ ps)
    else (base, p ∷ resto)

-- One round of the loop of the best and worst fit. `none` is the -1 of `mejor_ajuste`; the pair
-- holds the index and `espacio_sobrante_minimo` (or `maximo`). `apta` is the test of the two guards
-- on a partition, and `mejora` compares the space that is left over.
unfoldable pub considerar :
    (Particion → Bool) → (ℕ → ℕ → Bool) → ℕ → ℕ → Option (ℕ × ℕ) → Particion → Option (ℕ × ℕ)
considerar apta mejora tam_proceso i none p =
    if apta p then some (i, p.tamanio - tam_proceso) else none
considerar apta mejora tam_proceso i (some (j, s)) p =
    if apta p && mejora (p.tamanio - tam_proceso) s
    then some (i, p.tamanio - tam_proceso)
    else some (j, s)

unfoldable pub recorrer :
    (Particion → Bool) → (ℕ → ℕ → Bool) → ℕ → ℕ → Option (ℕ × ℕ) → List Particion → Option (ℕ × ℕ)
unfolding considerar
recorrer apta mejora tam_proceso i ajuste [] = ajuste
recorrer apta mejora tam_proceso i ajuste (p ∷ ps) =
    recorrer apta mejora tam_proceso (i + 1) (considerar apta mejora tam_proceso i ajuste p) ps

abbrev pub cabe : ℕ → Particion → Bool
cabe tam_proceso p = esta_libre p && leb tam_proceso p.tamanio

-- The guards of `worst_fit`, whose size test is strict.
abbrev pub cabe_holgada : ℕ → Particion → Bool
cabe_holgada tam_proceso p = esta_libre p && ltb tam_proceso p.tamanio

-- `espacio_sobrante > espacio_sobrante_maximo`
abbrev pub sobra_mas : ℕ → ℕ → Bool
sobra_mas a b = ltb b a

-- The free partition that a division leaves.
abbrev pub nueva_particion : ℕ → Particion → Particion
nueva_particion tam_proceso p = record {
  tamanio = p.tamanio - tam_proceso;
  estado = 0;
  base = p.base + tam_proceso;
}

abbrev pub recortar : ℕ → Particion → Particion
recortar tam_proceso p = record p { tamanio = tam_proceso }

-- The index of the first partition that fits.
unfoldable pub primera : ℕ → ℕ → List Particion → Option ℕ
primera tam_proceso i [] = none
primera tam_proceso i (p ∷ ps) =
    let resto = primera tam_proceso (i + 1) ps in if cabe tam_proceso p then some i else resto

abbrev pub indice : Option (ℕ × ℕ) → Option ℕ
indice none = none
indice (some (i, s)) = some i

module _ (L : ListaApi Particion) where
  open L use {list_add, list_get}

  -- Mark the partition that the loop chose, and return its base.
  unfoldable pub ocupar_elegida : Option (ℕ × ℕ) → List Particion → Resultado Busqueda
  ocupar_elegida none ps = ok (none, ps)
  ocupar_elegida (some (i, s)) ps = elim (list_get ps i) [
    | none ↦ falla puntero_nulo
    | some p ↦ ok (some p.base, set ps i (ocupar p))
  ]

  unfoldable pub best_fit : ℕ → List Particion → Resultado Busqueda
  unfolding ocupar_elegida
  best_fit tam_proceso ps =
      ocupar_elegida (recorrer (cabe tam_proceso) ltb tam_proceso 0 none ps) ps

  unfoldable pub worst_fit : ℕ → List Particion → Resultado Busqueda
  unfolding ocupar_elegida
  worst_fit tam_proceso ps =
      ocupar_elegida (recorrer (cabe_holgada tam_proceso) sobra_mas tam_proceso 0 none ps) ps

  -- Divide the partition at an index if space is left over, and mark it as taken.
  unfoldable pub dividir : ℕ → ℕ → Particion → List Particion → Resultado Busqueda
  dividir tam_proceso i p ps =
      if ltb tam_proceso p.tamanio
      then (elim (list_add (set ps i (recortar tam_proceso p)) (nueva_particion tam_proceso p)) [
        | none ↦ exit_failure
        | some qs ↦ ok (some p.base, set qs i (ocupar (recortar tam_proceso p)))
      ])
      else ok (some p.base, set ps i (ocupar p))

  unfoldable pub dividir_elegida : ℕ → Option ℕ → List Particion → Resultado Busqueda
  unfolding dividir
  dividir_elegida tam_proceso none ps = ok (none, ps)
  dividir_elegida tam_proceso (some i) ps = elim (list_get ps i) [
    | none ↦ falla puntero_nulo
    | some p ↦ dividir tam_proceso i p ps
  ]

  unfoldable pub first_fit_din : ℕ → List Particion → Resultado Busqueda
  unfolding dividir_elegida
  first_fit_din tam_proceso ps = dividir_elegida tam_proceso (primera tam_proceso 0 ps) ps

  unfoldable pub best_fit_din : ℕ → List Particion → Resultado Busqueda
  unfolding dividir_elegida
  best_fit_din tam_proceso ps =
      dividir_elegida tam_proceso (indice (recorrer (cabe tam_proceso) ltb tam_proceso 0 none ps))
        ps

  unfoldable pub worst_fit_din : ℕ → List Particion → Resultado Busqueda
  unfolding dividir_elegida
  worst_fit_din tam_proceso ps =
      dividir_elegida tam_proceso
        (indice (recorrer (cabe tam_proceso) sobra_mas tam_proceso 0 none ps)) ps
