-- ===== src/Memoria/Particiones/Inicio.antt =====
-- `gestionar_particiones` of memoria/src/main.c: the partitions that the configuration asks for.
use Prim.Native.String.{String}
use text.Mathlib.Text.{◌==◌ as str_eq}
use text.Mathlib.TextEquality.{eq_iff}
use so_tp_2c.Prelude.{
  ℕ, ◌+◌, ◌≤◌, ◌<◌, ◌≡◌, ◌≢◌, refl, inl, inr, ◌||◌, not, Option, none, some, List, [], ◌∷◌, ◌++◌,
  arith, ltb, leb, ◌&&◌, if◌then◌else◌, append_assoc, append-nil, Bool-cases, ◌⊎◌,
}
use so_tp_2c.Prelude.Resultado.{Resultado, ok, exit_failure}
use so_tp_2c.Commons.{ListaApi}
use so_tp_2c.Memoria.Particiones.{Particion}
use so_tp_2c.Memoria.Particiones.Cobertura.{toca, cubre, libre, libre_total}

abbrev pub particion_libre : ℕ → ℕ → Particion
particion_libre tamanio base = record { tamanio = tamanio; estado = 0; base = base }

-- The list after `list_add`, whose failure is only logged here.
abbrev tras_agregar : List Particion → Option (List Particion) → List Particion
tras_agregar lista none = lista
tras_agregar lista (some l) = l

module _ (L : ListaApi Particion) where
  open L use {list_add}

  -- The loop over the configured sizes, from `ptr_base_particion` on.
  unfoldable pub agregar_fijas : ℕ → ℕ → List ℕ → List Particion → Resultado (List Particion)
  agregar_fijas tam_total base [] lista = ok lista
  agregar_fijas tam_total base (tamanio ∷ resto) lista =
      let siguientes =
        agregar_fijas tam_total (base + tamanio) resto
          (tras_agregar lista (list_add lista (particion_libre tamanio base))) in
      if ltb tam_total (base + tamanio) || ltb base 0 then exit_failure else siguientes

  unfoldable pub gestionar_particiones : String → ℕ → List ℕ → Resultado (List Particion)
  unfolding agregar_fijas
  gestionar_particiones esquema tam_total tamanios =
      if str_eq esquema "FIJAS"
      then agregar_fijas tam_total 0 tamanios []
      else if not (str_eq esquema "DINAMICAS")
      then ok (tras_agregar [] (list_add [] (particion_libre tam_total 0)))
      else exit_failure

-- The configured sizes, one after the other from an address on.
pub fijas : ℕ → List ℕ → List Particion
fijas base [] = []
fijas base (t ∷ ts) = particion_libre t base ∷ fijas (base + t) ts

pub sum : List ℕ → ℕ
sum [] = 0
sum (t ∷ ts) = t + sum ts

cubre-fijas :
    (x : ℕ) (ts : List ℕ) (base : ℕ)
    → cubre x (fijas base ts) ≡ (if leb base x && ltb x (base + sum ts) then 1 else 0)
unfolding cubre fijas sum toca
cubre-fijas x [] base = ground arith
cubre-fijas x (t ∷ ts) base = ground (arith, cubre-fijas x ts (base + t))

libre_total-fijas : (ts : List ℕ) (base : ℕ) → libre_total (fijas base ts) ≡ sum ts
unfolding libre_total libre fijas sum
libre_total-fijas [] base = refl
libre_total-fijas (t ∷ ts) base = omega (arith, libre_total-fijas ts (base + t))

module _ (L : ListaApi Particion) where
  agregar_fijas-ok :
      (total base : ℕ) (ts : List ℕ) (l : List Particion)
      → base + sum ts ≤ total
      → agregar_fijas L total base ts l ≡ ok (l ++ fijas base ts)
  unfolding agregar_fijas sum fijas
  agregar_fijas-ok total base [] l h = rw append-nil
  agregar_fijas-ok total base (t ∷ ts) l h =
      let paso =
        agregar_fijas-ok total (base + t) ts (l ++ (particion_libre t base ∷ [])) (omega arith) in
      rw (L.list_add_appends l (particion_libre t base))
        (ground (arith, paso, append_assoc l (particion_libre t base ∷ []) (fijas (base + t) ts)))

  agregar_fijas-exit :
      (total base : ℕ) (ts : List ℕ) (l : List Particion)
      → base ≤ total
      → total < base + sum ts
      → agregar_fijas L total base ts l ≡ exit_failure
  unfolding agregar_fijas sum
  agregar_fijas-exit total base [] l b h = absurd (omega arith)
  agregar_fijas-exit total base (t ∷ ts) l b h = ground (
    arith,
    agregar_fijas-exit total (base + t) ts (tras_agregar l (L.list_add l (particion_libre t base))),
  )

  -- Under the scheme FIJAS the configured sizes are laid out from address 0 on as free partitions,
  -- which tile as many addresses as the sizes add up to, if that is within the memory; otherwise
  -- the program exits.
  pub gestionar_fijas :
      (tam_total : ℕ) (tamanios : List ℕ)
      → ((sum tamanios ≤ tam_total)
          × (gestionar_particiones L "FIJAS" tam_total tamanios ≡ ok (fijas 0 tamanios))
          × ((x : ℕ) → cubre x (fijas 0 tamanios) ≡ (if ltb x (sum tamanios) then 1 else 0))
          × (libre_total (fijas 0 tamanios) ≡ sum tamanios))
        ⊎ ((tam_total < sum tamanios)
            × (gestionar_particiones L "FIJAS" tam_total tamanios ≡ exit_failure))
  unfolding gestionar_particiones
  gestionar_fijas total ts = elim (Bool-cases (ltb total (sum ts))) [
    | inl e ↦ inr (ground arith, agregar_fijas-exit total 0 ts [] (omega arith) (ground arith))
    | inr e ↦ inl (
      ground arith,
      agregar_fijas-ok total 0 ts [] (ground arith),
      λ x. ground (arith, cubre-fijas x ts 0),
      libre_total-fijas ts 0,
    )
  ]

  -- The scheme DINAMICAS makes the program exit, and every scheme other than DINAMICAS and FIJAS
  -- gets the single partition of the dynamic one.
  pub gestionar_dinamicas :
      (esquema : String) (tam_total : ℕ) (tamanios : List ℕ)
      → esquema ≢ "FIJAS"
      → ((esquema ≡ "DINAMICAS")
          × (gestionar_particiones L esquema tam_total tamanios ≡ exit_failure))
        ⊎ ((esquema ≢ "DINAMICAS")
            × (gestionar_particiones L esquema tam_total tamanios
                ≡ ok (particion_libre tam_total 0 ∷ [])))
  unfolding gestionar_particiones
  gestionar_dinamicas esquema total ts h = elim (Bool-cases (str_eq esquema "DINAMICAS")) [
    | inl e ↦ inl ((eq_iff esquema "DINAMICAS").0 e, ground (arith, eq_iff esquema "FIJAS"))
    | inr e ↦ inr (
      λ s. ground (arith, eq_iff esquema "DINAMICAS"),
      ground (arith, eq_iff esquema "FIJAS", L.list_add_appends [] (particion_libre total 0)),
    )
  ]
