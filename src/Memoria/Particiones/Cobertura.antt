-- ===== src/Memoria/Particiones/Cobertura.antt =====
-- How often a list of partitions covers an address, and how much of it is free: the measures by
-- which the dynamic partitions of memoria/src are specified.
use so_tp_2c.Prelude.{
  ℕ, zero, suc, ◌+◌, ◌≡◌, ◌&&◌, some, List, [], ◌∷◌, ◌++◌, arith, ltb, leb, ◌==◌, if◌then◌else◌,
  get_elem?, set,
}
use so_tp_2c.Memoria.Particiones.{Particion}

-- 1 if the address lies in the partition.
unfoldable pub toca : ℕ → Particion → ℕ
toca x p = if leb p.base x && ltb x (p.base + p.tamanio) then 1 else 0

-- The number of partitions that hold the address.
unfoldable pub cubre : ℕ → List Particion → ℕ
cubre x [] = 0
cubre x (p ∷ ps) = toca x p + cubre x ps

-- The bytes that a partition has to give.
unfoldable pub libre : Particion → ℕ
libre p = if p.estado == 0 then p.tamanio else 0

-- The bytes in free partitions.
unfoldable pub libre_total : List Particion → ℕ
libre_total [] = 0
libre_total (p ∷ ps) = libre p + libre_total ps

pub cubre-append : (x : ℕ) (ps qs : List Particion) → cubre x (ps ++ qs) ≡ cubre x ps + cubre x qs
unfolding cubre
cubre-append x [] qs = omega arith
cubre-append x (p ∷ ps) qs = omega (arith, cubre-append x ps qs)

pub cubre-set :
    (x : ℕ) (ps : List Particion) (i : ℕ) (p q : Particion)
    → get_elem? ps i ≡ some p
    → cubre x (set ps i q) + toca x p ≡ cubre x ps + toca x q
unfolding cubre
cubre-set x [] i p q e = ground arith
cubre-set x (r ∷ ps) zero p q e = ground arith
cubre-set x (r ∷ ps) (suc i) p q e = omega (arith, cubre-set x ps i p q e)

pub libre_total-append :
    (ps qs : List Particion) → libre_total (ps ++ qs) ≡ libre_total ps + libre_total qs
unfolding libre_total
libre_total-append [] qs = omega arith
libre_total-append (p ∷ ps) qs = omega (arith, libre_total-append ps qs)

pub libre_total-set :
    (ps : List Particion) (i : ℕ) (p q : Particion)
    → get_elem? ps i ≡ some p
    → libre_total (set ps i q) + libre p ≡ libre_total ps + libre q
unfolding libre_total
libre_total-set [] i p q e = ground arith
libre_total-set (r ∷ ps) zero p q e = ground arith
libre_total-set (r ∷ ps) (suc i) p q e = omega (arith, libre_total-set ps i p q e)
