-- ===== src/Cpu/Mmu.antt =====
-- Address translation: cpu/src/mmu.c. `none` is the address -1.
use so_tp_2c.Prelude.{
  ℕ, ◌+◌, ◌%◌, ◌^◌, ◌≤◌, ◌<◌, ◌≡◌, Option, none, some, arith, ltb, if◌then◌else◌, ◌⊎◌,
}

unfoldable pub obtener_direccion_fisica : ℕ → ℕ → ℕ → Option ℕ
obtener_direccion_fisica dir base limite =
    if ltb limite dir then none else some ((dir + base) % 2 ^ 32)

-- A logical address up to the limit, the limit itself included, is translated to the base plus the
-- address, and any other is refused, where base and limit add up to a 32-bit address: so exactly
-- one address outside the process, the one right after it, is let through.
pub obtener_direccion_fisica_lem :
    (dir base limite : ℕ)
    → base + limite < 2 ^ 32
    → ((dir ≤ limite) × (obtener_direccion_fisica dir base limite ≡ some (base + dir)))
      ⊎ ((limite < dir) × (obtener_direccion_fisica dir base limite ≡ none))
unfolding obtener_direccion_fisica
obtener_direccion_fisica_lem dir base limite h = ground arith
