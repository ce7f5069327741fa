-- ===== src/Comunes/Bytes.antt =====
-- 32-bit words in memory, lowest byte first, as the machine stores them.
use so_tp_2c.Prelude.{ℕ, ◌+◌, ◌*◌, ◌/◌, ◌%◌, ◌^◌, ◌<◌, ◌≡◌, refl, List, [], ◌∷◌, arith, length}

unfoldable pub le32 : ℕ → List ℕ
le32 n = n % 256 ∷ n / 2 ^ 8 % 256 ∷ n / 2 ^ 16 % 256 ∷ n / 2 ^ 24 % 256 ∷ []

unfoldable pub de_le32 : List ℕ → ℕ
de_le32 (a ∷ b ∷ c ∷ d ∷ _) = a + 2 ^ 8 * b + 2 ^ 16 * c + 2 ^ 24 * d
de_le32 _ = 0

pub length-le32 : (n : ℕ) → length (le32 n) ≡ 4
unfolding le32
length-le32 n = refl

pub de_le32-le32 : (n : ℕ) → n < 2 ^ 32 → de_le32 (le32 n) ≡ n
unfolding le32 de_le32
de_le32-le32 n h = omega arith
