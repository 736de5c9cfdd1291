-- ===== src/Base/Words.antt =====
-- Casts to the fixed widths, shifts, and the bytes of a number in network order.
use Prim.Native.Nat.{ℕ, ◌*◌, ◌/◌, ◌%◌, ◌^◌}
use mathlib.Core.List.{List, [], ◌∷◌}

abbrev pub u8 : ℕ → ℕ
u8 n = n % 2 ^ 8

abbrev pub u16 : ℕ → ℕ
u16 n = n % 2 ^ 16

abbrev pub u32 : ℕ → ℕ
u32 n = n % 2 ^ 32

infixl 75 ◌<<<◌ ◌>>>◌
abbrev pub ◌<<<◌ : ℕ → ℕ → ℕ
x <<< k = x * 2 ^ k

abbrev pub ◌>>>◌ : ℕ → ℕ → ℕ
x >>> k = x / 2 ^ k

-- What four `push_back((x >> k) & 0xFF)` in a row append, `k` from 24 down; a push keeps 8 bits.
abbrev pub bytes32 : ℕ → List ℕ
bytes32 x = u8 (x >>> 24) ∷ u8 (x >>> 16) ∷ u8 (x >>> 8) ∷ u8 x ∷ []

abbrev pub bytes24 : ℕ → List ℕ
bytes24 x = u8 (x >>> 16) ∷ u8 (x >>> 8) ∷ u8 x ∷ []

abbrev pub bytes16 : ℕ → List ℕ
bytes16 x = u8 (x >>> 8) ∷ u8 x ∷ []
