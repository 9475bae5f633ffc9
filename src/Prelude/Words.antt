-- ===== src/Prelude/Words.antt =====
-- Machine words as native numbers, and their big-endian bytes (encoding/binary.BigEndian).
use Prim.Native.Nat.{ℕ, ◌+◌, ◌-◌, ◌*◌, ◌/◌, ◌%◌, ◌^◌, ◌<◌}
use mathlib.Core.Path.{◌≡◌}
use mathlib.Core.List.{List, [], ◌∷◌, ◌++◌}
use native.Mathlib.Omega.{arith}
use xray_core_python.Prelude.Lists.{get_or}

abbrev pub u8 : ℕ → ℕ
u8 n = n % 256

abbrev pub u16 : ℕ → ℕ
u16 n = n % 2 ^ 16

abbrev pub u32 : ℕ → ℕ
u32 n = n % 2 ^ 32

-- uint32 a - b, for words a and b.
abbrev pub sub32 : ℕ → ℕ → ℕ
sub32 a b = (a + 2 ^ 32 - b) % 2 ^ 32

abbrev pub IsU8 : ℕ → Type 0
IsU8 n = n < 256

abbrev pub IsU16 : ℕ → Type 0
IsU16 n = n < 2 ^ 16

abbrev pub IsU32 : ℕ → Type 0
IsU32 n = n < 2 ^ 32

abbrev pub put_u16 : ℕ → List ℕ
put_u16 v = u8 (v / 2 ^ 8) ∷ u8 v ∷ []

abbrev pub put_u32 : ℕ → List ℕ
put_u32 v = u8 (v / 2 ^ 24) ∷ u8 (v / 2 ^ 16) ∷ u8 (v / 2 ^ 8) ∷ u8 v ∷ []

-- The first bytes as a word. Go panics on a shorter slice: every caller tests the length first.
abbrev pub get_u16 : List ℕ → ℕ
get_u16 b = get_or b 0 0 * 2 ^ 8 + get_or b 1 0

abbrev pub get_u32 : List ℕ → ℕ
get_u32 b = get_or b 0 0 * 2 ^ 24 + get_or b 1 0 * 2 ^ 16 + get_or b 2 0 * 2 ^ 8 + get_or b 3 0

pub get_u16-put_u16 : (v : ℕ) (rest : List ℕ) → IsU16 v → get_u16 (put_u16 v ++ rest) ≡ v
get_u16-put_u16 v rest h = omega arith

pub get_u32-put_u32 : (v : ℕ) (rest : List ℕ) → IsU32 v → get_u32 (put_u32 v ++ rest) ≡ v
get_u32-put_u32 v rest h = omega arith
