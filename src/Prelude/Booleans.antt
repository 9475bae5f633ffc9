-- ===== src/Prelude/Booleans.antt =====
-- Sums of Boolean tests, rearranged.
use mathlib.Core.Path.{◌≡◌}
use mathlib.Core.Bool.{Bool, true, false, ◌||◌}
use native.Mathlib.Omega.{arith}
use xray_core_python.Prelude.Tests.{if◌then◌else◌}

pub or_false : (b : Bool) → (b || false) ≡ b
or_false b = ground arith

pub or_comm : (a b : Bool) → (a || b) ≡ (b || a)
or_comm a b = ground arith

pub or_assoc : (a b c : Bool) → (a || (b || c)) ≡ ((a || b) || c)
or_assoc a b c = ground arith

pub or_swap : (a b c : Bool) → (a || (b || c)) ≡ (b || (a || c))
or_swap a b c = ground arith

pub or_rotate : (a b c : Bool) → (a || (b || c)) ≡ ((b || a) || c)
or_rotate a b c = ground arith

pub if_or : (a b : Bool) → (if a then true else b) ≡ (a || b)
if_or a b = ground arith

-- A test that stands in a sum of four tests, in front of it.
pub or_1 : (m a r : Bool) → ((m || a) || r) ≡ (m || (a || r))
or_1 m a r = ground arith

pub or_2 : (m a b r : Bool) → (a || ((m || b) || r)) ≡ (m || (a || (b || r)))
or_2 m a b r = ground arith

pub or_3 : (m a b c r : Bool) → (a || (b || ((m || c) || r))) ≡ (m || (a || (b || (c || r))))
or_3 m a b c r = ground arith

pub or_4 : (m a b c d : Bool) → (a || (b || (c || (m || d)))) ≡ (m || (a || (b || (c || d))))
or_4 m a b c d = ground arith
