-- ===== src/Prelude/Words.antt =====
-- Machine words: a value is a natural number, and an operation wraps at its width.
use Prim.Native.Nat.{ℕ, ◌%◌, ◌^◌}

-- uint64_t, and size_t on the 64-bit targets.
abbrev pub u64 : ℕ → ℕ
u64 n = n % 2 ^ 64

-- A sum may be reduced before or after the last addition.
