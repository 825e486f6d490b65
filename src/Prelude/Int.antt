-- ===== src/Prelude/Int.antt =====
-- Signed integers over the native numbers, under the library's names.
use rymos.Prelude.{ℕ, ◌-◌, ◌^◌, ltb, if◌then◌else◌}

-- `negsuc n` is -(n + 1).
pub data ℤ : Type 0 where
  pos : ℕ → ℤ
  negsuc : ℕ → ℤ

-- A `u32` read as an `i32`, `value as i32`.
abbrev pub as_i32 : ℕ → ℤ
as_i32 n = if ltb n (2 ^ 31) then pos n else negsuc (2 ^ 32 - 1 - n)

-- A `usize` read as an `isize`, `value as isize`.
abbrev pub as_isize : ℕ → ℤ
as_isize n = if ltb n (2 ^ 63) then pos n else negsuc (2 ^ 64 - 1 - n)
