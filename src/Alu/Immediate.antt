-- ===== src/Alu/Immediate.antt =====
-- `generate_immediate` as the sum of its bit fields: the layout of the immediates in RV32I.
use risc_v_microarchitecture.Base.{ℕ, ◌+◌, ◌*◌, ◌-◌, ◌/◌, ◌%◌, ◌^◌, ◌<◌, ◌≡◌, arith}
use risc_v_microarchitecture.Bits.{and_field, or_at}
use risc_v_microarchitecture.Alu.{immediate_i, immediate_s, immediate_b, immediate_u, immediate_j}

-- The field of `w` bits at bit `k`.
abbrev pub bits : ℕ → ℕ → ℕ → ℕ
bits k w x = x / 2 ^ k % 2 ^ w

pub immediate_i_lem :
    (ir : ℕ) → ir < 2 ^ 32 → immediate_i ir ≡ bits 20 11 ir + bits 31 1 ir * (2 ^ 32 - 2 ^ 11)
unfolding immediate_i
immediate_i_lem ir h = ground (arith, and_field 20 12 ir (omega arith) (omega arith))

pub immediate_u_lem :
    (ir : ℕ) → ir < 2 ^ 32 → immediate_u ir ≡ bits 12 19 ir + bits 31 1 ir * (2 ^ 32 - 2 ^ 19)
unfolding immediate_u
immediate_u_lem ir h = ground (arith, and_field 12 20 ir (omega arith) (omega arith))

pub immediate_s_lem :
    (ir : ℕ)
    → ir < 2 ^ 32
    → immediate_s ir ≡ bits 7 5 ir + bits 25 6 ir * 2 ^ 5 + bits 31 1 ir * (2 ^ 32 - 2 ^ 11)
unfolding immediate_s
immediate_s_lem ir h = ground (
  arith,
  and_field 25 7 ir (omega arith) (omega arith),
  and_field 7 5 ir (omega arith) (omega arith),
  or_at 20 5 (bits 25 7 ir * 2 ^ 25) (bits 7 5 ir) (omega arith) (omega arith) (omega arith)
      (omega arith),
)

pub immediate_b_lem :
    (ir : ℕ)
    → ir < 2 ^ 32
    → immediate_b ir
      ≡ bits 8 4 ir * 2
        + bits 25 6 ir * 2 ^ 5
        + bits 7 1 ir * 2 ^ 11
        + bits 31 1 ir * (2 ^ 32 - 2 ^ 12)
unfolding immediate_b
immediate_b_lem ir h = ground (
  arith,
  and_field 8 4 ir (omega arith) (omega arith),
  and_field 25 6 ir (omega arith) (omega arith),
  and_field 7 1 ir (omega arith) (omega arith),
  and_field 31 1 ir (omega arith) (omega arith),
  or_at 4 6 (bits 8 4 ir) (bits 25 6 ir) (omega arith) (omega arith) (omega arith) (omega arith),
  or_at 10 1 (bits 8 4 ir + bits 25 6 ir * 2 ^ 4) (bits 7 1 ir) (omega arith) (omega arith)
      (omega arith) (omega arith),
  or_at 11 21 (bits 8 4 ir + bits 25 6 ir * 2 ^ 4 + bits 7 1 ir * 2 ^ 10)
      (bits 31 1 ir * (2 ^ 21 - 1)) (omega arith) (omega arith) (omega arith) (omega arith),
)

pub immediate_j_lem :
    (ir : ℕ)
    → ir < 2 ^ 32
    → immediate_j ir
      ≡ bits 21 10 ir * 2
        + bits 20 1 ir * 2 ^ 11
        + bits 12 8 ir * 2 ^ 12
        + bits 31 1 ir * (2 ^ 32 - 2 ^ 20)
unfolding immediate_j
immediate_j_lem ir h = ground (
  arith,
  and_field 21 10 ir (omega arith) (omega arith),
  and_field 20 1 ir (omega arith) (omega arith),
  and_field 12 8 ir (omega arith) (omega arith),
  and_field 31 1 ir (omega arith) (omega arith),
  or_at 10 1 (bits 21 10 ir) (bits 20 1 ir) (omega arith) (omega arith) (omega arith) (omega arith),
  or_at 11 8 (bits 21 10 ir + bits 20 1 ir * 2 ^ 10) (bits 12 8 ir) (omega arith) (omega arith)
      (omega arith) (omega arith),
  or_at 19 13 (bits 21 10 ir + bits 20 1 ir * 2 ^ 10 + bits 12 8 ir * 2 ^ 11)
      (bits 31 1 ir * (2 ^ 13 - 1)) (omega arith) (omega arith) (omega arith) (omega arith),
)
