-- ===== src/Assembler/Encode.antt =====
-- The encoders of src/assembler/core/opcode_generator.c and the immediates of src/execution/alu.c.
use risc_v_microarchitecture.Base.{ℕ, ◌+◌, ◌*◌, ◌%◌, ◌^◌, ◌≤◌, ◌<◌, ◌≡◌, arith, some, add32, sub32}
use risc_v_microarchitecture.Bits.{and_field, or_at}
use risc_v_microarchitecture.Alu.{immediate_i, immediate_s, immediate_b, immediate_u, immediate_j}
use risc_v_microarchitecture.Alu.Immediate.{
  bits, immediate_i_lem, immediate_s_lem, immediate_b_lem, immediate_u_lem, immediate_j_lem,
}
use risc_v_microarchitecture.Assembler.{
  read_b_format, read_j_format, read_s_format, read_u_format, read_i_format,
}

-- The opcode word of the B format: opcode and funct3, all other fields zero.
module _ (opcode funct3 : ℕ) (ho : opcode < 2 ^ 7) (hf : funct3 < 2 ^ 3) where
  b_word :
      (arg1 arg2 label current : ℕ)
      → arg1 < 32
      → arg2 < 32
      → label < 2 ^ 32
      → current < 2 ^ 32
      → label ≤ current + 4095
      → current ≤ label + 4096
      → read_b_format (opcode + funct3 * 2 ^ 12) arg1 arg2 (some label) current
        ≡ opcode
          + funct3 * 2 ^ 12
          + arg1 * 2 ^ 15
          + arg2 * 2 ^ 20
          + bits 1 4 (sub32 label current) * 2 ^ 8
          + bits 5 6 (sub32 label current) * 2 ^ 25
          + bits 11 1 (sub32 label current) * 2 ^ 7
          + bits 12 1 (sub32 label current) * 2 ^ 31
  unfolding read_b_format
  b_word arg1 arg2 label current h1 h2 hl hc up down =
      let d = sub32 label current in
      let w₀ = opcode + funct3 * 2 ^ 12 in
      let w₁ = w₀ + arg1 * 2 ^ 15 in
      let w₂ = w₁ + arg2 * 2 ^ 20 in
      let w₃ = w₂ + bits 1 4 d * 2 ^ 8 in
      let w₄ = w₃ + bits 5 6 d * 2 ^ 25 in
      let w₅ = w₄ + bits 11 1 d * 2 ^ 7 in
      ground (
        arith,
        and_field 1 4 d (omega arith) (omega arith),
        and_field 5 6 d (omega arith) (omega arith),
        and_field 11 1 d (omega arith) (omega arith),
        and_field 12 1 d (omega arith) (omega arith),
        or_at 15 5 w₀ arg1 (omega arith) (omega arith) (omega arith) (omega arith),
        or_at 20 5 w₁ arg2 (omega arith) (omega arith) (omega arith) (omega arith),
        or_at 8 4 w₂ (bits 1 4 d) (omega arith) (omega arith) (omega arith) (omega arith),
        or_at 25 6 w₃ (bits 5 6 d) (omega arith) (omega arith) (omega arith) (omega arith),
        or_at 7 1 w₄ (bits 11 1 d) (omega arith) (omega arith) (omega arith) (omega arith),
        or_at 31 1 w₅ (bits 12 1 d) (omega arith) (omega arith) (omega arith) (omega arith),
      )

  -- A branch assembled at `current` to a label at an even distance in the range of the check gets,
  -- in the simulator, the immediate that leads from `current` to the label, and its register
  -- numbers, opcode and funct3 are those that were put in.
  pub read_b_format-immediate_b :
      (arg1 arg2 label current : ℕ)
      → arg1 < 32
      → arg2 < 32
      → label < 2 ^ 32
      → current < 2 ^ 32
      → label ≤ current + 4095
      → current ≤ label + 4096
      → (label + current) % 2 ≡ 0
      → let ir = read_b_format (opcode + funct3 * 2 ^ 12) arg1 arg2 (some label) current in
        (add32 current (immediate_b ir) ≡ label)
        × (bits 15 5 ir ≡ arg1)
        × (bits 20 5 ir ≡ arg2)
        × (bits 0 7 ir ≡ opcode)
        × (bits 12 3 ir ≡ funct3)
  read_b_format-immediate_b arg1 arg2 label current h1 h2 hl hc up down even =
      let ir = read_b_format (opcode + funct3 * 2 ^ 12) arg1 arg2 (some label) current in
      let e = b_word arg1 arg2 label current h1 h2 hl hc up down in
      let small : ir < 2 ^ 32 = omega (arith, e) in
      let i = immediate_b_lem ir small in
      (omega (arith, e, i), omega (arith, e), omega (arith, e), omega (arith, e), omega (arith, e))

  s_word :
      (arg1 arg2 arg3 : ℕ)
      → arg1 < 32
      → arg2 < 32
      → arg3 < 2 ^ 32
      → read_s_format (opcode + funct3 * 2 ^ 12) arg1 arg2 arg3
        ≡ opcode
          + funct3 * 2 ^ 12
          + arg1 * 2 ^ 20
          + arg2 * 2 ^ 15
          + bits 0 5 arg3 * 2 ^ 7
          + bits 5 7 arg3 * 2 ^ 25
  unfolding read_s_format
  s_word arg1 arg2 arg3 h1 h2 h3 =
      let w₀ = opcode + funct3 * 2 ^ 12 in
      let w₁ = w₀ + arg1 * 2 ^ 20 in
      let w₂ = w₁ + arg2 * 2 ^ 15 in
      let w₃ = w₂ + bits 0 5 arg3 * 2 ^ 7 in
      ground (
        arith,
        and_field 0 5 arg3 (omega arith) (omega arith),
        and_field 5 7 arg3 (omega arith) (omega arith),
        or_at 20 5 w₀ arg1 (omega arith) (omega arith) (omega arith) (omega arith),
        or_at 15 5 w₁ arg2 (omega arith) (omega arith) (omega arith) (omega arith),
        or_at 7 5 w₂ (bits 0 5 arg3) (omega arith) (omega arith) (omega arith) (omega arith),
        or_at 25 7 w₃ (bits 5 7 arg3) (omega arith) (omega arith) (omega arith) (omega arith),
      )

  -- A store whose offset is a 12-bit signed number (its 32-bit pattern `arg3`) gives that offset
  -- back as the immediate, and its register numbers, opcode and funct3.
  pub read_s_format-immediate_s :
      (arg1 arg2 arg3 : ℕ)
      → arg1 < 32
      → arg2 < 32
      → arg3 < 2 ^ 32
      → (arg3 + 2048) % 2 ^ 32 < 4096
      → let ir = read_s_format (opcode + funct3 * 2 ^ 12) arg1 arg2 arg3 in
        (immediate_s ir ≡ arg3)
        × (bits 20 5 ir ≡ arg1)
        × (bits 15 5 ir ≡ arg2)
        × (bits 0 7 ir ≡ opcode)
        × (bits 12 3 ir ≡ funct3)
  read_s_format-immediate_s arg1 arg2 arg3 h1 h2 h3 range =
      let ir = read_s_format (opcode + funct3 * 2 ^ 12) arg1 arg2 arg3 in
      let e = s_word arg1 arg2 arg3 h1 h2 h3 in
      let small : ir < 2 ^ 32 = omega (arith, e) in
      let i = immediate_s_lem ir small in
      (omega (arith, e, i), omega (arith, e), omega (arith, e), omega (arith, e), omega (arith, e))

  i_word :
      (arg1 arg2 arg3 : ℕ)
      → arg1 < 32
      → arg2 < 32
      → arg3 < 2 ^ 32
      → read_i_format (opcode + funct3 * 2 ^ 12) arg1 arg2 arg3
        ≡ opcode + funct3 * 2 ^ 12 + arg1 * 2 ^ 7 + arg2 * 2 ^ 15 + bits 0 12 arg3 * 2 ^ 20
  unfolding read_i_format
  i_word arg1 arg2 arg3 h1 h2 h3 =
      let w₀ = opcode + funct3 * 2 ^ 12 in
      let w₁ = w₀ + arg1 * 2 ^ 7 in
      let w₂ = w₁ + arg2 * 2 ^ 15 in
      ground (
        arith,
        or_at 7 5 w₀ arg1 (omega arith) (omega arith) (omega arith) (omega arith),
        or_at 15 5 w₁ arg2 (omega arith) (omega arith) (omega arith) (omega arith),
        or_at 20 12 w₂ (bits 0 12 arg3) (omega arith) (omega arith) (omega arith) (omega arith),
      )

  -- An I-format instruction whose immediate is a 12-bit signed number (its 32-bit pattern `arg3`)
  -- gives that immediate back, and rd, rs1, opcode and funct3.
  pub read_i_format-immediate_i :
      (arg1 arg2 arg3 : ℕ)
      → arg1 < 32
      → arg2 < 32
      → arg3 < 2 ^ 32
      → (arg3 + 2048) % 2 ^ 32 < 4096
      → let ir = read_i_format (opcode + funct3 * 2 ^ 12) arg1 arg2 arg3 in
        (immediate_i ir ≡ arg3)
        × (bits 7 5 ir ≡ arg1)
        × (bits 15 5 ir ≡ arg2)
        × (bits 0 7 ir ≡ opcode)
        × (bits 12 3 ir ≡ funct3)
  read_i_format-immediate_i arg1 arg2 arg3 h1 h2 h3 range =
      let ir = read_i_format (opcode + funct3 * 2 ^ 12) arg1 arg2 arg3 in
      let e = i_word arg1 arg2 arg3 h1 h2 h3 in
      let small : ir < 2 ^ 32 = omega (arith, e) in
      let i = immediate_i_lem ir small in
      (omega (arith, e, i), omega (arith, e), omega (arith, e), omega (arith, e), omega (arith, e))

module _ (opcode : ℕ) (ho : opcode < 2 ^ 7) where
  j_word :
      (arg1 label current : ℕ)
      → arg1 < 32
      → label < 2 ^ 32
      → current < 2 ^ 32
      → label ≤ current + 1048575
      → current ≤ label + 1048576
      → read_j_format opcode arg1 (some label) current
        ≡ opcode
          + arg1 * 2 ^ 7
          + bits 1 10 (sub32 label current) * 2 ^ 21
          + bits 11 1 (sub32 label current) * 2 ^ 20
          + bits 12 8 (sub32 label current) * 2 ^ 12
          + bits 20 1 (sub32 label current) * 2 ^ 31
  unfolding read_j_format
  j_word arg1 label current h1 hl hc up down =
      let d = sub32 label current in
      let w₁ = opcode + arg1 * 2 ^ 7 in
      let w₂ = w₁ + bits 1 10 d * 2 ^ 21 in
      let w₃ = w₂ + bits 11 1 d * 2 ^ 20 in
      let w₄ = w₃ + bits 12 8 d * 2 ^ 12 in
      ground (
        arith,
        and_field 1 10 d (omega arith) (omega arith),
        and_field 11 1 d (omega arith) (omega arith),
        and_field 12 8 d (omega arith) (omega arith),
        and_field 20 1 d (omega arith) (omega arith),
        or_at 7 5 opcode arg1 (omega arith) (omega arith) (omega arith) (omega arith),
        or_at 21 10 w₁ (bits 1 10 d) (omega arith) (omega arith) (omega arith) (omega arith),
        or_at 20 1 w₂ (bits 11 1 d) (omega arith) (omega arith) (omega arith) (omega arith),
        or_at 12 8 w₃ (bits 12 8 d) (omega arith) (omega arith) (omega arith) (omega arith),
        or_at 31 1 w₄ (bits 20 1 d) (omega arith) (omega arith) (omega arith) (omega arith),
      )

  -- A `jal` assembled at `current` to a label at an even distance in the range of the check gets
  -- the immediate that leads from `current` to the label, and keeps rd and the opcode.
  pub read_j_format-immediate_j :
      (arg1 label current : ℕ)
      → arg1 < 32
      → label < 2 ^ 32
      → current < 2 ^ 32
      → label ≤ current + 1048575
      → current ≤ label + 1048576
      → (label + current) % 2 ≡ 0
      → let ir = read_j_format opcode arg1 (some label) current in
        (add32 current (immediate_j ir) ≡ label) × (bits 7 5 ir ≡ arg1) × (bits 0 7 ir ≡ opcode)
  read_j_format-immediate_j arg1 label current h1 hl hc up down even =
      let ir = read_j_format opcode arg1 (some label) current in
      let e = j_word arg1 label current h1 hl hc up down in
      let small : ir < 2 ^ 32 = omega (arith, e) in
      let i = immediate_j_lem ir small in (omega (arith, e, i), omega (arith, e), omega (arith, e))

  -- The 20 bits that `lui` and `auipc` are given come back as the upper bits of the immediate that
  -- the logical unit shifts by 12, with rd and the opcode.
  pub read_u_format-immediate_u :
      (arg1 arg2 : ℕ)
      → arg1 < 32
      → arg2 < 2 ^ 20
      → let ir = read_u_format opcode arg1 arg2 in
        (immediate_u ir * 2 ^ 12 % 2 ^ 32 ≡ arg2 * 2 ^ 12)
        × (bits 7 5 ir ≡ arg1)
        × (bits 0 7 ir ≡ opcode)
  unfolding read_u_format
  read_u_format-immediate_u arg1 arg2 h1 h2 =
      let ir = opcode + arg1 * 2 ^ 7 + arg2 * 2 ^ 12 in
      let e : read_u_format opcode arg1 arg2 ≡ ir = ground (
        arith,
        or_at 7 5 opcode arg1 (omega arith) (omega arith) (omega arith) (omega arith),
        or_at 12 20 (opcode + arg1 * 2 ^ 7) arg2 (omega arith) (omega arith) (omega arith)
            (omega arith),
      ) in
      rw e (
        let i = immediate_u_lem ir (omega arith) in
        (omega (arith, i), omega (arith), omega (arith)))
