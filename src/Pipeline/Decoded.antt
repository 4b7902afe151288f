-- ===== src/Pipeline/Decoded.antt =====
-- The execute stage, src/pipeline/ex.c, on the signals of a decoded instruction.
use risc_v_microarchitecture.Base.{
  ◌≤◌, ◌≢◌, ℕ, ◌≡◌, true, arith, ok, refl, returns, returns_lem, returns->>=,
}
use risc_v_microarchitecture.Alu.{
  arithmetic_unit, logical_unit, less_than_comparator, branch_comparator,
}
use risc_v_microarchitecture.Control.Signals.{CuOutput}
use risc_v_microarchitecture.Control.Decode.{decode}
use risc_v_microarchitecture.Control.Bounds.{IsControl, decode-IsControl}
use risc_v_microarchitecture.Pipeline.State.{Machine, IdEx}
use risc_v_microarchitecture.Pipeline.Forward.{forward_ex}
use risc_v_microarchitecture.Pipeline.Execute.{execute, operand_one, operand_two, operate, ex_stage}

arithmetic_unit_total : (a b op : ℕ) → op ≤ 1 → returns (arithmetic_unit a b op) ≡ true
unfolding arithmetic_unit
arithmetic_unit_total a b op h = ground arith

logical_unit_total : (a b op sign : ℕ) → op ≤ 6 → returns (logical_unit a b op sign) ≡ true
unfolding logical_unit
logical_unit_total a b op sign h = ground arith

less_than_comparator_total :
    (a b sign : ℕ) → sign ≤ 1 → returns (less_than_comparator a b sign) ≡ true
unfolding less_than_comparator
less_than_comparator_total a b sign h = ground arith

branch_comparator_total :
    (a b op sign : ℕ) → op ≤ 4 → (op ≢ 4) → returns (branch_comparator a b op sign) ≡ true
unfolding branch_comparator
branch_comparator_total a b op sign h n = ground arith

execute_total :
    (id_ex : IdEx) (a b : ℕ)
    → id_ex.cs_ex.type ≤ 3
    → id_ex.cs_ex.sign ≤ 1
    → id_ex.cs_ex.arithmetic_opcode ≤ 1
    → id_ex.cs_ex.logic_opcode ≤ 6
    → id_ex.cs_ex.branch_opcode ≤ 4
    → returns (execute id_ex a b) ≡ true
unfolding execute
execute_total id_ex a b ht hs ha hl hb =
    let c = id_ex.cs_ex in
    ground (
      arith,
      arithmetic_unit_total a b c.arithmetic_opcode,
      arithmetic_unit_total id_ex.pc id_ex.imm c.arithmetic_opcode,
      logical_unit_total a b c.logic_opcode c.sign,
      less_than_comparator_total a b c.sign,
      branch_comparator_total a b c.branch_opcode c.sign,
    )

forward_ex-id_ex : (v n : ℕ) (m : Machine) → (forward_ex v n m).1.id_ex ≡ m.id_ex
unfolding forward_ex
forward_ex-id_ex v n m = ground arith

operand_one_total : (m : Machine) → m.id_ex.cs_ex.source1 ≤ 1 → returns (operand_one m) ≡ true
unfolding operand_one
operand_one_total m h = ground arith

operand_two_total : (m : Machine) → m.id_ex.cs_ex.source2 ≤ 1 → returns (operand_two m) ≡ true
unfolding operand_two
operand_two_total m h = ground arith

operand_one-id_ex : (m : Machine) (v : ℕ × Machine) → operand_one m ≡ ok v → v.1.id_ex ≡ m.id_ex
unfolding operand_one
operand_one-id_ex m v h = ground (arith, forward_ex-id_ex m.id_ex.r1 m.id_ex.nrs1 m)

operand_two-id_ex : (m : Machine) (v : ℕ × Machine) → operand_two m ≡ ok v → v.1.id_ex ≡ m.id_ex
unfolding operand_two
operand_two-id_ex m v h = ground (arith, forward_ex-id_ex m.id_ex.r2 m.id_ex.nrs2 m)

execute_decoded :
    (out : CuOutput)
    → IsControl out
    → (id_ex : IdEx) (a b : ℕ) → id_ex.cs_ex ≡ out.cs_ex
    → returns (execute id_ex a b) ≡ true
execute_decoded out c id_ex a b e =
    execute_total id_ex a b (rw e c.type) (rw e c.sign) (rw e c.arithmetic) (rw e c.logic)
      (rw e c.branch)

operate_total :
    (out : CuOutput)
    → IsControl out
    → (m : Machine) → m.id_ex.cs_ex ≡ out.cs_ex
    → returns (operate m) ≡ true
unfolding operate
operate_total out c m e =
    returns->>= (operand_one m) _ (operand_one_total m (rw e c.source1)) λ (a, m₁) h₁.
      let e₁ : m₁.id_ex ≡ m.id_ex = operand_one-id_ex m (a, m₁) h₁ in
      returns->>= (operand_two m₁) _ (operand_two_total m₁ (rw (e₁, e) c.source2)) λ (b, m₂) h₂.
        let e₂ : m₂.id_ex ≡ m₁.id_ex = operand_two-id_ex m₁ (b, m₂) h₂ in
        returns->>= (execute m₂.id_ex a b) _ (execute_decoded out c m₂.id_ex a b (rw (e₂, e₁, e)))
          λ r h₃. refl

-- A word that decodes never stops the execute stage: with its control signals in the decode
-- register the stage gives a result, whatever the other contents of the machine.
pub ex_stage_total :
    (strategy ir : ℕ) (out : CuOutput) (m : Machine)
    → decode strategy ir ≡ ok out
    → m.id_ex.cs_ex ≡ out.cs_ex
    → (m' : Machine) × (ex_stage m ≡ ok m')
unfolding ex_stage
ex_stage_total strategy ir out m h e =
    returns_lem (ex_stage m)
      (ground (arith, operate_total out (decode-IsControl strategy ir out h) m e))
