-- ===== src/Simulator/Frame.antt =====
-- What ID and IF leave alone in a cycle of src/execution/simulator.c, and the operands that ID reads.
use risc_v_microarchitecture.Base.{
  ℕ, ◌/◌, ◌≡◌, refl, sym, ap, ◌∙◌, ◌⊎◌, inl, inr, Bool, Bool-cases, ◌==◌, ◌&&◌, add32, true, false,
  if-split, Ensures, Ensures-ok, Ensures-if, Ensures-then, Ensures->>=,
}
use risc_v_microarchitecture.Pipeline.State.{Machine, ExMa, MaWb, empty_if_id}
use risc_v_microarchitecture.Control.Signals.{CuOutput}
use risc_v_microarchitecture.Pipeline.Decode.{
  id_stage, decoded, load_id_ex, predict_jump, set_hazard_stall,
}
use risc_v_microarchitecture.Alu.{generate_immediate, b_type}
use risc_v_microarchitecture.Pipeline.Stages.{if_stage, fetched}
use risc_v_microarchitecture.Simulator.{next_cycle, flush_decode, fetch, front_end}

-- The register file and what stands behind EX.
pub record IsFramed (regs : ℕ → ℕ) (ex_ma : ExMa) (ma_wb : MaWb) (m : Machine) : Type 0 where
  pub same_regs : m.reg_file ≡ regs
  pub same_ex_ma : m.ex_ma ≡ ex_ma
  pub same_ma_wb : m.ma_wb ≡ ma_wb

-- The operands in `id_ex` were read from the register file.
pub record HasOperands (m : Machine) : Type 0 where
  pub first : m.id_ex.r1 ≡ m.reg_file m.id_ex.nrs1
  pub second : m.id_ex.r2 ≡ m.reg_file m.id_ex.nrs2

module _ (regs : ℕ → ℕ) (ex_ma : ExMa) (ma_wb : MaWb) where
  pub record IsKept (m : Machine) : Type 0 where
    pub framed : IsFramed regs ex_ma ma_wb m
    pub operands : HasOperands m

  -- The machine after ID: where a jump has been taken, the operands are still to be cleared.
  record IsDecoded (m : Machine) : Type 0 where
    decode_framed : IsFramed regs ex_ma ma_wb m
    decode_operands : (m.flush ≡ true) ⊎ HasOperands m

  frame :
      (m m' : Machine)
      → IsFramed regs ex_ma ma_wb m
      → m'.reg_file ≡ m.reg_file
      → m'.ex_ma ≡ m.ex_ma
      → m'.ma_wb ≡ m.ma_wb
      → IsFramed regs ex_ma ma_wb m'
  frame m m' f a b c = record {
    same_regs = a ∙ f.same_regs;
    same_ex_ma = b ∙ f.same_ex_ma;
    same_ma_wb = c ∙ f.same_ma_wb;
  }

  load_id_ex-IsDecoded :
      (out : CuOutput) (m : Machine) → IsFramed regs ex_ma ma_wb m → IsDecoded (load_id_ex out m)
  unfolding load_id_ex
  load_id_ex-IsDecoded out m f = record {
    decode_framed = frame m _ f refl refl refl;
    decode_operands = inr (record { first = refl; second = refl });
  }

  again :
      (m m' : Machine)
      → IsDecoded m
      → m'.reg_file ≡ m.reg_file
      → m'.ex_ma ≡ m.ex_ma
      → m'.ma_wb ≡ m.ma_wb
      → m'.flush ≡ m.flush
      → m'.id_ex ≡ m.id_ex
      → IsDecoded m'
  again m m' d a b c e i = record {
    decode_framed = frame m m' d.decode_framed a b c;
    decode_operands = elim d.decode_operands [
      | inl t ↦ inl (e ∙ t)
      | inr h ↦ inr (record { first = rw (i, a) h.first; second = rw (i, a) h.second })
    ];
  }

  predict_jump-IsDecoded :
      (out : CuOutput) (m : Machine) → IsDecoded m → IsDecoded (predict_jump out m)
  unfolding predict_jump
  predict_jump-IsDecoded out m d =
      if-split IsDecoded
        (out.cs_ma.branch_taken == 1 && out.cs_ex.type == 0b11 && out.cs_ma.jump_or_branch == 2)
        (record m {
          change_pc = true;
          jump_pc = add32 m.if_id.pc (generate_immediate b_type m.if_id.ir);
        })
        m (again m _ d refl refl refl refl refl) d

  decoded-IsDecoded :
      (out : CuOutput) (m : Machine) → IsFramed regs ex_ma ma_wb m → IsDecoded (decoded out m)
  unfolding decoded
  decoded-IsDecoded out m f =
      let l = load_id_ex-IsDecoded out m f in
      let m' = load_id_ex out m in
      if-split IsDecoded (m.forwarding_switch == 0 && set_hazard_stall m')
        (record m' { data_hazard_stall = true }) (predict_jump out m')
        (again m' _ l refl refl refl refl refl) (predict_jump-IsDecoded out m' l)

  id_stage-IsDecoded : (m : Machine) → IsFramed regs ex_ma ma_wb m → Ensures IsDecoded (id_stage m)
  unfolding id_stage
  id_stage-IsDecoded m f =
      Ensures-if m.change_pc _ _
        (Ensures-then _ _ λ memory.
          Ensures-ok _ _
            (record { decode_framed = frame m _ f refl refl refl; decode_operands = inl refl }))
        (Ensures-then _ _ λ out. Ensures-ok _ _ (decoded-IsDecoded out m f))

  IsKept-again :
      (m m' : Machine)
      → IsKept m
      → m'.reg_file ≡ m.reg_file
      → m'.ex_ma ≡ m.ex_ma
      → m'.ma_wb ≡ m.ma_wb
      → m'.id_ex ≡ m.id_ex
      → IsKept m'
  IsKept-again m m' k a b c i = record {
    framed = frame m m' k.framed a b c;
    operands = record { first = rw (i, a) k.operands.first; second = rw (i, a) k.operands.second };
  }

  -- Cleared operands are read: register 0 holds 0.
  flush_decode-IsKept : (m : Machine) → regs 0 ≡ 0 → IsDecoded m → Ensures IsKept (flush_decode m)
  unfolding flush_decode
  flush_decode-IsKept m z d =
      let clear : 0 ≡ m.reg_file 0 = sym (ap (λ (r : ℕ → ℕ). r 0) d.decode_framed.same_regs ∙ z) in
      elim (Bool-cases m.flush) [
        | inl t ↦ rw t (
            Ensures-then _ _ λ memory. Ensures-ok _ _ (record {
              framed = frame m _ d.decode_framed refl refl refl;
              operands = record { first = clear; second = clear };
            }))
        | inr t ↦
            let k : IsKept m = record {
              framed = d.decode_framed;
              operands = elim d.decode_operands [ inl u ↦ absurd cc | inr h ↦ h ];
            } in
            rw t (Ensures-ok _ _ (IsKept-again m _ k refl refl refl refl))
      ]

  fetched-IsKept : (m : Machine) → IsKept m → IsKept (fetched m)
  unfolding fetched
  fetched-IsKept m k =
      if-split IsKept m.memory.mfc_i
        (record m {
          ir = m.memory.mbr_i;
          pc = add32 m.pc 4;
          if_id = record {
            ir = m.memory.mbr_i;
            pc = m.pc;
            pc_next = add32 m.pc 4;
            ins = m.instructions (m.pc / 4);
          };
        })
        (record m { if_id = empty_if_id }) (IsKept-again m _ k refl refl refl refl)
        (IsKept-again m _ k refl refl refl refl)

  if_stage-IsKept : (m : Machine) → IsKept m → Ensures IsKept (if_stage m)
  unfolding if_stage
  if_stage-IsKept m k = Ensures-then _ _ λ memory.
      Ensures-ok _ _
        (fetched-IsKept (record m { memory = memory }) (IsKept-again m _ k refl refl refl refl))

  fetch-IsKept : (m : Machine) → IsKept m → Ensures (λ v. IsKept v.1) (fetch m)
  unfolding fetch
  fetch-IsKept m k = Ensures->>= _ (if_stage-IsKept m k) λ m' p. Ensures-ok _ _ (
      if-split (λ (v : Bool × Machine). IsKept v.1) m'.memory.mfc_i (true, next_cycle m')
        (false, next_cycle (record m' { if_id = empty_if_id }))
        (IsKept-again m' _ p refl refl refl refl) (IsKept-again m' _ p refl refl refl refl))

  pub front_end-IsKept :
      (m : Machine)
      → regs 0 ≡ 0
      → IsFramed regs ex_ma ma_wb m
      → Ensures (λ v. IsKept v.1) (front_end m)
  unfolding front_end
  front_end-IsKept m z f = Ensures->>= _ (id_stage-IsDecoded m f) λ m' d.
      let clear : 0 ≡ m'.reg_file 0 = sym (ap (λ (r : ℕ → ℕ). r 0) d.decode_framed.same_regs ∙ z) in
      Ensures-if m'.data_hazard_stall _ _
        (Ensures-ok _ _ (record {
          framed = frame m' _ d.decode_framed refl refl refl;
          operands = record { first = clear; second = clear };
        }))
        (Ensures->>= _ (flush_decode-IsKept m' z d) fetch-IsKept)
