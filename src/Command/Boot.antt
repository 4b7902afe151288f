-- ===== src/Command/Boot.antt =====
-- `main` of src/main.c behind the command line: the globals as they are initialised, the
-- configuration, the loaders, and the simulation.
use risc_v_microarchitecture.Base.{
  ℕ, ltb, ◌||◌, if◌then◌else◌, ℤ, negsuc, Bool, true, false, List, [], Option, none, some, Run, ok,
  exit, fault, ◌>>=◌,
}
use risc_v_microarchitecture.Assembler.Text.{CString, is_empty, length}
use risc_v_microarchitecture.Cache.State.{Stats}
use risc_v_microarchitecture.Memory.{Memory}
use risc_v_microarchitecture.Pipeline.State.{
  null, text, CpuStats, Machine, empty_if_id, empty_id_ex, empty_ex_ma, empty_ma_wb,
}
use risc_v_microarchitecture.Loader.Custom.{custom_loader}
use risc_v_microarchitecture.Loader.Elf.{File, Loaded, elf_loader}
use risc_v_microarchitecture.Config.{System, configure, natural_part, is_regular, to_uint32}
use risc_v_microarchitecture.Simulator.{State, simulate}
use risc_v_microarchitecture.Command.{Options, no_options, read_options}

-- The counters of src/stats/stats.c.
abbrev initial_stats : Stats
initial_stats = record {
  l1_d_hit_r = 0;
  l1_d_hit_w = 0;
  l1_d_miss_r = 0;
  l1_d_miss_w = 0;
  l1_d_writebacks = 0;
  l1_i_hit_r = 0;
  l1_i_miss_r = 0;
  l1_i_writebacks = 0;
  l2_hit_r = 0;
  l2_hit_w = 0;
  l2_miss_r = 0;
  l2_miss_w = 0;
  l2_writebacks = 0;
  l3_hit_r = 0;
  l3_hit_w = 0;
  l3_miss_r = 0;
  l3_miss_w = 0;
  l3_writebacks = 0;
}

abbrev initial_counts : CpuStats
initial_counts = record {
  branches_taken = 0;
  branches_not_taken = 0;
  branch_miss = 0;
  branch_hit = 0;
  n_branch_instructions = 0;
  id_flushes = 0;
  ex_flushes = 0;
  n_forwards_to_ex = 0;
  n_forwards_to_ma = 0;
  n_instructions = 0;
}

-- The memory of src/memory/memory.c with what is configured and loaded. `DRAM_SIZE` is compared
-- with addresses, as a uint32_t.
unfoldable pub initial_memory : System → (ℕ → ℕ) → Memory
initial_memory system dram = record {
  caches = record {
    cache_levels = system.config.cache_levels;
    l1_i = system.l1_i;
    l1_d = system.l1_d;
    l2 = system.l2;
    l3 = system.l3;
    dram_read_latency = natural_part system.config.dram_read_latency;
    dram_write_latency = natural_part system.config.dram_write_latency;
    cycle = 0;
    stats = initial_stats;
  };
  dram = dram;
  dram_size = to_uint32 system.config.dram_size;
  text_segment_limit = system.config.text_segment_limit;
  rodata_segment_limit = system.config.rodata_segment_limit;
  mfc_i = true;
  mar_i = 0;
  mbr_i = 0;
  mfc = true;
  mar = 0;
  mbr = 0;
  counter_i = negsuc 0;
  counter_r = negsuc 0;
  counter_w = negsuc 0;
  structural_hazard_stall = false;
  n_reads = 0;
  n_writes = 0;
  n_instruction_reads = 0;
  n_read_i_stalls = 0;
  n_read_d_stalls = 0;
  n_write_d_stalls = 0;
  n_structural_hazards = 0;
}

-- The globals of include/component_declaration.h; `ins` holds the texts that are loaded. The switch
-- of the forwarding and the strategy are only compared with constants that are not negative.
unfoldable pub initial_machine : System → Loaded → Machine
initial_machine system loaded = record {
  memory = initial_memory system loaded.dram;
  instructions = λ k. if ltb k (length loaded.instructions) then text k else null;
  reg_file = λ k. 0;
  pc = 0;
  ir = 0;
  if_id = empty_if_id;
  id_ex = empty_id_ex;
  ex_ma = empty_ex_ma;
  ma_wb = empty_ma_wb;
  wb_if = empty_ma_wb;
  recent_wb = empty_ma_wb;
  pause = false;
  trap = false;
  forwarding_stall = false;
  data_hazard_stall = false;
  flush = false;
  forwarding_switch = to_uint32 system.config.forwarding_switch;
  branch_prediction_strategy = to_uint32 system.config.branch_prediction_strategy;
  change_pc = false;
  jump_pc = 0;
  stats = initial_counts;
}

-- What the program asks of its surroundings: the JSON library, memory, and the files by name.
pub record Host (J : Type 0) : Type 0 where
  pub get : J → CString → Option J
  pub number : J → Option ℤ
  pub parse : CString → Option J
  pub calloc : ℕ → ℕ → ℕ → Bool
  pub malloc : ℕ → Bool
  pub fseek : ℕ → Bool
  pub text_file : CString → Option CString
  pub line_file : CString → Option (List CString)
  pub binary_file : CString → Option File

module _ {J : Type 0} (host : Host J) where
  -- The texts go to the array that `configure` allocates without a test.
  unfoldable pub keep_texts : System → Loaded → Run Loaded
  keep_texts system loaded =
      if system.has_instructions || is_empty loaded.instructions then ok loaded else fault

  unfoldable pub load_custom : System → Option (List CString) → Run Loaded
  load_custom system none = exit
  load_custom system (some lines) =
      custom_loader system.config.text_segment_limit system.config.total_number_of_instructions
        lines (record { dram = system.dram; addr = 0; instr_index = 0; instructions = [] })
      >>= λ (image, entry).
          ok (record { dram = image.dram; instructions = image.instructions; entry_point = entry })

  -- -e goes before -a.
  unfoldable pub load : Options → System → Run Loaded
  load o system = elim o.elf_object [
    | some name ↦
        elf_loader host.fseek host.malloc (host.binary_file name)
          (to_uint32 system.config.dram_size) system.config.total_number_of_instructions system.dram
        >>= keep_texts system
    | none ↦ elim o.custom_object [
      | some name ↦ load_custom system (host.line_file name) >>= keep_texts system
      | none ↦ exit
    ]
  ]

  -- The text of the configuration file, if one is named and can be read.
  unfoldable pub config_text : Options → Option CString
  config_text o = elim o.config [ none ↦ none | some name ↦ host.text_file name ]

  -- The state after at most `fuel` cycles. The simulation of a configuration that is not
  -- regular is not modelled: `fault`.
  unfoldable pub main : ℕ → List CString → Run State
  main fuel args = read_options args no_options >>= λ o.
      configure host.calloc host.get host.number host.parse (config_text o) >>= λ system.
      load o system >>= λ loaded.
      if is_regular system.config
      then simulate fuel loaded.entry_point (initial_machine system loaded)
      else fault
