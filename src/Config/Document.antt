-- ===== src/Config/Document.antt =====
-- Documents for src/utils/json_loader.c that supply every value.
use risc_v_microarchitecture.Base.{ℕ, ◌^◌, ◌<◌, ◌≡◌, refl, arith, ℤ, pos, Option, some}
use risc_v_microarchitecture.Assembler.Text.{CString, bytes}
use risc_v_microarchitecture.Config.{
  CacheConfig, Configuration, to_uint32, instruction_count, read_int, read_uint32,
  read_cache_config, read_root, load_config_json,
}

module _ {J : Type 0} (get : J → CString → Option J) (number : J → Option ℤ) where
  -- The object has a member of the name, and it is the number.
  abbrev pub Holds : J → CString → ℤ → Type 0
  Holds json name v = (t : J) × (get json name ≡ some t) × (number t ≡ some v)

  pub record HoldsCache (root : J) (name : CString) (c : CacheConfig) : Type 0 where
    pub json : J
    pub found : get root name ≡ some json
    pub cache_size : Holds json (bytes "cache_size") c.cache_size
    pub block_size : Holds json (bytes "block_size") c.block_size
    pub associativity : Holds json (bytes "associativity") c.associativity
    pub read_latency : Holds json (bytes "read_latency") c.read_latency
    pub write_latency : Holds json (bytes "write_latency") c.write_latency
    pub write_miss_policy : Holds json (bytes "write_miss_policy") c.write_miss_policy
    pub replacement_policy : Holds json (bytes "replacement_policy") c.replacement_policy
    pub write_policy : Holds json (bytes "write_policy") c.write_policy

  read_int-Holds :
      (json : J) (name : CString) (v old : ℤ)
      → Holds json name v
      → read_int get number json name old ≡ v
  unfolding read_int
  read_int-Holds json name v old (t, e, e') = rw (read_int, e, e') refl

  read_cache_config-Holds :
      (root : J) (name : CString) (c old : CacheConfig)
      → HoldsCache root name c
      → record (read_cache_config get number (get root name) old) { level = c.level } ≡ c
  unfolding read_cache_config
  read_cache_config-Holds root name c old h =
      rw
        (
          read_cache_config,
          h.found,
          read_int-Holds h.json (bytes "cache_size") c.cache_size old.cache_size h.cache_size,
          read_int-Holds h.json (bytes "block_size") c.block_size old.block_size h.block_size,
          read_int-Holds h.json (bytes "associativity") c.associativity old.associativity
              h.associativity,
          read_int-Holds h.json (bytes "read_latency") c.read_latency old.read_latency
              h.read_latency,
          read_int-Holds h.json (bytes "write_latency") c.write_latency old.write_latency
              h.write_latency,
          read_int-Holds h.json (bytes "write_miss_policy") c.write_miss_policy
              old.write_miss_policy h.write_miss_policy,
          read_int-Holds h.json (bytes "replacement_policy") c.replacement_policy
              old.replacement_policy h.replacement_policy,
          read_int-Holds h.json (bytes "write_policy") c.write_policy old.write_policy
              h.write_policy,
        )
        refl

  read_uint32-Holds :
      (json : J) (name : CString) (v old : ℕ)
      → Holds json name (pos v)
      → v < 2 ^ 32
      → read_uint32 get number json name old ≡ v
  unfolding read_uint32 to_uint32
  read_uint32-Holds json name v old (t, e, e') h = rw (read_uint32, e, e') (omega arith)

  -- Every value of `c` stands in the document. The levels and the number of instructions do not:
  -- they follow from the rest.
  pub record Supplies (root : J) (c : Configuration) : Type 0 where
    pub cache_levels : Holds root (bytes "CACHE_LEVELS") c.cache_levels
    pub l1_split : Holds root (bytes "L1_SPLIT") c.l1_split
    pub dram_read_latency : Holds root (bytes "DRAM_READ_LATENCY") c.dram_read_latency
    pub dram_write_latency : Holds root (bytes "DRAM_WRITE_LATENCY") c.dram_write_latency
    pub dram_size : Holds root (bytes "DRAM_SIZE") c.dram_size
    pub forwarding_switch : Holds root (bytes "FORWARDING_SWITCH") c.forwarding_switch
    pub strategy : Holds root (bytes "BRANCH_PREDICTION_STRATEGY") c.branch_prediction_strategy
    pub text : Holds root (bytes "text_segment_limit") (pos c.text_segment_limit)
    pub rodata : Holds root (bytes "rodata_segment_limit") (pos c.rodata_segment_limit)
    pub l1_d : HoldsCache root (bytes "l1_d") c.l1_d
    pub l1_i : HoldsCache root (bytes "l1_i") c.l1_i
    pub l2 : HoldsCache root (bytes "l2") c.l2
    pub l3 : HoldsCache root (bytes "l3") c.l3
    pub levels :
        (c.l1_d.level ≡ pos 1)
        × (c.l1_i.level ≡ pos 1)
        × (c.l2.level ≡ pos 2)
        × (c.l3.level ≡ pos 3)
    pub limits : (c.text_segment_limit < 2 ^ 32) × (c.rodata_segment_limit < 2 ^ 32)
    pub count : instruction_count c.text_segment_limit ≡ c.total_number_of_instructions

  read_level-Holds :
      (root : J) (name : CString) (c old : CacheConfig) (n : ℤ)
      → HoldsCache root name c
      → c.level ≡ n
      → record (read_cache_config get number (get root name) old) { level = n } ≡ c
  read_level-Holds root name c old n h e = rw (← e) (read_cache_config-Holds root name c old h)

  -- A document that supplies every value is read as the configuration it describes, whatever the
  -- values were before.
  pub load_config_json-Supplies :
      (parse : CString → Option J) (buffer : CString) (root : J) (c old : Configuration)
      → parse buffer ≡ some root
      → Supplies root c
      → load_config_json get number parse (some buffer) old ≡ c
  unfolding load_config_json read_root
  load_config_json-Supplies parse buffer root c old e s =
      rw
        (
          load_config_json,
          e,
          read_root,
          read_int-Holds root (bytes "CACHE_LEVELS") c.cache_levels old.cache_levels s.cache_levels,
          read_int-Holds root (bytes "L1_SPLIT") c.l1_split old.l1_split s.l1_split,
          read_int-Holds root (bytes "DRAM_READ_LATENCY") c.dram_read_latency old.dram_read_latency
              s.dram_read_latency,
          read_int-Holds root (bytes "DRAM_WRITE_LATENCY") c.dram_write_latency
              old.dram_write_latency s.dram_write_latency,
          read_int-Holds root (bytes "DRAM_SIZE") c.dram_size old.dram_size s.dram_size,
          read_int-Holds root (bytes "FORWARDING_SWITCH") c.forwarding_switch old.forwarding_switch
              s.forwarding_switch,
          read_int-Holds root (bytes "BRANCH_PREDICTION_STRATEGY") c.branch_prediction_strategy
              old.branch_prediction_strategy s.strategy,
          read_uint32-Holds root (bytes "text_segment_limit") c.text_segment_limit
              old.text_segment_limit s.text s.limits.0,
          read_uint32-Holds root (bytes "rodata_segment_limit") c.rodata_segment_limit
              old.rodata_segment_limit s.rodata s.limits.1,
          read_level-Holds root (bytes "l1_d") c.l1_d old.l1_d (pos 1) s.l1_d s.levels.0,
          read_level-Holds root (bytes "l1_i") c.l1_i old.l1_i (pos 1) s.l1_i s.levels.1,
          read_level-Holds root (bytes "l2") c.l2 old.l2 (pos 2) s.l2 s.levels.2,
          read_level-Holds root (bytes "l3") c.l3 old.l3 (pos 3) s.l3 s.levels.3,
          s.count,
        )
        refl
