-- ===== src/Config/Tests.antt =====
-- The default configuration, and a document that describes it.
use risc_v_microarchitecture.Base.{
  ◌+◌, ◌/◌, ◌<◌, ◌≡◌, refl, arith, ℤ, pos, Option, none, some, if◌then◌else◌,
}
use risc_v_microarchitecture.Assembler.Text.{CString, bytes, same}
use risc_v_microarchitecture.Cache.Block.{set_base}
use risc_v_microarchitecture.Cache.Shape.{IsShaped}
use risc_v_microarchitecture.Cache.Inside.{set_base-inside}
use risc_v_microarchitecture.Cache.Tests.{program}
use risc_v_microarchitecture.Config.{
  CacheConfig, Configuration, default_l1, default_l2, default_l3, defaults, new_cache,
  load_config_json, instruction_count,
}
use risc_v_microarchitecture.Config.Document.{Supplies, HoldsCache, load_config_json-Supplies}

-- A document of the JSON library, as far as the program looks into it.
pub data Json : Type 0 where
  number : ℤ → Json
  empty : Json
  field : CString → Json → Json → Json

abbrev pub get : Json → CString → Option Json
get (number n) name = none
get empty name = none
get (field key v members) name =
    let rest = get members name in if same key name then some v else rest

abbrev pub value : Json → Option ℤ
value (number n) = some n
value empty = none
value (field key v members) = none

abbrev cache_document : CacheConfig → Json
cache_document c = field (bytes "cache_size") (number c.cache_size) (
    field (bytes "block_size") (number c.block_size) (
      field (bytes "associativity") (number c.associativity) (
        field (bytes "read_latency") (number c.read_latency) (
          field (bytes "write_latency") (number c.write_latency) (
            field (bytes "write_miss_policy") (number c.write_miss_policy) (
              field (bytes "replacement_policy") (number c.replacement_policy)
                (field (bytes "write_policy") (number c.write_policy) empty)))))))

abbrev document : Configuration → Json
document c = field (bytes "CACHE_LEVELS") (number c.cache_levels) (
    field (bytes "L1_SPLIT") (number c.l1_split) (
      field (bytes "DRAM_READ_LATENCY") (number c.dram_read_latency) (
        field (bytes "DRAM_WRITE_LATENCY") (number c.dram_write_latency) (
          field (bytes "DRAM_SIZE") (number c.dram_size) (
            field (bytes "FORWARDING_SWITCH") (number c.forwarding_switch) (
              field (bytes "BRANCH_PREDICTION_STRATEGY") (number c.branch_prediction_strategy) (
                field (bytes "text_segment_limit") (number (pos c.text_segment_limit)) (
                  field (bytes "rodata_segment_limit") (number (pos c.rodata_segment_limit)) (
                    field (bytes "l1_d") (cache_document c.l1_d) (
                      field (bytes "l1_i") (cache_document c.l1_i) (
                        field (bytes "l2") (cache_document c.l2)
                          (field (bytes "l3") (cache_document c.l3) empty))))))))))))

cache_document-HoldsCache :
    (root : Json) (name : CString) (c : CacheConfig)
    → get root name ≡ some (cache_document c)
    → HoldsCache get value root name c
cache_document-HoldsCache root name c e = record {
  json = cache_document c;
  found = e;
  cache_size = (number c.cache_size, refl, refl);
  block_size = (number c.block_size, refl, refl);
  associativity = (number c.associativity, refl, refl);
  read_latency = (number c.read_latency, refl, refl);
  write_latency = (number c.write_latency, refl, refl);
  write_miss_policy = (number c.write_miss_policy, refl, refl);
  replacement_policy = (number c.replacement_policy, refl, refl);
  write_policy = (number c.write_policy, refl, refl);
}

-- One level, with 512 bytes for data, before a memory of 4096.
abbrev tiny : Configuration
tiny = record defaults {
  cache_levels = pos 1;
  l1_d = record default_l1 { cache_size = pos 512; associativity = pos 4 };
  dram_size = pos 4096;
  dram_read_latency = pos 7;
  text_segment_limit = 1023;
  rodata_segment_limit = 2047;
  total_number_of_instructions = 256;
}

tiny-Supplies : Supplies get value (document tiny) tiny
unfolding instruction_count
tiny-Supplies = record {
  cache_levels = (number (pos 1), refl, refl);
  l1_split = (number (pos 1), refl, refl);
  dram_read_latency = (number (pos 7), refl, refl);
  dram_write_latency = (number (pos 200), refl, refl);
  dram_size = (number (pos 4096), refl, refl);
  forwarding_switch = (number (pos 1), refl, refl);
  strategy = (number (pos 0), refl, refl);
  text = (number (pos 1023), refl, refl);
  rodata = (number (pos 2047), refl, refl);
  l1_d = cache_document-HoldsCache (document tiny) (bytes "l1_d") tiny.l1_d refl;
  l1_i = cache_document-HoldsCache (document tiny) (bytes "l1_i") default_l1 refl;
  l2 = cache_document-HoldsCache (document tiny) (bytes "l2") default_l2 refl;
  l3 = cache_document-HoldsCache (document tiny) (bytes "l3") default_l3 refl;
  levels = (refl, refl, refl, refl);
  limits = (omega arith, omega arith);
  count = refl;
}

load_config_json-Supplies_example :
    load_config_json get value (λ buffer. some (document tiny)) (some (bytes "{}")) defaults ≡ tiny
load_config_json-Supplies_example =
    load_config_json-Supplies get value (λ buffer. some (document tiny)) (bytes "{}")
      (document tiny) tiny defaults refl tiny-Supplies

l3-IsShaped : IsShaped (new_cache default_l3)
unfolding program new_cache
l3-IsShaped = record { word = omega arith; ways = omega arith; tag = omega arith }

set_base-inside_example :
    set_base (new_cache default_l3) 0x123456 + 127 < (new_cache default_l3).cache_size / 4
unfolding program new_cache
set_base-inside_example =
    set_base-inside (new_cache default_l3) l3-IsShaped (omega arith) 0x123456 127 refl (omega arith)
