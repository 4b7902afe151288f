-- ===== src/Cache/Inside.antt =====
-- The array of a cache: the functions of src/cache/cache.c and src/cache/setters.c index it by the
-- start of a set and the offset of a word in it.
use native.Mathlib.Nat.{div-lt_iff_lt-mul, div-mul-le_self, mul-le-mul_right}
use risc_v_microarchitecture.Base.{
  ℕ, ◌+◌, ◌-◌, ◌*◌, ◌/◌, ◌%◌, ◌^◌, ◌≤◌, ◌<◌, ◌≡◌, arith, ◌<<<◌, ap, ◌∙◌, sub32,
}
use risc_v_microarchitecture.Cache.State.{CacheLevel}
use risc_v_microarchitecture.Cache.Block.{
  block_offset, n_sets, index_bits, set_index, set_base, block_words, pow-log2, log2-pos,
}
use risc_v_microarchitecture.Cache.Shape.{IsShaped, pow_add, pow-pos}

-- Below `n` sets of `a` blocks of `w` words lie the words of each of them.
sets_inside :
    (x a b w n size k : ℕ)
    → b ≡ w * 4
    → x + 1 ≤ n
    → n * (b * a) ≤ size
    → k < a * w
    → x * a % 2 ^ 32 * b % 2 ^ 32 / 4 + k < size / 4
sets_inside x a b w n size k whole h fits inside =
    let fits' : n * (w * 4 * a) ≤ size = rw (← whole) fits in
    let all_sets = mul-le-mul_right (w * 4 * a) h in
    let e : x * a * (w * 4) ≡ x * a * w * 4 = grind arith in
    let wraps : x * a % 2 ^ 32 * (w * 4) ≤ x * a * (w * 4) =
      mul-le-mul_right (w * 4) (omega arith) in
    let e' : (x + 1) * (w * 4 * a) ≡ x * a * w * 4 + a * w * 4 = grind arith in
    rw whole (omega (arith, wraps, e))

module _ (s : CacheLevel) (shape : IsShaped s) (sets : 1 ≤ index_bits s) where
  set_index-below : (addr : ℕ) → set_index s addr < 2 ^ index_bits s
  unfolding set_index
  set_index-below addr =
      let t = shape.tag in
      let e : sub32 32 (index_bits s) % 32 ≡ 32 - index_bits s = ground arith in
      let split : 2 ^ 32 ≡ 2 ^ index_bits s * 2 ^ (32 - index_bits s) =
        let whole : 32 ≡ index_bits s + (32 - index_bits s) = omega arith in
        ap (λ n. 2 ^ n) whole ∙ pow_add (index_bits s) (32 - index_bits s) in
      let d : ℕ = 2 ^ (32 - index_bits s) in
      let pos_d : 0 < d = pow-pos (32 - index_bits s) in
      let shifted = addr <<< sub32 (sub32 32 (index_bits s)) (block_offset s) in
      let bound : shifted < 2 ^ 32 = omega arith in
      rw e ((div-lt_iff_lt-mul {x = shifted} {y = 2 ^ index_bits s} pos_d).1 (omega arith))

  -- The lines of every set of every address lie inside the array of `cache_size / 4` lines.
  pub set_base-inside :
      (addr k : ℕ)
      → s.block_size % 4 ≡ 0
      → k < s.associativity * block_words s
      → set_base s addr + k < s.cache_size / 4
  unfolding set_base n_sets index_bits
  set_base-inside addr k words h =
      let w = s.block_size / 4 in
      let whole : s.block_size ≡ w * 4 = omega arith in
      let least : 1 ≤ n_sets s = log2-pos (n_sets s) sets in
      let index : set_index s addr + 1 ≤ n_sets s =
        omega (arith, set_index-below addr, pow-log2 (n_sets s) least) in
      let fits = div-mul-le_self s.cache_size (s.block_size * s.associativity) in
      sets_inside (set_index s addr) s.associativity s.block_size w (n_sets s) s.cache_size k whole
        index fits h
