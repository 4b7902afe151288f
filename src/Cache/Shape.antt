-- ===== src/Cache/Shape.antt =====
-- Arithmetic of set indices and tags, for the geometries that the code can serve.
use native.Mathlib.Nat.{
  pow-suc, one-le-pow, div-eq_of_lt-le, div-mul-le_self, le-div_iff_mul-le, mul-le-mul_right,
  lt-div-mul-add,
}
use risc_v_microarchitecture.Base.{
  ℕ, zero, suc, ◌+◌, ◌*◌, ◌/◌, ◌%◌, ◌^◌, ◌≤◌, ◌<◌, ◌≡◌, arith, ◌>>>◌, ◌<<<◌,
}
use risc_v_microarchitecture.Cache.State.{CacheLevel}
use risc_v_microarchitecture.Cache.Block.{block_offset, index_bits, get_tag}

-- A block has a word at least, and index and offset leave a tag: the shifts of the source are then
-- by less than 32.
pub record IsShaped (s : CacheLevel) : Type 0 where
  pub word : 4 ≤ s.block_size
  pub ways : 1 ≤ s.associativity
  pub tag : index_bits s + block_offset s < 32

pub pow_add : (a b : ℕ) → 2 ^ (a + b) ≡ 2 ^ a * 2 ^ b
pow_add zero b = ground arith
pow_add (suc a) b =
    let e : suc a + b ≡ suc (a + b) = omega arith in
    rw (e, pow-suc 2 (a + b), pow-suc 2 a, pow_add a b) (omega arith)

pub pow-pos : (a : ℕ) → 0 < 2 ^ a
pow-pos a = omega (arith, one-le-pow a 2)

-- Clearing the low digits keeps the quotient by a coarser unit.
floor_floor : (a m n : ℕ) → 0 < m → 0 < n → a / m * m / (n * m) ≡ a / (n * m)
floor_floor a m n hm hn =
    let q : ℕ = a / (n * m) in
    let pos : 0 < n * m = grind arith in
    let under : q * (n * m) ≤ a = div-mul-le_self a (n * m) in
    let low : q * n ≤ a / m = (le-div_iff_mul-le {x = q * n} {y = a} hm).1 (omega arith) in
    let lower : q * n * m ≤ a / m * m = mul-le-mul_right m low in
    let high : a / m * m ≤ a = div-mul-le_self a m in
    let below : a < q * (n * m) + n * m = lt-div-mul-add pos in
    div-eq_of_lt-le {k = q} (n * m) {m = a / m * m} (omega arith) (omega arith)

module _ (s : CacheLevel) (shape : IsShaped s) where
  get_tag_lem : (addr : ℕ) → get_tag addr s ≡ addr / (2 ^ index_bits s * 2 ^ block_offset s)
  unfolding get_tag
  get_tag_lem addr =
      let e : (index_bits s + block_offset s) % 32 ≡ index_bits s + block_offset s =
        omega (arith, shape.tag) in
      rw (e, pow_add (index_bits s) (block_offset s))

  -- The first address of the block of `addr` has its tag.
  pub get_tag-block :
      (addr : ℕ)
      → addr < 2 ^ 32
      → get_tag (addr >>> block_offset s <<< block_offset s) s ≡ get_tag addr s
  get_tag-block addr h =
      let e : block_offset s % 32 ≡ block_offset s = omega (arith, shape.tag) in
      let u = 2 ^ block_offset s in
      let bound : addr / u * u ≤ addr = div-mul-le_self addr u in
      let small : addr / u * u % 2 ^ 32 ≡ addr / u * u = omega arith in
      rw (get_tag_lem addr, get_tag_lem (addr >>> block_offset s <<< block_offset s), e, small)
        (floor_floor addr u (2 ^ index_bits s) (pow-pos _) (pow-pos _))
