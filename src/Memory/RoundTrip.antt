-- ===== src/Memory/RoundTrip.antt =====
-- The stores and loads of src/memory/memory.c.
use risc_v_microarchitecture.Base.{
  ℕ, ◌+◌, ◌*◌, ◌-◌, ◌/◌, ◌%◌, ◌^◌, ◌<◌, ◌≡◌, arith, ltb, leb, ◌&&◌, if◌then◌else◌, ok, ◌<<<◌, ◌>>>◌,
  bit_and, bit_or,
}
use risc_v_microarchitecture.Bits.{and_field, or_fields}
use risc_v_microarchitecture.Memory.{store_value, load_value, update}

-- The bytes that the source takes from a word.
byte_of_word :
    (w : ℕ)
    → (bit_and w 0x000000FF ≡ w % 2 ^ 8)
      × (bit_and w 0x0000FF00 >>> 8 ≡ w / 2 ^ 8 % 2 ^ 8)
      × (bit_and w 0x00FF0000 >>> 16 ≡ w / 2 ^ 16 % 2 ^ 8)
      × (bit_and w 0xFF000000 >>> 24 ≡ w / 2 ^ 24 % 2 ^ 8)
byte_of_word w = (
  ground (arith, and_field 0 8 w (omega arith) (omega arith)),
  ground (arith, and_field 8 8 w (omega arith) (omega arith)),
  ground (arith, and_field 16 8 w (omega arith) (omega arith)),
  ground (arith, and_field 24 8 w (omega arith) (omega arith)),
)

-- Four bytes put together by `|`.
join_bytes :
    (b0 b1 b2 b3 : ℕ)
    → b0 < 2 ^ 8
    → b1 < 2 ^ 8
    → b2 < 2 ^ 8
    → b3 < 2 ^ 8
    → (bit_or b0 (b1 <<< 8) ≡ b0 + b1 * 2 ^ 8)
      × (bit_or (bit_or (bit_or b0 (b1 <<< 8)) (b2 <<< 16)) (b3 <<< 24)
          ≡ b0 + b1 * 2 ^ 8 + b2 * 2 ^ 16 + b3 * 2 ^ 24)
join_bytes b0 b1 b2 b3 h0 h1 h2 h3 =
    let e₁ = or_fields 8 b1 b0 h0 in
    let e₂ = or_fields 16 b2 (b0 + b1 * 2 ^ 8) (omega arith) in
    let e₃ = or_fields 24 b3 (b0 + b1 * 2 ^ 8 + b2 * 2 ^ 16) (omega arith) in
    (ground (arith, e₁), ground (arith, e₁, e₂, e₃))

module _ (dram : ℕ → ℕ) (mar mbr : ℕ) where
  abbrev after_byte : ℕ → ℕ
  after_byte = update dram mar (bit_and mbr 0x000000FF)

  abbrev after_half : ℕ → ℕ
  after_half = update after_byte (mar + 1) (bit_and mbr 0x0000FF00 >>> 8)

  abbrev after_word : ℕ → ℕ
  after_word =
      update (update after_half (mar + 2) (bit_and mbr 0x00FF0000 >>> 16)) (mar + 3)
        (bit_and mbr 0xFF000000 >>> 24)

  word_bytes :
      (after_word mar ≡ mbr % 2 ^ 8)
      × (after_word (mar + 1) ≡ mbr / 2 ^ 8 % 2 ^ 8)
      × (after_word (mar + 2) ≡ mbr / 2 ^ 16 % 2 ^ 8)
      × (after_word (mar + 3) ≡ mbr / 2 ^ 24 % 2 ^ 8)
  word_bytes = ground (arith, byte_of_word mbr)

  half_bytes : (after_half mar ≡ mbr % 2 ^ 8) × (after_half (mar + 1) ≡ mbr / 2 ^ 8 % 2 ^ 8)
  half_bytes = ground (arith, byte_of_word mbr)

  -- A 32-bit word stored at an aligned address in bounds is loaded back whole, and no byte outside
  -- the four changes.
  pub store-load_word :
      (size : ℕ)
      → mbr < 2 ^ 32
      → mar % 4 ≡ 0
      → mar + 3 < size
      → (d : ℕ → ℕ) × (store_value 2 size dram mar mbr ≡ ok d)
        × (load_value 2 d mar ≡ ok mbr)
        × ((k : ℕ) → d k ≡ (if leb mar k && leb k (mar + 3) then d k else dram k))
  unfolding store_value load_value
  store-load_word size small aligned fits = (
    after_word,
    ground arith,
    ground (
      arith,
      word_bytes,
      join_bytes (mbr % 2 ^ 8) (mbr / 2 ^ 8 % 2 ^ 8) (mbr / 2 ^ 16 % 2 ^ 8) (mbr / 2 ^ 24 % 2 ^ 8)
          (omega arith) (omega arith) (omega arith) (omega arith),
    ),
    λ k. ground arith,
  )

  -- The low half of a 32-bit word, stored at an aligned address in bounds, comes back zero-extended
  -- from `lhu` and sign-extended from `lh`, and no other byte changes.
  pub store-load_half :
      (size : ℕ)
      → mbr < 2 ^ 32
      → mar % 2 ≡ 0
      → mar + 1 < size
      → (d : ℕ → ℕ) × (store_value 1 size dram mar mbr ≡ ok d)
        × (load_value 4 d mar ≡ ok (mbr % 2 ^ 16))
        × (load_value 1 d mar
            ≡ ok (
                if ltb (mbr % 2 ^ 16) (2 ^ 15)
                then mbr % 2 ^ 16
                else mbr % 2 ^ 16 + (2 ^ 32 - 2 ^ 16)))
        × ((k : ℕ) → d k ≡ (if leb mar k && leb k (mar + 1) then d k else dram k))
  unfolding store_value load_value
  store-load_half size small aligned fits =
      let joined =
        join_bytes (mbr % 2 ^ 8) (mbr / 2 ^ 8 % 2 ^ 8) 0 0 (omega arith) (omega arith) (omega arith)
          (omega arith) in
      (
        after_half,
        ground arith,
        ground (arith, half_bytes, joined),
        ground (arith, half_bytes, joined),
        λ k. ground arith,
      )

  -- A byte of a 32-bit word, stored, comes back zero-extended from `lbu` and sign-extended from `lb`,
  -- and no other byte changes.
  pub store-load_byte :
      (size : ℕ)
      → mbr < 2 ^ 32
      → (d : ℕ → ℕ) × (store_value 0 size dram mar mbr ≡ ok d)
        × (load_value 3 d mar ≡ ok (mbr % 2 ^ 8))
        × (load_value 0 d mar
            ≡ ok
                (if ltb (mbr % 2 ^ 8) (2 ^ 7) then mbr % 2 ^ 8 else mbr % 2 ^ 8 + (2 ^ 32 - 2 ^ 8)))
        × ((k : ℕ) → d k ≡ (if leb mar k && leb k (mar) then d k else dram k))
  unfolding store_value load_value
  store-load_byte size small = (
    after_byte,
    ground arith,
    ground (arith, byte_of_word mbr),
    ground (arith, byte_of_word mbr),
    λ k. ground arith,
  )
