-- ===== src/Runtime/Heap.antt =====
-- essentials/malloc.c and memcpy.c. An address is a number below 2 ^ 32. The bounds of the heap are
-- symbols of the linker script; the static `end` is the state.
use risc_v_microarchitecture.Base.{
  ℕ, zero, suc, ◌+◌, ◌-◌, ◌*◌, ◌%◌, ◌/◌, ◌^◌, ◌≤◌, ◌<◌, ◌≡◌, ◌⊎◌, inl, inr, ap, ◌∙◌, arith, ltb,
  leb, ◌&&◌, ◌==◌, if◌then◌else◌, add32, bit_and, List, [], ◌∷◌,
}
use risc_v_microarchitecture.Bits.{and_field}

-- A memory of bytes, as the program sees it.
abbrev pub Bytes : Type 0
Bytes = ℕ → ℕ

abbrev pub put : ℕ → ℕ → Bytes → Bytes
put a v m b = if b == a then v else m b

-- The loop of `memcpy`: one byte, then both pointers and the count move on.
unfoldable pub memcpy : ℕ → ℕ → ℕ → Bytes → Bytes
memcpy d s zero m = m
memcpy d s (suc n) m = memcpy (add32 d 1) (add32 s 1) n (put d (m s) m)

-- The pointer that `malloc` returns, 0 where there is no room, and the new `end`.
pub record Allocated : Type 0 where
  pub ptr : ℕ
  pub end : ℕ

-- `(size + 3) & ~3`
unfoldable pub rounded : ℕ → ℕ
rounded size = bit_and (add32 size 3) 0xFFFFFFFC

unfoldable pub malloc : ℕ → ℕ → ℕ → Allocated
malloc heap_end size end =
    if ltb heap_end (add32 end (rounded size))
    then record { ptr = 0; end = end }
    else record { ptr = end; end = add32 end (rounded size) }

rounded_lem : (size : ℕ) → size + 3 < 2 ^ 32 → rounded size ≡ (size + 3) / 4 * 4
unfolding rounded
rounded_lem size h = ground (arith, and_field 2 30 (size + 3))

malloc_lem :
    (heap_end size end : ℕ)
    → 0 < end
    → end % 4 ≡ 0
    → end ≤ heap_end
    → heap_end + size + 3 < 2 ^ 32
    → (let a = malloc heap_end size end in
        ((a.ptr ≡ 0) × (a.end ≡ end) × (heap_end < end + (size + 3) / 4 * 4))
        ⊎ ((a.ptr ≡ end)
            × (end + size ≤ a.end)
            × (a.end ≤ heap_end)
            × (a.end % 4 ≡ 0)
            × (a.end < end + size + 4)))
unfolding malloc
malloc_lem heap_end size end pos aligned h room = ground (arith, rounded_lem size)

-- A request that wraps round the address space is granted, and moves `end` back.
malloc_wrap :
    (heap_end size end : ℕ)
    → end < 2 ^ 32
    → size % 4 ≡ 0
    → size < 2 ^ 32
    → 2 ^ 32 ≤ end + size
    → end ≤ heap_end
    → malloc heap_end size end ≡ record { ptr = end; end = end + size - 2 ^ 32 }
unfolding malloc
malloc_wrap heap_end size end he aligned hs wraps h = ground (arith, rounded_lem size)

-- Where the destination is not inside the source behind its start, each byte of the destination
-- is the one that stood at its place in the source, and no other byte changes.
pub memcpy_lem :
    (d s n : ℕ) (m : Bytes) (b : ℕ)
    → d + n < 2 ^ 32
    → s + n < 2 ^ 32
    → d ≤ s ⊎ s + n ≤ d
    → memcpy d s n m b ≡ (if leb d b && ltb b (d + n) then m (s + (b - d)) else m b)
unfolding memcpy
memcpy_lem d s zero m b hd hs apart = ground arith
memcpy_lem d s (suc n) m b hd hs apart =
    let e₁ : add32 d 1 ≡ suc d = omega arith in
    let e₂ : add32 s 1 ≡ suc s = omega arith in
    rw (e₁, e₂)
      (memcpy_lem (suc d) (suc s) n (put d (m s) m) b (omega arith) (omega arith) (omega arith)
        ∙ byte_cases)
  where
    byte_cases :
        (if leb (suc d) b && ltb b (suc d + n)
          then put d (m s) m (suc s + (b - suc d))
          else put d (m s) m b)
        ≡ (if leb d b && ltb b (d + suc n) then m (s + (b - d)) else m b)
    byte_cases = ground (arith, shifted, here)
      where
        shifted : d < b → suc s + (b - suc d) ≡ s + (b - d)
        shifted h = omega arith

        here : d ≡ b → m (s + (b - d)) ≡ m s
        here h = ap m (omega arith)

-- Requests in a row: the blocks that are given, with their sizes.
pub record Block : Type 0 where
  pub start : ℕ
  pub size : ℕ

abbrev pub requests : ℕ → List ℕ → ℕ → List Block
requests heap_end [] end = []
requests heap_end (size ∷ sizes) end =
    let a = malloc heap_end size end in
    let later = requests heap_end sizes a.end in
    if a.ptr == 0 then later else record { start = a.ptr; size = size } ∷ later

-- Blocks from `low` on, each aligned and behind the one before it, none beyond `high`.
unfoldable pub Separated : ℕ → ℕ → List Block → Type 0
Separated low high [] = low ≤ high
Separated low high (b ∷ bs) =
    (low ≤ b.start) × (b.start % 4 ≡ 0) × Separated (b.start + b.size) high bs

unfoldable pub Below : ℕ → List ℕ → Type 0
Below limit [] = 0 ≤ limit
Below limit (size ∷ sizes) = (size < limit) × Below limit sizes

Separated-weaken :
    (low low' high : ℕ) (bs : List Block)
    → low' ≤ low
    → Separated low high bs
    → Separated low' high bs
unfolding Separated
Separated-weaken low low' high [] h s = omega arith
Separated-weaken low low' high (b ∷ bs) h (s₁, s₂, s₃) = (omega arith, s₂, s₃)

not_null : (end : ℕ) (xs ys : List Block) → 0 < end → (if end == 0 then xs else ys) ≡ ys
not_null end xs ys h = ground arith

-- As long as no request reaches beyond the address space, the blocks that malloc gives are aligned
-- to words, lie one behind the other from `end` on, and none ends beyond the heap.
pub malloc-Separated :
    (heap_end limit : ℕ) (sizes : List ℕ) (end : ℕ)
    → 0 < end
    → end % 4 ≡ 0
    → end ≤ heap_end
    → heap_end + limit + 3 < 2 ^ 32
    → Below limit sizes
    → Separated end heap_end (requests heap_end sizes end)
unfolding Separated Below
malloc-Separated heap_end limit [] end pos aligned h room below = h
malloc-Separated heap_end limit (size ∷ sizes) end pos aligned h room (b₁, b₂) =
    elim (malloc_lem heap_end size end pos aligned h (omega arith)) [
      | inl (p, e, full) ↦
          rw (p, e) (malloc-Separated heap_end limit sizes end pos aligned h room b₂)
      | inr (p, e₁, e₂, e₃, e₄) ↦
          let later =
            malloc-Separated heap_end limit sizes (malloc heap_end size end).end (omega arith) e₃ e₂
              room b₂ in
          rw (p, not_null end _ _ pos)
            (omega arith, aligned, Separated-weaken _ _ heap_end _ e₁ later)
    ]
