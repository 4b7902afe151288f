-- ===== src/Loader/Elf/Segments.antt =====
-- The memory that `load_segments` of src/utils/elf_loader.c leaves.
use risc_v_microarchitecture.Base.{
  ℕ, zero, suc, ◌+◌, ◌-◌, ◌^◌, ◌≤◌, ◌<◌, ◌≡◌, refl, subst, arith, min, ◌==◌, ltb, leb, not, ◌||◌,
  ◌&&◌, if◌then◌else◌, Bool, true, false, Bool-cases, inl, inr, ◌⊎◌, add32, sub32, List, [], ◌∷◌,
  get_elem?, some, Run, ok, exit, fault, ◌≢◌, if-split,
}
use risc_v_microarchitecture.Loader.Elf.{
  File, ProgramHeader, load_segment, load_segments, overruns, copy, clear,
}

-- Whether a segment is loaded to the address, and what it puts there.
unfoldable pub covers : ProgramHeader → ℕ → Bool
covers ph a = ph.p_type == 1 && (leb ph.p_vaddr a && ltb a (ph.p_vaddr + ph.p_memsz))

unfoldable pub segment_byte : File → ProgramHeader → ℕ → ℕ
segment_byte fp ph a =
    if ltb a (ph.p_vaddr + ph.p_filesz) then fp.byte (ph.p_offset + (a - ph.p_vaddr)) else 0

unfoldable pub covered : List ProgramHeader → ℕ → Bool
covered [] a = false
covered (ph ∷ phdrs) a = covers ph a || covered phdrs a

module _ (fseek : ℕ → Bool) (malloc : ℕ → Bool) (fp : File) (dram_size : ℕ) where
  -- The file has the bytes of the segment, and the memory room for it.
  pub record IsLoadable (ph : ProgramHeader) : Type 0 where
    pub sizes : ph.p_filesz ≤ ph.p_memsz
    pub room : ph.p_vaddr + ph.p_memsz ≤ dram_size
    pub bytes : ph.p_offset + ph.p_filesz ≤ fp.size
    pub seek : fseek ph.p_offset ≡ true

  -- Loadable segments that do not overlap.
  abbrev pub IsLayout : List ProgramHeader → Type 0
  IsLayout [] = Unit
  IsLayout (ph ∷ phdrs) =
      (ph.p_type ≡ 1 → IsLoadable ph)
      × ((a : ℕ) → covers ph a ≡ true → covered phdrs a ≡ false)
      × IsLayout phdrs

  load_segment_lem :
      (ph : ProgramHeader) (dram : ℕ → ℕ)
      → dram_size < 2 ^ 32
      → (ph.p_type ≡ 1 → IsLoadable ph)
      → (next : ℕ → ℕ) × (load_segment fseek malloc fp dram_size ph dram ≡ ok next)
        × ((a : ℕ) → next a ≡ (if covers ph a then segment_byte fp ph a else dram a))
  unfolding load_segment covers segment_byte
  load_segment_lem ph dram small loads = elim (Bool-cases (ph.p_type == 1)) [
    | inr t ↦ (dram, ground arith, λ a. ground arith)
    | inl t ↦
        let l = loads (ground arith) in
        let count = min ph.p_filesz (fp.size - ph.p_offset) in
        let rest = sub32 ph.p_memsz ph.p_filesz in
        let within : ltb dram_size (add32 ph.p_vaddr ph.p_memsz) ≡ false = ground (arith, l.room) in
        let no_overrun : overruns dram_size ph.p_vaddr count ≡ false =
          ground (arith, l.room, l.sizes) in
        let whole : (count == ph.p_filesz) ≡ true = ground (arith, l.bytes) in
        let no_overrun' : overruns dram_size (ph.p_vaddr + ph.p_filesz) rest ≡ false =
          ground (arith, l.room, l.sizes) in
        (
          clear (ph.p_vaddr + ph.p_filesz) rest (copy fp ph.p_offset ph.p_vaddr ph.p_filesz dram),
          rw (load_segment, t, within, l.seek, no_overrun, whole, no_overrun') refl,
          λ a. ground (arith, l.sizes, l.room),
        )
  ]

  abbrev Ends : Run (ℕ → ℕ) → Type 0
  Ends m = (m ≡ exit) ⊎ ((next : ℕ → ℕ) × (m ≡ ok next))

  load_segment_cases :
      (ph : ProgramHeader) (dram : ℕ → ℕ)
      → ph.p_vaddr + ph.p_memsz < 2 ^ 32
      → ph.p_filesz ≤ ph.p_memsz
      → Ends (load_segment fseek malloc fp dram_size ph dram)
  unfolding load_segment
  load_segment_cases ph dram h l = elim (Bool-cases (ph.p_type == 1)) [
    | inr t ↦ inr (dram, ground arith)
    | inl t ↦ elim (Bool-cases (ltb dram_size (add32 ph.p_vaddr ph.p_memsz))) [
      | inl w ↦ inl (ground arith)
      | inr w ↦
          let count = min ph.p_filesz (fp.size - ph.p_offset) in
          let rest = sub32 ph.p_memsz ph.p_filesz in
          let here : overruns dram_size ph.p_vaddr count ≡ false = ground arith in
          let behind : overruns dram_size (ph.p_vaddr + ph.p_filesz) rest ≡ false = ground arith in
          rw (load_segment, t, w, here, behind)
            (if-split Ends (not (fseek ph.p_offset)) _ _ (inl refl)
              (if-split Ends (not (count == ph.p_filesz)) _ _ (inl refl) (inr (_, refl))))
    ]
  ]

  -- What the list of the segments puts at the addresses they cover.
  Each : List ProgramHeader → (ℕ → ℕ) → Type 0
  Each phdrs next =
      (k a : ℕ) (ph : ProgramHeader)
      → get_elem? phdrs k ≡ some ph
      → covers ph a ≡ true
      → next a ≡ segment_byte fp ph a

  Each-cons :
      (ph : ProgramHeader) (phdrs : List ProgramHeader) (next : ℕ → ℕ)
      → ((a : ℕ) → covers ph a ≡ true → next a ≡ segment_byte fp ph a)
      → Each phdrs next
      → Each (ph ∷ phdrs) next
  unfolding Each
  Each-cons ph phdrs next first rest zero a ph' e p =
      let same : ph ≡ ph' = cc in
      subst (λ (q : ProgramHeader). covers q a ≡ true → next a ≡ segment_byte fp q a) same (first a)
        p
  Each-cons ph phdrs next first rest (suc k) a ph' e p = rest k a ph' e p

  -- Every segment of a layout is loaded: its bytes are those of the file, behind them it is zero,
  -- and the memory outside the segments stays as it was.
  pub load_segments_lem :
      (phdrs : List ProgramHeader) (dram : ℕ → ℕ)
      → dram_size < 2 ^ 32
      → IsLayout phdrs
      → (next : ℕ → ℕ) × (load_segments fseek malloc fp dram_size phdrs dram ≡ ok next)
        × ((a : ℕ) → covered phdrs a ≡ false → next a ≡ dram a)
        × ((k a : ℕ) (ph : ProgramHeader)
            → get_elem? phdrs k ≡ some ph
            → covers ph a ≡ true
            → next a ≡ segment_byte fp ph a)
  unfolding load_segments covered Each
  load_segments_lem [] dram small h = (dram, refl, λ a p. refl, λ k a ph e p. absurd cc)
  load_segments_lem (ph ∷ phdrs) dram small (loads, apart, rest) =
      let (mid, e, loaded) = load_segment_lem ph dram small loads in
      let (next, e', same, inside) = load_segments_lem phdrs mid small rest in
      (
        next,
        rw e e',
        λ a p. ground (arith, same a, loaded a),
        Each-cons ph phdrs next (λ a p. ground (arith, same a, apart a, loaded a)) inside,
      )

  -- Where every segment's sum of address and size is below 2 ^ 32, and no segment is longer in the
  -- file than in memory, no access is outside the array: loading ends well or with an error.
  pub load_segments-defined :
      (phdrs : List ProgramHeader) (dram : ℕ → ℕ)
      → ((k : ℕ) (ph : ProgramHeader)
          → get_elem? phdrs k ≡ some ph
          → (ph.p_vaddr + ph.p_memsz < 2 ^ 32) × (ph.p_filesz ≤ ph.p_memsz))
      → load_segments fseek malloc fp dram_size phdrs dram ≢ fault
  unfolding load_segments
  load_segments-defined [] dram h e = cc
  load_segments-defined (ph ∷ phdrs) dram h e =
      let sizes = h 0 ph refl in
      elim (load_segment_cases ph dram sizes.0 sizes.1) [
        | inl stopped ↦ cc
        | inr (next, loaded) ↦
            load_segments-defined phdrs next (λ k q. h (suc k) q) (rw loaded at e)
      ]
