-- ===== src/Programs/QuickSort/Rearranged.antt =====
-- What a call of `quick_sort` in programs/c/quick_sort.c may do to the array.
use risc_v_microarchitecture.Base.{
  ℕ, ◌≤◌, ◌<◌, ◌≡◌, refl, ◌∙◌, arith, inl, inr, ◌==◌, Bool-cases, le_or_lt,
}
use risc_v_microarchitecture.Programs.Array.{occurrences, occurrences-swap, swap}

-- Only the places from `lo` up to `end` change, their entries come from those places, and among
-- the `n` entries of the array every value stays as often as it was.
pub record Rearranged (n lo end : ℕ) (a b : ℕ → ℕ) : Type 0 where
  pub before : (k : ℕ) → k < lo → b k ≡ a k
  pub behind : (k : ℕ) → end ≤ k → b k ≡ a k
  pub inside : (k : ℕ) → lo ≤ k → k < end → (m : ℕ) × (lo ≤ m) × (m < end) × (b k ≡ a m)
  pub kept : (v : ℕ) → occurrences v b 0 n ≡ occurrences v a 0 n

module _ (n : ℕ) where
  pub Rearranged-refl : (lo end : ℕ) (a : ℕ → ℕ) → Rearranged n lo end a a
  Rearranged-refl lo end a = record {
    before = λ k h. refl;
    behind = λ k h. refl;
    inside = λ k l h. (k, l, h, refl);
    kept = λ v. refl;
  }

  pub Rearranged-trans :
      (lo end : ℕ) (a b c : ℕ → ℕ)
      → Rearranged n lo end a b
      → Rearranged n lo end b c
      → Rearranged n lo end a c
  Rearranged-trans lo end a b c r s = record {
    before = λ k h. s.before k h ∙ r.before k h;
    behind = λ k h. s.behind k h ∙ r.behind k h;
    inside = λ k l h.
        let (m, lm, hm, em) = s.inside k l h in
        let (m', lm', hm', em') = r.inside m lm hm in (m', lm', hm', em ∙ em');
    kept = λ v. s.kept v ∙ r.kept v;
  }

  -- A change in some of the places is one in more of them.
  pub Rearranged-widen :
      (lo end lo' end' : ℕ) (a b : ℕ → ℕ)
      → lo ≤ lo'
      → end' ≤ end
      → Rearranged n lo' end' a b
      → Rearranged n lo end a b
  Rearranged-widen lo end lo' end' a b h h' r = record {
    before = λ k p. r.before k (omega arith);
    behind = λ k p. r.behind k (omega arith);
    inside = λ k l p. elim (le_or_lt lo' k) [
      | inr q ↦ (k, l, p, r.before k q)
      | inl q ↦ elim (le_or_lt end' k) [
        | inl q' ↦ (k, l, p, r.behind k q')
        | inr q' ↦ let (m, lm, hm, e) = r.inside k q q' in (m, omega arith, omega arith, e)
      ]
    ];
    kept = r.kept;
  }

  pub Rearranged-swap :
      (lo end i j : ℕ) (a : ℕ → ℕ)
      → end ≤ n
      → lo ≤ i
      → i < end
      → lo ≤ j
      → j < end
      → Rearranged n lo end a (swap a i j)
  Rearranged-swap lo end i j a h li hi lj hj = record {
    before = λ k p. ground arith;
    behind = λ k p. ground arith;
    inside = λ k l p. elim (Bool-cases (k == j)) [
      | inl t ↦ (i, li, hi, ground arith)
      | inr t ↦ elim (Bool-cases (k == i)) [
        | inl t' ↦ (j, lj, hj, ground arith)
        | inr t' ↦ (k, l, p, ground arith)
      ]
    ];
    kept = λ v. occurrences-swap v a n i j (omega arith) (omega arith);
  }
