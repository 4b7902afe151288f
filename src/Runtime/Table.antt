-- ===== src/Runtime/Table.antt =====
-- The table of essentials/stdlib/__mulsi3.c.
use native.Mathlib.Nat.{zero-add}
use risc_v_microarchitecture.Base.{
  get_elem?, ℕ, zero, suc, ◌+◌, ◌*◌, ◌/◌, ◌<◌, ◌≡◌, refl, subst, arith, Bool, true, ◌&&◌, ◌==◌,
  List, [], ◌∷◌, some,
}

unfoldable pub qsq : List ℕ
qsq =
    0 ∷ 0 ∷ 1 ∷ 2 ∷ 4 ∷ 6 ∷ 9 ∷ 12 ∷ 16 ∷ 20 ∷ 25 ∷ 30 ∷ 36 ∷ 42 ∷ 49 ∷ 56 ∷ 64 ∷ 72 ∷ 81 ∷ 90 ∷ 100
    ∷ 110 ∷ 121 ∷ 132 ∷ 144 ∷ 156 ∷ 169 ∷ 182 ∷ 196 ∷ 210 ∷ 225 ∷ 240 ∷ 256 ∷ 272 ∷ 289 ∷ 306 ∷ 324
    ∷ 342 ∷ 361 ∷ 380 ∷ 400 ∷ 420 ∷ 441 ∷ 462 ∷ 484 ∷ 506 ∷ 529 ∷ 552 ∷ 576 ∷ 600 ∷ 625 ∷ 650 ∷ 676
    ∷ 702 ∷ 729 ∷ 756 ∷ 784 ∷ 812 ∷ 841 ∷ 870 ∷ 900 ∷ 930 ∷ 961 ∷ 992 ∷ 1024 ∷ 1056 ∷ 1089 ∷ 1122
    ∷ 1156 ∷ 1190 ∷ 1225 ∷ 1260 ∷ 1296 ∷ 1332 ∷ 1369 ∷ 1406 ∷ 1444 ∷ 1482 ∷ 1521 ∷ 1560 ∷ 1600
    ∷ 1640 ∷ 1681 ∷ 1722 ∷ 1764 ∷ 1806 ∷ 1849 ∷ 1892 ∷ 1936 ∷ 1980 ∷ 2025 ∷ 2070 ∷ 2116 ∷ 2162
    ∷ 2209 ∷ 2256 ∷ 2304 ∷ 2352 ∷ 2401 ∷ 2450 ∷ 2500 ∷ 2550 ∷ 2601 ∷ 2652 ∷ 2704 ∷ 2756 ∷ 2809
    ∷ 2862 ∷ 2916 ∷ 2970 ∷ 3025 ∷ 3080 ∷ 3136 ∷ 3192 ∷ 3249 ∷ 3306 ∷ 3364 ∷ 3422 ∷ 3481 ∷ 3540
    ∷ 3600 ∷ 3660 ∷ 3721 ∷ 3782 ∷ 3844 ∷ 3906 ∷ 3969 ∷ 4032 ∷ 4096 ∷ 4160 ∷ 4225 ∷ 4290 ∷ 4356
    ∷ 4422 ∷ 4489 ∷ 4556 ∷ 4624 ∷ 4692 ∷ 4761 ∷ 4830 ∷ 4900 ∷ 4970 ∷ 5041 ∷ 5112 ∷ 5184 ∷ 5256
    ∷ 5329 ∷ 5402 ∷ 5476 ∷ 5550 ∷ 5625 ∷ 5700 ∷ 5776 ∷ 5852 ∷ 5929 ∷ 6006 ∷ 6084 ∷ 6162 ∷ 6241
    ∷ 6320 ∷ 6400 ∷ 6480 ∷ 6561 ∷ 6642 ∷ 6724 ∷ 6806 ∷ 6889 ∷ 6972 ∷ 7056 ∷ 7140 ∷ 7225 ∷ 7310
    ∷ 7396 ∷ 7482 ∷ 7569 ∷ 7656 ∷ 7744 ∷ 7832 ∷ 7921 ∷ 8010 ∷ 8100 ∷ 8190 ∷ 8281 ∷ 8372 ∷ 8464
    ∷ 8556 ∷ 8649 ∷ 8742 ∷ 8836 ∷ 8930 ∷ 9025 ∷ 9120 ∷ 9216 ∷ 9312 ∷ 9409 ∷ 9506 ∷ 9604 ∷ 9702
    ∷ 9801 ∷ 9900 ∷ 10000 ∷ 10100 ∷ 10201 ∷ 10302 ∷ 10404 ∷ 10506 ∷ 10609 ∷ 10712 ∷ 10816 ∷ 10920
    ∷ 11025 ∷ 11130 ∷ 11236 ∷ 11342 ∷ 11449 ∷ 11556 ∷ 11664 ∷ 11772 ∷ 11881 ∷ 11990 ∷ 12100 ∷ 12210
    ∷ 12321 ∷ 12432 ∷ 12544 ∷ 12656 ∷ 12769 ∷ 12882 ∷ 12996 ∷ 13110 ∷ 13225 ∷ 13340 ∷ 13456 ∷ 13572
    ∷ 13689 ∷ 13806 ∷ 13924 ∷ 14042 ∷ 14161 ∷ 14280 ∷ 14400 ∷ 14520 ∷ 14641 ∷ 14762 ∷ 14884 ∷ 15006
    ∷ 15129 ∷ 15252 ∷ 15376 ∷ 15500 ∷ 15625 ∷ 15750 ∷ 15876 ∷ 16002 ∷ 16129 ∷ 16256 ∷ 16384 ∷ 16512
    ∷ 16641 ∷ 16770 ∷ 16900 ∷ 17030 ∷ 17161 ∷ 17292 ∷ 17424 ∷ 17556 ∷ 17689 ∷ 17822 ∷ 17956 ∷ 18090
    ∷ 18225 ∷ 18360 ∷ 18496 ∷ 18632 ∷ 18769 ∷ 18906 ∷ 19044 ∷ 19182 ∷ 19321 ∷ 19460 ∷ 19600 ∷ 19740
    ∷ 19881 ∷ 20022 ∷ 20164 ∷ 20306 ∷ 20449 ∷ 20592 ∷ 20736 ∷ 20880 ∷ 21025 ∷ 21170 ∷ 21316 ∷ 21462
    ∷ 21609 ∷ 21756 ∷ 21904 ∷ 22052 ∷ 22201 ∷ 22350 ∷ 22500 ∷ 22650 ∷ 22801 ∷ 22952 ∷ 23104 ∷ 23256
    ∷ 23409 ∷ 23562 ∷ 23716 ∷ 23870 ∷ 24025 ∷ 24180 ∷ 24336 ∷ 24492 ∷ 24649 ∷ 24806 ∷ 24964 ∷ 25122
    ∷ 25281 ∷ 25440 ∷ 25600 ∷ 25760 ∷ 25921 ∷ 26082 ∷ 26244 ∷ 26406 ∷ 26569 ∷ 26732 ∷ 26896 ∷ 27060
    ∷ 27225 ∷ 27390 ∷ 27556 ∷ 27722 ∷ 27889 ∷ 28056 ∷ 28224 ∷ 28392 ∷ 28561 ∷ 28730 ∷ 28900 ∷ 29070
    ∷ 29241 ∷ 29412 ∷ 29584 ∷ 29756 ∷ 29929 ∷ 30102 ∷ 30276 ∷ 30450 ∷ 30625 ∷ 30800 ∷ 30976 ∷ 31152
    ∷ 31329 ∷ 31506 ∷ 31684 ∷ 31862 ∷ 32041 ∷ 32220 ∷ 32400 ∷ 32580 ∷ 32761 ∷ 32942 ∷ 33124 ∷ 33306
    ∷ 33489 ∷ 33672 ∷ 33856 ∷ 34040 ∷ 34225 ∷ 34410 ∷ 34596 ∷ 34782 ∷ 34969 ∷ 35156 ∷ 35344 ∷ 35532
    ∷ 35721 ∷ 35910 ∷ 36100 ∷ 36290 ∷ 36481 ∷ 36672 ∷ 36864 ∷ 37056 ∷ 37249 ∷ 37442 ∷ 37636 ∷ 37830
    ∷ 38025 ∷ 38220 ∷ 38416 ∷ 38612 ∷ 38809 ∷ 39006 ∷ 39204 ∷ 39402 ∷ 39601 ∷ 39800 ∷ 40000 ∷ 40200
    ∷ 40401 ∷ 40602 ∷ 40804 ∷ 41006 ∷ 41209 ∷ 41412 ∷ 41616 ∷ 41820 ∷ 42025 ∷ 42230 ∷ 42436 ∷ 42642
    ∷ 42849 ∷ 43056 ∷ 43264 ∷ 43472 ∷ 43681 ∷ 43890 ∷ 44100 ∷ 44310 ∷ 44521 ∷ 44732 ∷ 44944 ∷ 45156
    ∷ 45369 ∷ 45582 ∷ 45796 ∷ 46010 ∷ 46225 ∷ 46440 ∷ 46656 ∷ 46872 ∷ 47089 ∷ 47306 ∷ 47524 ∷ 47742
    ∷ 47961 ∷ 48180 ∷ 48400 ∷ 48620 ∷ 48841 ∷ 49062 ∷ 49284 ∷ 49506 ∷ 49729 ∷ 49952 ∷ 50176 ∷ 50400
    ∷ 50625 ∷ 50850 ∷ 51076 ∷ 51302 ∷ 51529 ∷ 51756 ∷ 51984 ∷ 52212 ∷ 52441 ∷ 52670 ∷ 52900 ∷ 53130
    ∷ 53361 ∷ 53592 ∷ 53824 ∷ 54056 ∷ 54289 ∷ 54522 ∷ 54756 ∷ 54990 ∷ 55225 ∷ 55460 ∷ 55696 ∷ 55932
    ∷ 56169 ∷ 56406 ∷ 56644 ∷ 56882 ∷ 57121 ∷ 57360 ∷ 57600 ∷ 57840 ∷ 58081 ∷ 58322 ∷ 58564 ∷ 58806
    ∷ 59049 ∷ 59292 ∷ 59536 ∷ 59780 ∷ 60025 ∷ 60270 ∷ 60516 ∷ 60762 ∷ 61009 ∷ 61256 ∷ 61504 ∷ 61752
    ∷ 62001 ∷ 62250 ∷ 62500 ∷ 62750 ∷ 63001 ∷ 63252 ∷ 63504 ∷ 63756 ∷ 64009 ∷ 64262 ∷ 64516 ∷ 64770
    ∷ 65025 ∷ []

-- Whether the entries are the quarter squares of `i`, `i + 1` and so on.
quarter_squares : ℕ → List ℕ → Bool
quarter_squares i [] = true
quarter_squares i (x ∷ xs) = x == i * i / 4 && quarter_squares (suc i) xs

length : List ℕ → ℕ
length [] = 0
length (x ∷ xs) = suc (length xs)

get-quarter_squares :
    (xs : List ℕ) (i k : ℕ)
    → quarter_squares i xs ≡ true
    → k < length xs
    → get_elem? xs k ≡ some ((i + k) * (i + k) / 4)
unfolding quarter_squares length
get-quarter_squares [] i k h hk = absurd (omega arith)
get-quarter_squares (x ∷ xs) i zero h hk = ground arith
get-quarter_squares (x ∷ xs) i (suc k) h hk =
    let e : suc i + k ≡ i + suc k = omega arith in
    subst (λ (t : ℕ). get_elem? xs k ≡ some (t * t / 4)) e
      (get-quarter_squares xs (suc i) k (ground arith) (ground arith))

pub get-qsq : (n : ℕ) → n < 511 → get_elem? qsq n ≡ some (n * n / 4)
unfolding qsq quarter_squares length
get-qsq n h =
    subst (λ (t : ℕ). get_elem? qsq n ≡ some (t * t / 4)) (zero-add n)
      (get-quarter_squares qsq 0 n refl h)
