-- ===== src/Sftplibs/Tempfile/Index.antt =====
-- The names that DownloadToTemp of sftplibs/sftplibs.go gives to temporary files.
use ugoku.Base.{
  Bool-cases, ◌==◌, inl, inr, ◌≢◌, ℕ, zero, suc, ◌+◌, ◌-◌, ◌*◌, ◌/◌, ◌%◌, ◌≤◌, ◌<◌, ◌≡◌, refl, ap,
  ◌∙◌, Text, decimal, digits_onto, [], ◌∷◌, ◌++◌, arith,
}
use ugoku.Sftplibs.Tempfile.{init_temp_index, incr_temp_index, temp_filename}

-- The index after n calls of IncrTempIndex.
pub index_after : ℕ → ℕ
index_after zero = init_temp_index
index_after (suc n) = incr_temp_index (index_after n)

-- The index runs through the 80001 numbers from 10000 to 90000 in order, over and over.
pub index_after-cycle : (n : ℕ) → index_after n ≡ 10000 + n % 80001
unfolding index_after incr_temp_index
index_after-cycle zero = refl
index_after-cycle (suc n) = ground (arith, index_after-cycle n)

-- The number that a text of digits stands for, with `acc` in front.
value : ℕ → Text → ℕ
value acc [] = acc
value acc (c ∷ t) = value (acc * 10 + (c - b'0')) t

value-append : (acc : ℕ) (a b : Text) → value acc (a ++ b) ≡ value (value acc a) b
unfolding value
value-append acc [] b = refl
value-append acc (c ∷ a) b = value-append (acc * 10 + (c - b'0')) a b

value-digits_onto : (fuel n : ℕ) (t : Text) → n < fuel → value 0 (digits_onto fuel n t) ≡ value n t
unfolding value digits_onto
value-digits_onto zero n t h = elim h [ ]
value-digits_onto (suc fuel) n t h = elim (Bool-cases (n / 10 == 0)) [
  | inl e ↦ rw (e, digits_onto) (ap (λ (a : ℕ). value a t) (ground arith))
  | inr e ↦
      rw (e, digits_onto)
        (value-digits_onto fuel (n / 10) ((b'0' + n % 10) ∷ t) (ground arith)
          ∙ ap (λ (a : ℕ). value a t) (omega arith))
]

value-decimal : (n : ℕ) → value 0 (decimal n) ≡ n
unfolding value decimal
value-decimal n = value-digits_onto (suc n) n [] (omega arith)

five_digits :
    (k n : ℕ)
    → 10000 ≤ n
    → n < 100000
    → digits_onto (suc (suc (suc (suc (suc k))))) n []
      ≡ (b'0' + n / 10 / 10 / 10 / 10 % 10)
        ∷ (b'0' + n / 10 / 10 / 10 % 10)
        ∷ (b'0' + n / 10 / 10 % 10)
        ∷ (b'0' + n / 10 % 10)
        ∷ (b'0' + n % 10)
        ∷ []
unfolding digits_onto
five_digits k n h g = ground arith

-- The value of a five-digit number behind other digits.
value_behind : (m n : ℕ) → 10000 ≤ n → n < 100000 → value m (decimal n) ≡ m * 100000 + n
unfolding value decimal
value_behind m n h g =
    let five : suc n ≡ suc (suc (suc (suc (suc (n - 4))))) = omega arith in
    ap (λ (f : ℕ). value m (digits_onto f n [])) five
    ∙ ap (value m) (five_digits (n - 4) n h g)
    ∙ omega arith

cancel_left : (a b c : Text) → a ++ b ≡ a ++ c → b ≡ c
cancel_left [] b c e = e
cancel_left (x ∷ a) b c e = cancel_left a b c (ground arith)

-- Two temporary files of one worker, with indices from 10000 to 90000, have the same name only if
-- they were made in the same millisecond with the same index.
pub temp_filename_inj :
    (prefix : Text) (m n i j : ℕ)
    → 10000 ≤ i
    → i ≤ 90000
    → 10000 ≤ j
    → j ≤ 90000
    → temp_filename prefix m i ≡ temp_filename prefix n j
    → (m ≡ n) × (i ≡ j)
unfolding temp_filename
temp_filename_inj prefix m n i j a b c d e =
    omega (arith, ends m i a b, ends n j c d, ap (value 0) same_end)
  where
    ends : (x k : ℕ) → 10000 ≤ k → k ≤ 90000 → value 0 (decimal x ++ decimal k) ≡ x * 100000 + k
    ends x k h g =
        value-append 0 (decimal x) (decimal k)
        ∙ ap (λ (v : ℕ). value v (decimal k)) (value-decimal x)
        ∙ value_behind x k h (omega arith)

    same_end : decimal m ++ decimal i ≡ decimal n ++ decimal j
    same_end = cancel_left (b'_' ∷ []) _ _ (cancel_left prefix _ _ e)

-- Of any 80001 files that one worker makes in a row, no two have the same name.
pub temp_filename_fresh :
    (prefix : Text) (m n i d : ℕ)
    → 0 < d
    → d < 80001
    → temp_filename prefix m (index_after i) ≢ temp_filename prefix n (index_after (i + d))
temp_filename_fresh prefix m n i d p q e = omega (
  arith,
  index_after-cycle i,
  index_after-cycle (i + d),
  (temp_filename_inj prefix m n (index_after i) (index_after (i + d))
      (omega (arith, index_after-cycle i)) (omega (arith, index_after-cycle i))
      (omega (arith, index_after-cycle (i + d))) (omega (arith, index_after-cycle (i + d))) e).1,
)
