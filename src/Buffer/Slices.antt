-- ===== src/Buffer/Slices.antt =====
-- The byte array of netlib/net/Buffer.h: ranges of a vector, `std::copy` into it and `resize`.
use netlib.Base.{
  ℕ, zero, suc, ◌+◌, ◌-◌, ◌≤◌, ◌≡◌, refl, ap, List, [], ◌∷◌, ◌++◌, length, drop, take, drop-nil,
  ◌∙◌, append-nil, arith,
}

-- The elements at the indices i, …, j - 1.
unfoldable pub slice {ℓ} : {A : Type ℓ} → List A → ℕ → ℕ → List A
slice [] i j = []
slice (x ∷ xs) i zero = []
slice (x ∷ xs) zero (suc j) = x ∷ slice xs zero j
slice (x ∷ xs) (suc i) (suc j) = slice xs i j

-- `std::copy(ys.begin(), ys.end(), xs.begin() + i)`. What would fall behind the end is dropped:
-- the callers assert that nothing does.
pub copy_to {ℓ} : {A : Type ℓ} → List A → ℕ → List A → List A
copy_to [] i ys = []
copy_to (x ∷ xs) zero [] = x ∷ xs
copy_to (x ∷ xs) zero (y ∷ ys) = y ∷ copy_to xs zero ys
copy_to (x ∷ xs) (suc i) ys = x ∷ copy_to xs i ys

-- `std::vector<char>::resize`: new elements are 0.
pub resize : ℕ → List ℕ → List ℕ
resize zero xs = []
resize (suc n) [] = 0 ∷ resize n []
resize (suc n) (x ∷ xs) = x ∷ resize n xs

pub length-resize : (n : ℕ) (xs : List ℕ) → length (resize n xs) ≡ n
unfolding resize
length-resize zero xs = refl
length-resize (suc n) [] = ap suc (length-resize n [])
length-resize (suc n) (x ∷ xs) = ap suc (length-resize n xs)

pub slice-resize :
    (xs : List ℕ) (n i j : ℕ) → j ≤ length xs → j ≤ n → slice (resize n xs) i j ≡ slice xs i j
unfolding slice resize
slice-resize [] zero i zero h k = refl
slice-resize [] (suc n) i zero h k = refl
slice-resize [] n i (suc j) h k = absurd (omega arith)
slice-resize (x ∷ xs) zero i zero h k = refl
slice-resize (x ∷ xs) zero i (suc j) h k = absurd (omega arith)
slice-resize (x ∷ xs) (suc n) i zero h k = refl
slice-resize (x ∷ xs) (suc n) zero (suc j) h k =
    ap (λ ys. x ∷ ys) (slice-resize xs n zero j (omega arith) (omega arith))
slice-resize (x ∷ xs) (suc n) (suc i) (suc j) h k =
    slice-resize xs n i j (omega arith) (omega arith)

module _ {ℓ} {A : Type ℓ} where
  pub length-copy_to : (xs : List A) (i : ℕ) (ys : List A) → length (copy_to xs i ys) ≡ length xs
  unfolding copy_to
  length-copy_to [] i ys = refl
  length-copy_to (x ∷ xs) zero [] = refl
  length-copy_to (x ∷ xs) zero (y ∷ ys) = ap suc (length-copy_to xs zero ys)
  length-copy_to (x ∷ xs) (suc i) ys = ap suc (length-copy_to xs i ys)

  pub length-slice : (xs : List A) (i j : ℕ) → j ≤ length xs → length (slice xs i j) ≡ j - i
  unfolding slice
  length-slice [] i zero h = omega arith
  length-slice [] i (suc j) h = absurd (omega arith)
  length-slice (x ∷ xs) i zero h = omega arith
  length-slice (x ∷ xs) zero (suc j) h = omega (arith, length-slice xs zero j (omega arith))
  length-slice (x ∷ xs) (suc i) (suc j) h = omega (arith, length-slice xs i j (omega arith))

  pub slice_empty : (xs : List A) (i : ℕ) → slice xs i i ≡ []
  unfolding slice
  slice_empty [] i = refl
  slice_empty (x ∷ xs) zero = refl
  slice_empty (x ∷ xs) (suc i) = slice_empty xs i

  -- Writing in front of a range makes it longer.
  pub slice-copy_to_front :
      (xs ys : List A) (i j k : ℕ)
      → k ≡ i + length ys
      → k ≤ j
      → j ≤ length xs
      → slice (copy_to xs i ys) i j ≡ ys ++ slice xs k j
  unfolding slice copy_to
  slice-copy_to_front [] [] i j k e h l = refl
  slice-copy_to_front [] (y ∷ ys) i j k e h l = absurd (omega arith)
  slice-copy_to_front (x ∷ xs) [] zero zero k e h l = refl
  slice-copy_to_front (x ∷ xs) [] (suc i) zero k e h l = absurd (omega arith)
  slice-copy_to_front (x ∷ xs) (y ∷ ys) i zero k e h l = absurd (omega arith)
  slice-copy_to_front (x ∷ xs) [] zero (suc j) zero e h l = refl
  slice-copy_to_front (x ∷ xs) [] zero (suc j) (suc k) e h l = absurd (omega arith)
  slice-copy_to_front (x ∷ xs) (y ∷ ys) zero (suc j) zero e h l = absurd (omega arith)
  slice-copy_to_front (x ∷ xs) (y ∷ ys) zero (suc j) (suc k) e h l =
      ap (λ zs. y ∷ zs)
        (slice-copy_to_front xs ys zero j k (omega arith) (omega arith) (omega arith))
  slice-copy_to_front (x ∷ xs) ys (suc i) (suc j) zero e h l = absurd (omega arith)
  slice-copy_to_front (x ∷ xs) ys (suc i) (suc j) (suc k) e h l =
      slice-copy_to_front xs ys i j k (omega arith) (omega arith) (omega arith)

  -- Writing behind a range makes it longer.
  pub slice-copy_to_end :
      (xs ys : List A) (i j k : ℕ)
      → i ≤ j
      → k ≡ j + length ys
      → k ≤ length xs
      → slice (copy_to xs j ys) i k ≡ slice xs i j ++ ys
  unfolding slice copy_to
  slice-copy_to_end [] [] i j k h e l = refl
  slice-copy_to_end [] (y ∷ ys) i j k h e l = absurd (omega arith)
  slice-copy_to_end (x ∷ xs) ys zero zero k h e l =
      slice-copy_to_front (x ∷ xs) ys zero k k e (omega arith) l
      ∙ ap (λ zs. ys ++ zs) (slice_empty (x ∷ xs) k)
      ∙ append-nil ys
  slice-copy_to_end (x ∷ xs) ys (suc i) zero k h e l = absurd (omega arith)
  slice-copy_to_end (x ∷ xs) ys i (suc j) zero h e l = absurd (omega arith)
  slice-copy_to_end (x ∷ xs) ys zero (suc j) (suc k) h e l =
      ap (λ zs. x ∷ zs) (slice-copy_to_end xs ys zero j k (omega arith) (omega arith) (omega arith))
  slice-copy_to_end (x ∷ xs) ys (suc i) (suc j) (suc k) h e l =
      slice-copy_to_end xs ys i j k (omega arith) (omega arith) (omega arith)

  -- A later start drops, an earlier end takes.
  pub slice_later : (xs : List A) (i j k n : ℕ) → k ≡ i + n → slice xs k j ≡ drop n (slice xs i j)
  unfolding slice
  slice_later [] i j k n e = rw (drop-nil {A = A} n)
  slice_later (x ∷ xs) i zero k n e = rw (drop-nil {A = A} n)
  slice_later (x ∷ xs) zero (suc j) zero zero e = refl
  slice_later (x ∷ xs) zero (suc j) zero (suc n) e = absurd (omega arith)
  slice_later (x ∷ xs) zero (suc j) (suc k) zero e = absurd (omega arith)
  slice_later (x ∷ xs) zero (suc j) (suc k) (suc n) e = slice_later xs zero j k n (omega arith)
  slice_later (x ∷ xs) (suc i) (suc j) zero n e = absurd (omega arith)
  slice_later (x ∷ xs) (suc i) (suc j) (suc k) n e = slice_later xs i j k n (omega arith)

  pub slice_earlier :
      (xs : List A) (i j k n : ℕ) → k ≡ i + n → k ≤ j → slice xs i k ≡ take n (slice xs i j)
  unfolding slice
  slice_earlier [] i j k zero e h = refl
  slice_earlier [] i j k (suc n) e h = refl
  slice_earlier (x ∷ xs) i zero zero zero e h = refl
  slice_earlier (x ∷ xs) i zero zero (suc n) e h = absurd (omega arith)
  slice_earlier (x ∷ xs) i zero (suc k) n e h = absurd (omega arith)
  slice_earlier (x ∷ xs) i (suc j) zero zero e h = refl
  slice_earlier (x ∷ xs) i (suc j) zero (suc n) e h = absurd (omega arith)
  slice_earlier (x ∷ xs) zero (suc j) (suc k) zero e h = absurd (omega arith)
  slice_earlier (x ∷ xs) zero (suc j) (suc k) (suc n) e h =
      ap (λ ys. x ∷ ys) (slice_earlier xs zero j k n (omega arith) (omega arith))
  slice_earlier (x ∷ xs) (suc i) (suc j) (suc k) n e h =
      slice_earlier xs i j k n (omega arith) (omega arith)
