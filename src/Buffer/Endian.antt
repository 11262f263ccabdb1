-- ===== src/Buffer/Endian.antt =====
-- The big-endian bytes of a word, as `htobe16/32/64` lay them out and `be16/32/64toh` read them.
use netlib.Base.{
  ℕ, zero, suc, ◌+◌, ◌*◌, ◌/◌, ◌%◌, ◌^◌, ◌<◌, ◌≡◌, refl, List, [], ◌∷◌, ◌++◌, length, arith,
  length-append,
}
use native.Mathlib.Nat.{pow-suc}

-- The low `k` bytes of `x`, the most significant first.
pub be_bytes : ℕ → ℕ → List ℕ
be_bytes zero x = []
be_bytes (suc k) x = be_bytes k (x / 256) ++ (x % 256 ∷ [])

pub be_value : ℕ → List ℕ → ℕ
be_value acc [] = acc
be_value acc (x ∷ xs) = be_value (acc * 256 + x) xs

pub length-be_bytes : (k x : ℕ) → length (be_bytes k x) ≡ k
unfolding be_bytes
length-be_bytes zero x = refl
length-be_bytes (suc k) x =
    omega (arith, length-append (be_bytes k (x / 256)) (x % 256 ∷ []), length-be_bytes k (x / 256))

be_value_snoc :
    (acc : ℕ) (xs : List ℕ) (b : ℕ) → be_value acc (xs ++ (b ∷ [])) ≡ be_value acc xs * 256 + b
unfolding be_value
be_value_snoc acc [] b = refl
be_value_snoc acc (x ∷ xs) b = be_value_snoc (acc * 256 + x) xs b

-- A word that fits `k` bytes is read back.
pub be_value-be_bytes : (k x : ℕ) → x < 256 ^ k → be_value 0 (be_bytes k x) ≡ x
unfolding be_bytes
be_value-be_bytes zero x h = unfold be_value in omega arith
be_value-be_bytes (suc k) x h =
    let e = pow-suc 256 k in
    rw
      (
        be_value_snoc 0 (be_bytes k (x / 256)) (x % 256),
        be_value-be_bytes k (x / 256) (omega arith),
      )
      (omega arith)
