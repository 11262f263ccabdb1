-- ===== src/LogStream/Decimal.antt =====
-- netlib/base/LogStream.cc: the text of a number reads back as the number.
use netlib.Base.{
  ℕ, zero, suc, ◌+◌, ◌-◌, ◌*◌, ◌/◌, ◌%◌, ◌<◌, ◌≡◌, refl, ap, ◌∙◌, inl, inr, ◌==◌, ==_iff,
  Bool-cases, Bool, true, false, if◌then◌else◌, List, [], ◌∷◌, ◌++◌, append-nil, All, ◌≤◌, length,
  length-append, ◌^◌, arith,
}
use netlib.LogStream.{digits, reverse, sign, convert}

-- Reading decimal text, the first digit first.
abbrev pub read_from : ℕ → List ℕ → ℕ
read_from n [] = n
read_from n (c ∷ cs) = read_from (n * 10 + (c - 48)) cs

abbrev pub read : List ℕ → Bool × ℕ
read [] = (false, 0)
read (c ∷ cs) = if c == 45 then (true, read_from 0 cs) else (false, read_from 0 (c ∷ cs))

read_from-snoc :
    (n : ℕ) (cs : List ℕ) (c : ℕ) → read_from n (cs ++ c ∷ []) ≡ read_from n cs * 10 + (c - 48)
read_from-snoc n [] c = refl
read_from-snoc n (d ∷ cs) c = read_from-snoc (n * 10 + (d - 48)) cs c

read_digits : (fuel i : ℕ) → i < fuel → read_from 0 (reverse (digits fuel i)) ≡ i
unfolding digits
read_digits zero i h = absurd (omega arith)
read_digits (suc fuel) i h = elim (Bool-cases (i / 10 == 0)) [
  | inl last ↦ let z : i / 10 ≡ 0 = (==_iff (i / 10) 0).0 last in rw last (omega arith)
  | inr more ↦
      let n : i / 10 < fuel = ground (arith, more) in
      let ih = read_digits fuel (i / 10) n in
      rw more (read_from-snoc 0 (reverse (digits fuel (i / 10))) (48 + i % 10) ∙ omega (arith, ih))
]

All-snoc : (cs : List ℕ) (c : ℕ) → All (λ d. 48 ≤ d) cs → 48 ≤ c → All (λ d. 48 ≤ d) (cs ++ c ∷ [])
All-snoc [] c a h = (h, tt)
All-snoc (d ∷ cs) c a h = (a.0, All-snoc cs c a.1 h)

All-reverse : (cs : List ℕ) → All (λ d. 48 ≤ d) cs → All (λ d. 48 ≤ d) (reverse cs)
All-reverse [] a = tt
All-reverse (c ∷ cs) a = All-snoc (reverse cs) c (All-reverse cs a.1) a.0

All-digits : (fuel i : ℕ) → All (λ d. 48 ≤ d) (digits fuel i)
unfolding digits
All-digits zero i = tt
All-digits (suc fuel) i = elim (Bool-cases (i / 10 == 0)) [
  | inl last ↦ rw last (omega arith, tt)
  | inr more ↦ rw more (omega arith, All-digits fuel (i / 10))
]

convert_unsigned : (v : ℕ) → convert false v ≡ reverse (digits (suc v) v)
unfolding convert
convert_unsigned v = ap reverse (append-nil (digits (suc v) v))

pub All-convert : (v : ℕ) → All (λ d. 48 ≤ d) (convert false v)
All-convert v = rw (convert_unsigned v) (All-reverse (digits (suc v) v) (All-digits (suc v) v))

pub read_from-convert : (v : ℕ) → read_from 0 (convert false v) ≡ v
read_from-convert v = rw (convert_unsigned v) (read_digits (suc v) v (omega arith))

length-digits : (k fuel i : ℕ) → i < 10 ^ suc k → length (digits fuel i) ≤ suc k
unfolding digits
length-digits k zero i h = omega arith
length-digits zero (suc fuel) i h = let e : i / 10 ≡ 0 = omega arith in rw e (omega arith)
length-digits (suc k) (suc fuel) i h = elim (Bool-cases (i / 10 == 0)) [
  | inl last ↦ rw last (omega arith)
  | inr more ↦
      let n : i / 10 < 10 ^ suc k = omega arith in
      let ih = length-digits k fuel (i / 10) n in rw more (omega (arith, ih))
]

pub length-reverse : (cs : List ℕ) → length (reverse cs) ≡ length cs
length-reverse [] = refl
length-reverse (c ∷ cs) = omega (arith, length-append (reverse cs) (c ∷ []), length-reverse cs)

length-sign : (negative : Bool) → length (sign negative) ≤ 1
length-sign true = omega arith
length-sign false = omega arith

-- The text of any number of 64 bits, with its sign and the terminating 0, takes at most 22 bytes
-- of the 32 (`cMaxNumericSize`) that `formatInteger` makes sure of.
pub length-convert : (negative : Bool) (v : ℕ) → v < 2 ^ 64 → length (convert negative v) + 1 ≤ 22
unfolding convert
length-convert negative v h = omega (
  arith,
  length-reverse (digits (suc v) v ++ sign negative),
  length-append (digits (suc v) v) (sign negative),
  length-sign negative,
  length-digits 19 (suc v) v (omega arith),
)

-- A number below a power of ten has no more digits than that.
pub length-convert_lt : (k v : ℕ) → v < 10 ^ suc k → length (convert false v) ≤ suc k
unfolding convert
length-convert_lt k v h = omega (
  arith,
  length-reverse (digits (suc v) v ++ []),
  length-append (digits (suc v) v) [],
  length-digits k (suc v) v h,
)
