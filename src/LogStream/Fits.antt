-- ===== src/LogStream/Fits.antt =====
-- netlib/base/LogStream.cc: `operator<<` stays within its buffer.
use netlib.Base.{
  ℕ, zero, suc, ◌+◌, ◌-◌, ◌/◌, ◌^◌, ◌<◌, ◌≤◌, ◌≡◌, refl, ◌⊎◌, inl, inr, ◌==◌, Bool, true, false,
  leb, ltb, Bool-cases, Option, some, List, [], ◌∷◌, ◌++◌, length, length-append, take-append_left,
  le→leb, leb→le, ltb→lt, arith,
}
use netlib.AsyncLogging.{append_fixed}
use netlib.LogStream.{
  digits_hex, convert_hex, store_numeric, Item, boolean, integer, floating, character, string,
  null_string, pointer, text, is_numeric, insert,
}
use netlib.LogStream.Decimal.{length-convert, length-reverse}

length-digits_hex : (k fuel i : ℕ) → i < 16 ^ suc k → length (digits_hex fuel i) ≤ suc k
unfolding digits_hex
length-digits_hex k zero i h = omega arith
length-digits_hex zero (suc fuel) i h = let e : i / 16 ≡ 0 = omega arith in rw e (omega arith)
length-digits_hex (suc k) (suc fuel) i h = elim (Bool-cases (i / 16 == 0)) [
  | inl last ↦ rw last (omega arith)
  | inr more ↦
      let n : i / 16 < 16 ^ suc k = omega arith in
      let ih = length-digits_hex k fuel (i / 16) n in rw more (omega (arith, ih))
]

length-convert_hex : (v : ℕ) → v < 2 ^ 64 → length (convert_hex v) ≤ 16
unfolding convert_hex
length-convert_hex v h =
    omega
      (arith, length-reverse (digits_hex (suc v) v), length-digits_hex 15 (suc v) v (omega arith))

-- An integer has 64 bits, and the text that `snprintf` makes of a floating-point number 31 characters
-- at most.
abbrev pub Prints : Item → Type 0
Prints (boolean b) = Unit {0}
Prints (integer negative v) = v < 2 ^ 64
Prints (floating cs) = length cs ≤ 31
Prints (character c) = Unit {0}
Prints (string cs) = Unit {0}
Prints null_string = Unit {0}
Prints (pointer v) = v < 2 ^ 64

numeric-short : (i : Item) → Prints i → is_numeric i ≡ true → length (text i) ≤ 31
unfolding is_numeric text
numeric-short (boolean b) p e = absurd (cc e)
numeric-short (integer negative v) p e = omega (arith, length-convert negative v p)
numeric-short (floating cs) p e = p
numeric-short (character c) p e = absurd (cc e)
numeric-short (string cs) p e = absurd (cc e)
numeric-short null_string p e = absurd (cc e)
numeric-short (pointer v) p e = omega (arith, length-convert_hex v p)

-- The item is there as a whole, or, where no more than `short` bytes are left, not at all.
abbrev pub Whole : ℕ → ℕ → List ℕ → List ℕ → Option (List ℕ) → Type 0
Whole size short cs b o =
    (c : List ℕ) × (o ≡ some c)
    × ((c ≡ b ++ cs) ⊎ ((c ≡ b) × (size ≤ length b + short)))
    × (length c ≤ size)

-- What is too little for an item.
abbrev pub too_little : Bool → List ℕ → ℕ
too_little true cs = 31
too_little false cs = length cs

store_numeric-Whole :
    (size : ℕ) (cs b : List ℕ)
    → length b ≤ size
    → length cs ≤ 31
    → Whole size 31 cs b (store_numeric size cs b)
unfolding store_numeric
store_numeric-Whole size cs b h short = elim (Bool-cases (leb 32 (size - length b))) [
  | inl room ↦
      let r = leb→le 32 (size - length b) room in
      let n = length-append cs (0 ∷ []) in
      let fits = le→leb (length b + length (cs ++ 0 ∷ [])) size (omega (arith, r, n, h, short)) in
      (
        b ++ cs,
        rw (room, fits, take-append_left cs (0 ∷ [])) refl,
        inl refl,
        omega (arith, length-append b cs, r, short, h),
      )
  | inr none_left ↦ (b, rw none_left refl, inr (refl, ground (arith, none_left)), h)
]

append_fixed-Whole :
    (size : ℕ) (cs b : List ℕ)
    → length b ≤ size
    → Whole size (length cs) cs b (some (append_fixed size cs b))
unfolding append_fixed
append_fixed-Whole size cs b h = elim (Bool-cases (ltb (length cs) (size - length b))) [
  | inl room ↦
      let r = ltb→lt (length cs) (size - length b) room in
      (b ++ cs, rw room refl, inl refl, omega (arith, length-append b cs, r))
  | inr none_left ↦ (b, rw none_left refl, inr (refl, ground (arith, none_left)), h)
]

-- Whatever is put into a stream's buffer, of any size: no byte, not even the 0 behind a number, is
-- stored outside of it. The item is in it as a whole, behind the others, unless less than 32 bytes are
-- left for a number, or no more than its length for another, where it is left out.
pub insert-Whole :
    (size : ℕ) (i : Item) (b : List ℕ)
    → length b ≤ size
    → Prints i
    → Whole size (too_little (is_numeric i) (text i)) (text i) b (insert size i b)
unfolding insert
insert-Whole size i b h p = elim (Bool-cases (is_numeric i)) [
  | inl numeric ↦ rw numeric (store_numeric-Whole size (text i) b h (numeric-short i p numeric))
  | inr other ↦ rw other (append_fixed-Whole size (text i) b h)
]
