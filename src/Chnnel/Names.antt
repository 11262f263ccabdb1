-- ===== src/Chnnel/Names.antt =====
-- netlib/net/Chnnel.cc: the text of a mask names its bits.
use netlib.Base.{
  ℕ, ◌≡◌, refl, ap, Bool, true, false, not, ◌&&◌, both, ◌==◌, ==_refl, if◌then◌else◌, List, [], ◌∷◌,
  length, drop, drop-append_left, arith,
}
use netlib.Chnnel.{Mask, flags, flag_names, flag_texts}

abbrev starts_with : ℕ → List ℕ → Bool
starts_with c [] = false
starts_with c (d ∷ ds) = d == c

-- The bits, by the first letters of the names.
abbrev read_flags : List (List ℕ) → List ℕ → List Bool
read_flags [] text = []
read_flags ([] ∷ names) text = false ∷ read_flags names text
read_flags ((c ∷ cs) ∷ names) text =
    let left =
      read_flags names (if starts_with c text then drop (length (c ∷ cs)) text else text) in
    starts_with c text ∷ left

-- Each name begins with a letter that no later one begins with.
abbrev apart : ℕ → List (List ℕ) → Bool
apart c [] = true
apart c (name ∷ names) = not (starts_with c name) && apart c names

abbrev distinct : List (List ℕ) → Bool
distinct [] = true
distinct ([] ∷ names) = false
distinct ((c ∷ cs) ∷ names) = apart c names && distinct names

apart-texts :
    (c : ℕ) (bs : List Bool) (names : List (List ℕ))
    → apart c names ≡ true
    → starts_with c (flag_texts bs names) ≡ false
apart-texts c [] names a = refl
apart-texts c (b ∷ bs) [] a = refl
apart-texts c (true ∷ bs) ([] ∷ names) h = apart-texts c bs names h
apart-texts c (false ∷ bs) ([] ∷ names) h = apart-texts c bs names h
apart-texts c (true ∷ bs) ((d ∷ ds) ∷ names) h =
    ground (arith, (both (not (d == c)) (apart c names) h).0)
apart-texts c (false ∷ bs) ((d ∷ ds) ∷ names) h =
    apart-texts c bs names (both (not (d == c)) (apart c names) h).1

read_flags-texts :
    (bs : List Bool) (names : List (List ℕ))
    → length bs ≡ length names
    → distinct names ≡ true
    → read_flags names (flag_texts bs names) ≡ bs
read_flags-texts [] [] e d = refl
read_flags-texts [] (n ∷ names) e d = absurd (omega (arith, e))
read_flags-texts (b ∷ bs) [] e d = absurd (omega (arith, e))
read_flags-texts (b ∷ bs) ([] ∷ names) e d = absurd (cc d)
read_flags-texts (true ∷ bs) ((c ∷ cs) ∷ names) e h =
    let (a, d) = both (apart c names) (distinct names) h in
    rw (==_refl c, drop-append_left cs (flag_texts bs names))
      (ap (λ (l : List Bool). true ∷ l) (read_flags-texts bs names (omega (arith, e)) d))
read_flags-texts (false ∷ bs) ((c ∷ cs) ∷ names) e h =
    let (a, d) = both (apart c names) (distinct names) h in
    rw (apart-texts c bs names a)
      (ap (λ (l : List Bool). false ∷ l) (read_flags-texts bs names (omega (arith, e)) d))

-- Whatever is set of the seven bits that the text names, the names alone tell it.
flags-read_flags : (m : Mask) → read_flags flag_names (flag_texts (flags m) flag_names) ≡ flags m
flags-read_flags m = read_flags-texts (flags m) flag_names refl refl
