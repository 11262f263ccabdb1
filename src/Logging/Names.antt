-- ===== src/Logging/Names.antt =====
-- netlib/base/Logging.h, `SourceFile`: the name of a file without its directory.
use netlib.Base.{
  ℕ, suc, ◌+◌, ◌-◌, ◌≡◌, ◌≢◌, refl, ap, ◌∙◌, ◌⊎◌, inl, inr, ◌==◌, ==_iff, Bool-cases, none, some,
  [], ◌∷◌, ◌++◌, All, length, length-append, take, drop, take_all, arith,
}
use netlib.Logging.{Bytes, last_slash, from_array, from_name}

abbrev NoSlash : Bytes → Type 0
NoSlash cs = All (λ c. c ≢ 47) cs

-- What `strrchr` finds.
abbrev Found : Bytes → Type 0
Found cs =
    (front : Bytes) × (rest : Bytes) × (last_slash cs ≡ some (length front))
    × (cs ≡ front ++ 47 ∷ rest)
    × NoSlash rest

last_slash-Found : (cs : Bytes) → ((last_slash cs ≡ none) × NoSlash cs) ⊎ Found cs
last_slash-Found [] = inl (refl, tt)
last_slash-Found (c ∷ cs) = elim (last_slash-Found cs) [
  | inr (front, rest, e, p, n) ↦ inr (c ∷ front, rest, rw e refl, ap (λ (t : Bytes). c ∷ t) p, n)
  | inl (e, n) ↦ elim (Bool-cases (c == 47)) [
    | inl slash ↦ inr ([], cs, rw (e, slash) refl, ap (λ d. d ∷ cs) ((==_iff c 47).0 slash), n)
    | inr other ↦ inl (rw (e, other) refl, (λ h. ground (arith, other, h), n))
  ]
]

drop-front :
    (front : Bytes) (c : ℕ) (rest : Bytes) → drop (length front + 1) (front ++ c ∷ rest) ≡ rest
drop-front [] c rest = refl
drop-front (x ∷ front) c rest =
    let e : length (x ∷ front) + 1 ≡ suc (length front + 1) = omega arith in
    rw e (drop-front front c rest)

-- Both constructors give the same text: what stands behind the last slash of the path, and all of
-- a path without one.
from_name-Base :
    (path : Bytes)
    → (take (from_array path).size (from_array path).text ≡ (from_name path).text)
      × ((from_name path).size ≡ length (from_name path).text)
      × NoSlash (from_name path).text
      × ((path ≡ (from_name path).text)
          ⊎ ((front : Bytes) × (path ≡ front ++ 47 ∷ (from_name path).text)))
unfolding from_array from_name
from_name-Base path = elim (last_slash-Found path) [
  | inl (e, n) ↦ rw e (take_all (length path) path (omega arith), refl, n, inl refl)
  | inr (front, rest, e, p, n) ↦
      let rest' : drop (length front + 1) path ≡ rest =
        ap (λ (t : Bytes). drop (length front + 1) t) p ∙ drop-front front 47 rest in
      let len : length path ≡ length front + suc (length rest) =
        ap length p ∙ length-append front (47 ∷ rest) in
      rw (e, rest')
        (
          take_all (length path - (length front + 1)) rest (omega (arith, len)),
          refl,
          n,
          inr (front, p),
        )
]
