-- ===== src/EventLoopThreadPool/Turns.antt =====
-- netlib/net/EventLoopThreadPool.cc: the loops are served in turn.
use netlib.Base.{
  ℕ, zero, suc, ◌+◌, ◌<◌, ◌≡◌, refl, sym, ap, ◌∙◌, subst, true, if◌then◌else◌, leb, le→leb, lt→leb,
  Option, some, ◌>>=◌, List, [], ◌∷◌, ◌++◌, append_assoc, length, length-append, get_elem?, arith,
}
use netlib.EventLoopThreadPool.{Pool, get_next_loop, take_next}

-- The loops that `k` calls of `getNextLoop` return.
abbrev pub turns : ℕ → Pool → Option (Pool × List ℕ)
turns zero p = some (p, [])
turns (suc k) p = get_next_loop p >>= (λ (q, l). turns k q >>= (λ (r, ls). some (r, l ∷ ls)))

get_elem?-append : (pre rest : List ℕ) (l : ℕ) → get_elem? (pre ++ l ∷ rest) (length pre) ≡ some l
get_elem?-append [] rest l = refl
get_elem?-append (x ∷ pre) rest l = get_elem?-append pre rest l

take_next_lem :
    (ls : List ℕ) (p : Pool) (l : ℕ)
    → get_elem? ls p.next ≡ some l
    → take_next ls p
      ≡ some (record p { next = if leb (length ls) (p.next + 1) then 0 else p.next + 1 }, l)
take_next_lem [] p l h = absurd (cc h)
take_next_lem (x ∷ xs) p l h = rw h refl

-- A started pool that is to serve the loop at `i` next.
abbrev pub at : Pool → List ℕ → ℕ → Pool
at p ls i = record p { started = true; loops = ls; next = i }

get_next_loop_lem :
    (p : Pool) (ls : List ℕ) (i l j : ℕ)
    → get_elem? ls i ≡ some l
    → (if leb (length ls) (i + 1) then 0 else i + 1) ≡ j
    → get_next_loop (at p ls i) ≡ some (at p ls j, l)
unfolding get_next_loop
get_next_loop_lem p ls i l j h e =
    take_next_lem ls (at p ls i) l h ∙ ap (λ n. some (at p ls n, l)) e

turns_from :
    (p : Pool) (ls pre : List ℕ) (l : ℕ) (rest : List ℕ) (i : ℕ)
    → ls ≡ pre ++ l ∷ rest
    → i ≡ length pre
    → turns (suc (length rest)) (at p ls i) ≡ some (at p ls 0, l ∷ rest)
turns_from p ls pre l [] i e n =
    let here : get_elem? ls i ≡ some l = rw (e, n) (get_elem?-append pre [] l) in
    let long : length ls ≡ length pre + 1 = ap length e ∙ length-append pre (l ∷ []) in
    rw (get_next_loop_lem p ls i l 0 here (rw (le→leb (length ls) (i + 1) (omega arith)) refl)) refl
turns_from p ls pre l (m ∷ rest) i e n =
    let here : get_elem? ls i ≡ some l = rw (e, n) (get_elem?-append pre (m ∷ rest) l) in
    let long : length ls ≡ length pre + suc (suc (length rest)) =
      ap length e ∙ length-append pre (l ∷ m ∷ rest) in
    let moved : i + 1 ≡ length (pre ++ l ∷ []) = omega (arith, length-append pre (l ∷ [])) in
    let others =
      turns_from p ls (pre ++ l ∷ []) m rest (i + 1)
        (e ∙ sym (append_assoc pre (l ∷ []) (m ∷ rest))) moved in
    rw
      (
        get_next_loop_lem p ls i l (i + 1) here
            (rw (lt→leb (length ls) (i + 1) (omega arith)) refl),
        others,
      )
      refl

all_turns :
    (p : Pool) (ls : List ℕ) → 0 < length ls → turns (length ls) (at p ls 0) ≡ some (at p ls 0, ls)
all_turns p [] h = absurd (omega arith)
all_turns p (l ∷ ls) h = turns_from p (l ∷ ls) [] l ls 0 refl refl

-- In a started pool with threads whose next loop is the first, as it is when the pool was just
-- started, as many calls of `getNextLoop` as there are threads return every loop once, in the order
-- of the threads, and the next call begins again with the first.
pub turns_lem :
    (p : Pool)
    → p.started ≡ true
    → p.next ≡ 0
    → 0 < length p.loops
    → turns (length p.loops) p ≡ some (p, p.loops)
turns_lem p s n some_loop =
    let same : at p p.loops 0 ≡ p =
      ap (λ b. record p { started = b; next = 0 }) (sym s)
      ∙ ap (λ (k : ℕ). record p { next = k }) (sym n) in
    subst (λ q. turns (length p.loops) q ≡ some (q, p.loops)) same (all_turns p p.loops some_loop)
