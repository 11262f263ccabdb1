-- ===== src/FileUtil/Loop.antt =====
-- netlib/base/FileUtil.cc: the loop of `AppendFile::append` ends, and what it has written then.
use netlib.Base.{
  ℕ, zero, suc, ◌+◌, ◌-◌, ◌≤◌, ◌<◌, ◌≡◌, ◌≢◌, refl, sym, ap, ◌∙◌, ◌⊎◌, inl, inr, ◌==◌, ==_iff,
  Bool-cases, Option, some, List, [], ◌∷◌, ◌++◌, append_assoc, append-nil, length, take, drop,
  length-drop, arith,
}
use netlib.FileUtil.{Stdio, AppendFile, write_loop, append}

-- What is documented of a stream, in terms of the bytes it has taken since it was opened.
pub record IsStdio {S : Type 0} (io : Stdio S) (taken : S → List ℕ) : Type 0 where
  pub opened : (name : List ℕ) (fp : S) → io.fopen name ≡ some fp → taken fp ≡ []
  pub counted : (fp : S) (bs : List ℕ) → (io.fwrite_unlocked fp bs).1 ≤ length bs
  pub stored :
      (fp : S) (bs : List ℕ)
      → taken (io.fwrite_unlocked fp bs).0 ≡ taken fp ++ take (io.fwrite_unlocked fp bs).1 bs
  -- Nothing taken of some bytes means an error.
  pub failed :
      (fp : S) (bs : List ℕ)
      → 0 < length bs
      → (io.fwrite_unlocked fp bs).1 ≡ 0
      → io.ferror (io.fwrite_unlocked fp bs).0 ≢ 0
  pub flushed : (fp : S) → taken (io.fflush fp) ≡ taken fp

take-nil : (n : ℕ) → take {A = ℕ} n [] ≡ []
take-nil zero = refl
take-nil (suc n) = refl

take-add : (m n : ℕ) (bs : List ℕ) → take m bs ++ take n (drop m bs) ≡ take (m + n) bs
take-add zero n bs = ap (λ (k : ℕ). take k bs) {x = n} {y = 0 + n} (omega arith)
take-add (suc m) n [] = take-nil n ∙ sym (take-nil (suc m + n))
take-add (suc m) n (b ∷ bs) =
    let e : suc m + n ≡ suc (m + n) = omega arith in
    rw e (ap (λ (t : List ℕ). b ∷ t) (take-add m n bs))

zero_or_more : (n : ℕ) → (n ≡ 0) ⊎ (0 < n)
zero_or_more zero = inl refl
zero_or_more (suc n) = inr (omega arith)

module _ {S : Type 0} {io : Stdio S} {taken : S → List ℕ} (v : IsStdio io taken) where
  -- The stream took the first `k` bytes of the message; all of it is counted, or an error shows.
  abbrev Outcome : List ℕ → List ℕ → Option (S × ℕ) → Type 0
  Outcome before msg o =
      (fp : S) × (n : ℕ) × (k : ℕ) × (o ≡ some (fp, n))
      × (n ≤ k)
      × (k ≤ length msg)
      × (taken fp ≡ before ++ take k msg)
      × ((n ≡ length msg) ⊎ (io.ferror fp ≢ 0))

  write_loop-Outcome :
      (fuel : ℕ) (before msg : List ℕ) (fp : S) (written : ℕ)
      → length msg - written < fuel
      → written ≤ length msg
      → taken fp ≡ before ++ take written msg
      → Outcome before msg (write_loop io fuel msg fp written)
  unfolding write_loop
  write_loop-Outcome zero before msg fp written f h e = absurd (omega arith)
  write_loop-Outcome (suc fuel) before msg fp written f h e =
      let bs = drop written msg in
      let n = (io.fwrite_unlocked fp bs).1 in
      let after = (io.fwrite_unlocked fp bs).0 in
      let left : length bs ≡ length msg - written = length-drop written msg in
      let few : n ≤ length bs = v.counted fp bs in
      let stored : taken after ≡ before ++ take (written + n) msg =
        v.stored fp bs
        ∙ rw e (
            append_assoc before (take written msg) (take n bs)
            ∙ ap (λ (t : List ℕ). before ++ t) (take-add written n msg)) in
      let go_on : 0 < n → Outcome before msg (write_loop io fuel msg after (written + n)) =
        λ some_taken.
          write_loop-Outcome fuel before msg after (written + n)
            (omega (arith, few, left, some_taken)) (omega (arith, few, left)) stored in
      elim (Bool-cases (written == length msg)) [
        | inl all ↦
            let e' = (==_iff written (length msg)).0 all in
            rw all (fp, written, written, refl, omega arith, h, e, inl e')
        | inr more ↦
            let some_left : written < length msg = ground (arith, more, h) in
            rw more (elim (Bool-cases (n == length msg - written)) [
              | inl whole ↦
                  let e' = (==_iff n (length msg - written)).0 whole in
                  rw whole (go_on (omega (arith, e', some_left)))
              | inr short ↦ rw short (elim (Bool-cases (io.ferror after == 0)) [
                | inl fine ↦
                    let error_free = (==_iff (io.ferror after) 0).0 fine in
                    rw fine (elim (zero_or_more n) [
                      | inl none_taken ↦
                          absurd
                            (v.failed fp bs (omega (arith, left, some_left)) none_taken error_free)
                      | inr some_taken ↦ go_on some_taken
                    ])
                | inr bad ↦
                    let is_bad : io.ferror after ≢ 0 = λ z. ground (arith, bad, z) in
                    rw bad (
                      after,
                      written,
                      written + n,
                      refl,
                      omega arith,
                      omega (arith, few, left, h),
                      stored,
                      inr is_bad,
                    )
              ])
            ])
      ]

  -- On any stream that keeps to its documentation, `append` returns: the stream has taken all of
  -- the message and all of it is counted, or it has taken a first part of it, no less than is
  -- counted, and an error shows.
  pub append-Returns :
      (msg : List ℕ) (f : AppendFile S)
      → (g : AppendFile S) × (n : ℕ) × (k : ℕ) × (append io msg f ≡ some g)
        × (g.written_bytes ≡ f.written_bytes + n)
        × (n ≤ k)
        × (k ≤ length msg)
        × (taken g.fp ≡ taken f.fp ++ take k msg)
        × ((n ≡ length msg) ⊎ (io.ferror g.fp ≢ 0))
  unfolding append
  append-Returns msg f =
      let (fp, n, k, o, le, few, t, out) =
        write_loop-Outcome (suc (length msg)) (taken f.fp) msg f.fp 0 (omega arith) (omega arith)
          (sym (append-nil (taken f.fp))) in
      (
        record { fp = fp; written_bytes = f.written_bytes + n },
        n,
        k,
        rw o refl,
        refl,
        le,
        few,
        t,
        out,
      )
