-- ===== src/FileUtil/Examples.antt =====
-- netlib/base/FileUtil.cc: a stream with room for a number of bytes.
use netlib.Base.{
  ℕ, ◌+◌, ◌-◌, ◌≤◌, ◌≡◌, ◌≢◌, refl, sym, ap, none, inl, inr, ◌⊎◌, ◌==◌, min, if◌then◌else◌,
  Bool-cases, Option, some, List, [], ◌∷◌, ◌++◌, length, take, arith,
}
use netlib.FileUtil.{Stdio, AppendFile, append}
use netlib.FileUtil.Loop.{IsStdio, append-Returns}

pub record Disk : Type 0 where
  pub room : ℕ
  pub bytes : List ℕ
  pub error : ℕ

abbrev pub stdio : Stdio Disk
stdio = record {
  fopen = λ name. some (record { room = 3; bytes = []; error = 0 });
  fwrite_unlocked = λ d bs.
      let n = min d.room (length bs) in
      (
        record {
          room = d.room - n;
          bytes = d.bytes ++ take n bs;
          error = if n == length bs then d.error else 1;
        },
        n,
      );
  ferror = λ d. d.error;
  fflush = λ d. d;
}

abbrev bytes_of : Option Disk → List ℕ
bytes_of none = []
bytes_of (some d) = d.bytes

pub stdio-IsStdio : IsStdio stdio (λ d. d.bytes)
stdio-IsStdio = record {
  opened = λ name fp e. ap bytes_of (sym e);
  counted = λ fp bs. omega arith;
  stored = λ fp bs. refl;
  failed = λ fp bs some_left none_taken e.
      elim (Bool-cases (min fp.room (length bs) == length bs)) [
        | inl whole ↦ absurd (ground (arith, whole, none_taken, some_left))
        | inr short ↦
            let shown : stdio.ferror (stdio.fwrite_unlocked fp bs).0 ≡ 1 = rw short refl in
            absurd (omega (arith, e, shown))
      ];
  flushed = λ fp. refl;
}

abbrev full : AppendFile Disk
full = record { fp = record { room = 3; bytes = 7 ∷ []; error = 0 }; written_bytes = 1 }

abbrev msg : List ℕ
msg = 1 ∷ 2 ∷ 3 ∷ 4 ∷ []

append-Returns_example :
    (g : AppendFile Disk) × (n : ℕ) × (k : ℕ) × (append stdio msg full ≡ some g)
    × (g.written_bytes ≡ 1 + n)
    × (n ≤ k)
    × (k ≤ 4)
    × (g.fp.bytes ≡ (7 ∷ []) ++ take k msg)
    × ((n ≡ 4) ⊎ (g.fp.error ≢ 0))
append-Returns_example = append-Returns stdio-IsStdio msg full
