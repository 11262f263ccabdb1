-- ===== src/FileUtil.antt =====
-- netlib/base/FileUtil.cc: `AppendFile`. The stream of stdio is a parameter: what `fopen` gives for a
-- name, and what `fwrite_unlocked`, `ferror` and `fflush` make of a stream of type `S`. The buffer
-- that `setbuffer` gives the stream and the text on stderr are not modelled.
pub mod Loop
pub mod Examples
use netlib.Base.{
  ℕ, zero, suc, ◌+◌, ◌-◌, Bool, not, ◌&&◌, ◌==◌, if◌then◌else◌, Option, none, some, ◌>>=◌, List,
  length, drop,
}

pub record Stdio (S : Type 0) : Type 0 where
  pub fopen : List ℕ → Option S
  pub fwrite_unlocked : S → List ℕ → S × ℕ
  pub ferror : S → ℕ
  pub fflush : S → S

pub record AppendFile (S : Type 0) : Type 0 where
  pub fp : S
  pub written_bytes : ℕ

module _ {S : Type 0} (io : Stdio S) where
  -- `fopen` gives `none` where the code asserts.
  unfoldable pub construct : List ℕ → Option (AppendFile S)
  construct filename = io.fopen filename >>= (λ fp. some (record { fp = fp; written_bytes = 0 }))

  -- The loop of `append`, on fuel, with the bytes written so far; `none` is out of fuel.
  unfoldable pub write_loop : ℕ → List ℕ → S → ℕ → Option (S × ℕ)
  write_loop zero msg fp written = none
  write_loop (suc fuel) msg fp written =
      let remain = length msg - written in
      let (after, n) = io.fwrite_unlocked fp (drop written msg) in
      let rest = write_loop fuel msg after (written + n) in
      if written == length msg
      then some (fp, written)
      else if not (n == remain) && not (io.ferror after == 0)
      then some (after, written)
      else rest

  unfoldable pub append : List ℕ → AppendFile S → Option (AppendFile S)
  append msg f =
      write_loop (suc (length msg)) msg f.fp 0
      >>= (λ (fp, written). some (record { fp = fp; written_bytes = f.written_bytes + written }))

  unfoldable pub flush : AppendFile S → AppendFile S
  flush f = record f { fp = io.fflush f.fp }
