-- ===== src/LogFile.antt =====
-- netlib/base/LogFile.cc: rolling log files over `AppendFile`. `time` is an argument of each call of
-- it; the text of a time, the name of the host and the process's number are parameters. An
-- operation gives, beside the state, the file that was closed, if one was.
pub mod Roll
mod Whole
mod Examples
use netlib.Base.{
  ℕ, suc, ◌+◌, ◌-◌, ◌*◌, ◌/◌, ltb, leb, Bool, true, false, not, ◌||◌, ◌==◌, assert, ◌>>◌,
  if◌then◌else◌, Option, none, some, ◌>>=◌, List, [], ◌∷◌, ◌++◌,
}
use netlib.FileUtil.{
  Stdio, AppendFile, construct as open_file, append as append_file, flush as flush_file,
}

pub record Host : Type 0 where
  pub timebuf : ℕ → List ℕ
  pub hostname : List ℕ
  pub pidbuf : List ℕ

pub record LogFile (S : Type 0) : Type 0 where
  pub basename : List ℕ
  pub roll_size : ℕ
  pub flush_interval : ℕ
  pub check_every_n : ℕ
  pub count : ℕ
  pub last_roll : ℕ
  pub last_flush : ℕ
  pub start_of_period : ℕ
  pub file : Option (AppendFile S)

abbrev pub roll_per_seconds : ℕ
roll_per_seconds = 60 * 60 * 24

abbrev pub period : ℕ → ℕ
period t = t / roll_per_seconds * roll_per_seconds

-- ".log"
abbrev pub suffix : List ℕ
suffix = 46 ∷ 108 ∷ 111 ∷ 103 ∷ []

unfoldable pub get_log_file_name : Host → List ℕ → ℕ → List ℕ
get_log_file_name h basename t = basename ++ h.timebuf t ++ h.hostname ++ h.pidbuf ++ suffix

abbrev pub has_slash : List ℕ → Bool
has_slash [] = false
has_slash (c ∷ cs) = (c == 47) || has_slash cs

-- A null `_file` that is followed is `none`, as is a failed assertion.
abbrev pub Result : Type 0 → Type 0
Result S = Option (List (AppendFile S) × LogFile S)

abbrev pub closing : {S : Type 0} → Option (AppendFile S) → List (AppendFile S)
closing none = []
closing (some f) = f ∷ []

module _ {S : Type 0} (io : Stdio S) (host : Host) where
  unfoldable pub roll_file : ℕ → LogFile S → Result S
  roll_file now l =
      if ltb l.last_roll now
      then open_file io (get_log_file_name host l.basename now) >>= (λ f. some (
        closing l.file,
        record l { last_roll = now; last_flush = now; start_of_period = period now; file = some f },
      ))
      else some ([], l)

  unfoldable pub construct : List ℕ → ℕ → ℕ → ℕ → ℕ → Result S
  construct basename roll_size flush_interval check_every_n now =
      assert (not (has_slash basename))
      >> roll_file now (record {
        basename = basename;
        roll_size = roll_size;
        flush_interval = flush_interval;
        check_every_n = check_every_n;
        count = 0;
        last_roll = 0;
        last_flush = 0;
        start_of_period = 0;
        file = none;
      })

  unfoldable pub flush : LogFile S → Result S
  flush l = l.file >>= (λ f. some ([], record l { file = some (flush_file io f) }))

  -- With `now` the time that `append` asks for, and `then_now` the one that `getLogFileName` does.
  unfoldable pub checked : ℕ → ℕ → LogFile S → Result S
  checked now then_now l =
      if not (period now == l.start_of_period)
      then roll_file then_now l
      else if ltb (l.last_flush + l.flush_interval) now
      then flush (record l { last_flush = now })
      else some ([], l)

  unfoldable pub append : ℕ → ℕ → List ℕ → LogFile S → Result S
  append now then_now msg l = l.file >>= (λ f. append_file io msg f >>= (λ g.
      let m = record l { file = some g } in
      if ltb m.roll_size g.written_bytes
      then roll_file then_now m
      else if leb m.check_every_n (m.count + 1)
      then checked now then_now (record m { count = 0 })
      else some ([], record m { count = m.count + 1 })))
