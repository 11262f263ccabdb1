-- ===== src/LogFile/Whole.antt =====
-- netlib/base/LogFile.cc: a log from its construction on, over any calls of its operations.
use netlib.Base.{
  ℕ, ◌+◌, ◌≤◌, ◌<◌, ◌≡◌, refl, sym, ap, ◌∙◌, inr, false, lt→ltb, some, ◌>>=◌, List, [], ◌∷◌, ◌++◌,
  append_assoc, append-nil, length, length-append, arith,
}
use netlib.FileUtil.{Stdio, AppendFile, construct as open_file}
use netlib.FileUtil.Loop.{IsStdio}
use netlib.LogFile.{
  Host, LogFile, Result, has_slash, period, get_log_file_name, roll_file, flush, append, construct,
}
use netlib.LogFile.Roll.{
  Works, Sound, Kept, joined, current, roll_file-Kept, flush-Kept, append-Kept,
}

-- A call with the times that it reads.
pub data Event : Type 0 where
  appends : ℕ → ℕ → List ℕ → Event
  flushes : Event
  rolls : ℕ → Event

abbrev message : Event → List ℕ
message (appends now then_now msg) = msg
message flushes = []
message (rolls now) = []

abbrev pub messages : List Event → List ℕ
messages [] = []
messages (e ∷ es) = message e ++ messages es

module _ {S : Type 0} (io : Stdio S) (host : Host) where
  unfoldable pub happens : Event → LogFile S → Result S
  happens (appends now then_now msg) l = append io host now then_now msg l
  happens flushes l = flush io host l
  happens (rolls now) l = roll_file io host now l

  unfoldable pub run : List Event → LogFile S → Result S
  run [] l = some ([], l)
  run (e ∷ es) l =
      happens e l >>= (λ (closed, m). run es m >>= (λ (more, n). some (closed ++ more, n)))

module _ {S : Type 0} {io : Stdio S} {taken : S → List ℕ} (v : IsStdio io taken) (w : Works io)
    (host : Host) where
  happens-Kept :
      (e : Event) (l : LogFile S)
      → Sound io taken l
      → (t : ℕ) × Kept io taken t (message e) l (happens io host e l)
  unfolding happens
  happens-Kept (appends now then_now msg) l s =
      (then_now, append-Kept v w host now then_now msg l s)
  happens-Kept flushes l s = (0, flush-Kept v w host 0 l s (inr (omega arith)))
  happens-Kept (rolls now) l s = (now, roll_file-Kept v w host now l s)

  joined-append :
      (fs gs : List (AppendFile S))
      → joined io taken (fs ++ gs) ≡ joined io taken fs ++ joined io taken gs
  joined-append [] gs = refl
  joined-append (f ∷ fs) gs =
      ap (λ (bs : List ℕ). taken f.fp ++ bs) (joined-append fs gs)
      ∙ sym (append_assoc (taken f.fp) (joined io taken fs) (joined io taken gs))

  abbrev pub Whole : List ℕ → ℕ → Result S → Type 0
  Whole bytes since o =
      (closed : List (AppendFile S)) × (m : LogFile S) × (o ≡ some (closed, m))
      × (joined io taken closed ++ current io taken m.file ≡ bytes)
      × (length closed + since ≤ m.last_roll)

  run-Whole :
      (es : List Event) (l : LogFile S)
      → Sound io taken l
      → Whole (current io taken l.file ++ messages es) l.last_roll (run io host es l)
  unfolding run
  run-Whole [] l s = ([], l, refl, sym (append-nil (current io taken l.file)), omega arith)
  run-Whole (e ∷ es) l s =
      let (t, kept) = happens-Kept e l s in
      let (closed, m, h, u, j, r, b) = kept in
      let (more, n, h', j', r') = run-Whole es m u in
      (
        closed ++ more,
        n,
        rw (h, h') refl,
        ap (λ (bs : List ℕ). bs ++ current io taken n.file) (joined-append closed more)
            ∙ append_assoc (joined io taken closed) (joined io taken more) (current io taken n.file)
            ∙ ap (λ (bs : List ℕ). joined io taken closed ++ bs) j'
            ∙ sym (append_assoc (joined io taken closed) (current io taken m.file) (messages es))
            ∙ ap (λ (bs : List ℕ). bs ++ messages es) j
            ∙ append_assoc (current io taken l.file) (message e) (messages es),
        omega (arith, length-append closed more, r, r'),
      )

  -- A log on streams that never fail, from its construction at a time after the epoch on, under any
  -- calls and clocks: its files, the closed ones and then the open one, hold exactly the bytes
  -- appended, in order, and no more files were closed than seconds passed.
  pub construct-Whole :
      (basename : List ℕ) (roll_size flush_interval check_every_n now : ℕ) (es : List Event)
      → has_slash basename ≡ false
      → 0 < now
      → Whole (messages es) now (
          construct io host basename roll_size flush_interval check_every_n now
          >>= (λ (closed, l). run io host es l))
  unfolding construct roll_file open_file
  construct-Whole basename roll_size flush_interval check_every_n now es plain later =
      let name = get_log_file_name host basename now in
      let (fp, h) = w.opens name in
      let empty = v.opened name fp h in
      let file : AppendFile S = record { fp = fp; written_bytes = 0 } in
      let l : LogFile S = record {
        basename = basename;
        roll_size = roll_size;
        flush_interval = flush_interval;
        check_every_n = check_every_n;
        count = 0;
        last_roll = now;
        last_flush = now;
        start_of_period = period now;
        file = some file;
      } in
      let s : Sound io taken l = record {
        output = file;
        is_open = refl;
        counted = rw empty refl;
        in_period = refl;
        flushed_since = omega arith;
        below = λ p. p;
      } in
      let (closed, m, o, j, r) = run-Whole es l s in
      rw (plain, lt→ltb 0 now later, h)
        (closed, m, o, j ∙ ap (λ (bs : List ℕ). bs ++ messages es) empty, r)
