-- ===== src/LogFile/Roll.antt =====
-- netlib/base/LogFile.cc: over all its files, the log holds every byte that was appended, in order.
use netlib.Base.{
  ℕ, ◌+◌, ◌≤◌, ◌<◌, ◌≡◌, refl, sym, ap, subst, ◌∙◌, ◌⊎◌, inl, inr, ltb, leb, ◌==◌, Bool-cases,
  Option, none, some, List, [], ◌∷◌, ◌++◌, append-nil, length, length-append, take_all, arith,
}
use netlib.FileUtil.{
  Stdio, AppendFile, append as append_file, construct as open_file, flush as flush_file,
}
use netlib.FileUtil.Loop.{IsStdio, append-Returns}
use netlib.LogFile.{
  Host, LogFile, Result, period, get_log_file_name, roll_file, flush, checked, append,
}

-- Streams that never fail.
pub record Works {S : Type 0} (io : Stdio S) : Type 0 where
  pub opens : (name : List ℕ) → (fp : S) × (io.fopen name ≡ some fp)
  pub error_free : (fp : S) → io.ferror fp ≡ 0

module _ {S : Type 0} (io : Stdio S) (taken : S → List ℕ) where
  abbrev pub joined : List (AppendFile S) → List ℕ
  joined [] = []
  joined (f ∷ fs) = taken f.fp ++ joined fs

  abbrev pub current : Option (AppendFile S) → List ℕ
  current none = []
  current (some f) = taken f.fp

  -- A file is open and its bytes are counted; the period is that of the last roll; the count is
  -- below that of a check.
  pub record Sound (l : LogFile S) : Type 0 where
    pub output : AppendFile S
    pub is_open : l.file ≡ some output
    pub counted : output.written_bytes ≡ length (taken output.fp)
    pub in_period : l.start_of_period ≡ period l.last_roll
    pub flushed_since : l.last_roll ≤ l.last_flush
    pub below : 0 < l.check_every_n → l.count < l.check_every_n

  abbrev Bounded : ℕ → LogFile S → Type 0
  Bounded t l = (length (current l.file) ≤ l.roll_size) ⊎ (t ≤ l.last_roll)

  abbrev pub Kept : ℕ → List ℕ → LogFile S → Result S → Type 0
  Kept t msg l o =
      (closed : List (AppendFile S)) × (m : LogFile S) × (o ≡ some (closed, m))
      × Sound m
      × (joined closed ++ current m.file ≡ current l.file ++ msg)
      × (length closed + l.last_roll ≤ m.last_roll)
      × Bounded t m

module _ {S : Type 0} {io : Stdio S} {taken : S → List ℕ} (v : IsStdio io taken) (w : Works io)
    (host : Host) where
  pub roll_file-Kept :
      (now : ℕ) (l : LogFile S)
      → Sound io taken l
      → Kept io taken now [] l (roll_file io host now l)
  unfolding roll_file open_file
  roll_file-Kept now l s = elim (Bool-cases (ltb l.last_roll now)) [
    | inl later ↦
        let name = get_log_file_name host l.basename now in
        let (fp, h) = w.opens name in
        let empty = v.opened name fp h in
        rw (later, h, s.is_open)
          (
            s.output ∷ [],
            record l {
              last_roll = now;
              last_flush = now;
              start_of_period = period now;
              file = some (record { fp = fp; written_bytes = 0 });
            },
            refl,
            record {
              output = record { fp = fp; written_bytes = 0 };
              is_open = refl;
              counted = rw empty refl;
              in_period = refl;
              flushed_since = omega arith;
              below = s.below;
            },
            rw empty (append-nil (taken s.output.fp ++ [])),
            ground (arith, later),
            inl (rw empty (omega arith)),
          )
    | inr early ↦ rw early (
      [],
      l,
      refl,
      s,
      sym (append-nil (current io taken l.file)),
      omega arith,
      inr (ground (arith, early)),
    )
  ]

  pub flush-Kept :
      (t : ℕ) (l : LogFile S)
      → Sound io taken l
      → Bounded io taken t l
      → Kept io taken t [] l (flush io host l)
  unfolding flush flush_file
  flush-Kept t l s b =
      let f = s.output in
      let same = v.flushed f.fp in
      let b' : (length (taken f.fp) ≤ l.roll_size) ⊎ (t ≤ l.last_roll) =
        subst (λ o. (length (current io taken o) ≤ l.roll_size) ⊎ (t ≤ l.last_roll)) s.is_open b in
      rw s.is_open (
        [],
        record l { file = some (record f { fp = io.fflush f.fp }) },
        refl,
        record {
          output = record f { fp = io.fflush f.fp };
          is_open = refl;
          counted = rw same s.counted;
          in_period = s.in_period;
          flushed_since = s.flushed_since;
          below = s.below;
        },
        rw same (sym (append-nil (taken f.fp))),
        omega arith,
        rw same b',
      )

  checked-Kept :
      (now then_now : ℕ) (l : LogFile S)
      → Sound io taken l
      → Bounded io taken then_now l
      → Kept io taken then_now [] l (checked io host now then_now l)
  unfolding checked
  checked-Kept now then_now l s b = elim (Bool-cases (period now == l.start_of_period)) [
    | inr passed ↦ rw passed (roll_file-Kept then_now l s)
    | inl same ↦ rw same (elim (Bool-cases (ltb (l.last_flush + l.flush_interval) now)) [
      | inl due ↦ rw due (
          flush-Kept then_now (record l { last_flush = now })
            (record {
              output = s.output;
              is_open = s.is_open;
              counted = s.counted;
              in_period = s.in_period;
              flushed_since = ground (arith, due, s.flushed_since);
              below = s.below;
            })
            b)
      | inr recent ↦
          rw recent ([], l, refl, s, sym (append-nil (current io taken l.file)), omega arith, b)
    ])
  ]

  -- All of a message goes to the file that is open.
  append_file-all :
      (msg : List ℕ) (f : AppendFile S)
      → (g : AppendFile S) × (append_file io msg f ≡ some g)
        × (g.written_bytes ≡ f.written_bytes + length msg)
        × (taken g.fp ≡ taken f.fp ++ msg)
  append_file-all msg f =
      let (g, n, k, o, wb, le, few, t, out) = append-Returns v msg f in
      let all : n ≡ length msg = elim out [
        | inl e ↦ e
        | inr bad ↦ absurd (bad (w.error_free g.fp))
      ] in
      (
        g,
        o,
        wb ∙ ap (λ (i : ℕ). f.written_bytes + i) all,
        t ∙ ap (λ (bs : List ℕ). taken f.fp ++ bs) (take_all k msg (omega (arith, all, le))),
      )

  -- What follows the writing keeps what was written.
  after_writing :
      (t : ℕ) (msg : List ℕ) (l m : LogFile S) (o : Result S)
      → current io taken m.file ≡ current io taken l.file ++ msg
      → m.last_roll ≡ l.last_roll
      → Kept io taken t [] m o
      → Kept io taken t msg l o
  after_writing t msg l m o e r (closed, n, h, s, j, le, b) =
      (closed, n, h, s, j ∙ append-nil (current io taken m.file) ∙ e, omega (arith, le, r), b)

  -- One message, on streams that never fail: no null file is followed, all of the message is behind
  -- what was in the log, and afterwards the open file is within the rolling size, unless it was made
  -- in this second or later.
  pub append-Kept :
      (now then_now : ℕ) (msg : List ℕ) (l : LogFile S)
      → Sound io taken l
      → Kept io taken then_now msg l (append io host now then_now msg l)
  unfolding append
  append-Kept now then_now msg l s =
      let (g, h, wb, t) = append_file-all msg s.output in
      let m = record l { file = some g } in
      let counted : g.written_bytes ≡ length (taken g.fp) =
        rw t (omega (arith, length-append (taken s.output.fp) msg, wb, s.counted)) in
      let sound : (c : ℕ)
          → (0 < l.check_every_n → c < l.check_every_n)
          → Sound io taken (record m { count = c }) =
        λ c below. record {
          output = g;
          is_open = refl;
          counted = counted;
          in_period = s.in_period;
          flushed_since = s.flushed_since;
          below = below;
        } in
      let base = record l { file = some s.output } in
      rw (s.is_open, h)
        (elim (Bool-cases (ltb l.roll_size g.written_bytes)) [
          | inl over ↦ rw over (
              after_writing then_now msg base m (roll_file io host then_now m) t refl
                (roll_file-Kept then_now m (sound l.count s.below)))
          | inr within ↦
              let b : length (taken g.fp) ≤ l.roll_size = ground (arith, within, counted) in
              rw within (elim (Bool-cases (leb l.check_every_n (l.count + 1))) [
                | inl check ↦ rw check (
                    after_writing then_now msg base (record m { count = 0 })
                      (checked io host now then_now (record m { count = 0 })) t refl
                      (checked-Kept now then_now (record m { count = 0 }) (sound 0 (λ p. p))
                        (inl b)))
                | inr early ↦ rw early (
                  [],
                  record m { count = l.count + 1 },
                  refl,
                  sound (l.count + 1) (λ p. ground (arith, early)),
                  t,
                  omega arith,
                  inl b,
                )
              ])
        ])
