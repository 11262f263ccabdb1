-- ===== src/AsyncLogging/Life.antt =====
-- netlib/base/AsyncLogging.cc: what a logger does from `start` to the end of `stop`.
use netlib.Base.{
  ℕ, ◌≤◌, ◌<◌, ◌≡◌, ◌≢◌, refl, sym, ap, ◌∙◌, subst, Bool, true, false, if◌then◌else◌, Option, none,
  some, [], ◌++◌, append-nil, length, Bool-cases, Option-cases, inl, inr,
}
use netlib.AsyncLogging.{Bytes, Logging, construct_writer, concat, collect, append, write_out}
use netlib.AsyncLogging.Lines.{
  Logger, Stands, appends, collects, writes, happens, Sound, happens-Logs, start-Sound,
}
use netlib.AsyncLogging.Service.{
  Where, unborn, testing, waiting, writing, ended, Service, construct_service, start, test_running,
  take_buffers, write_buffers, append_line, stop, finish_stop, destroy, Act, starts, tests, takes,
  stops, destroys, joins, logs, writes_out, act, logged, CanAct,
}

-- Out of the locked block's round everything that was taken is written and flushed.
abbrev pub Settled : Where → Bytes → Logger → Type 0
Settled unborn f l = (l.writing ≡ false) × (f ≡ l.back.written)
Settled testing f l = (l.writing ≡ false) × (f ≡ l.back.written)
Settled waiting f l = (l.writing ≡ false) × (f ≡ l.back.written)
Settled writing f l = l.writing ≡ true
Settled ended f l = (l.writing ≡ false) × (f ≡ l.back.written)

pub record Serves (lines : Bytes) (s : Service) : Type 0 where
  pub sound : Sound lines s.logger
  pub settled : Settled s.at s.flushed s.logger
  pub stopped : s.at ≡ ended → s.running ≡ false
  pub over : s.joined ≡ true → s.at ≡ ended

abbrev pub Continues : Bytes → Option Service → Type 0
Continues lines (some s) = Serves lines s
Continues lines none = ⊥

Settled-quiet :
    (w : Where) (f : Bytes) (l : Logger)
    → w ≢ writing
    → Settled w f l
    → (l.writing ≡ false) × (f ≡ l.back.written)
Settled-quiet unborn f l n h = h
Settled-quiet testing f l n h = h
Settled-quiet waiting f l n h = h
Settled-quiet writing f l n h = absurd (n refl)
Settled-quiet ended f l n h = h

Settled-writing :
    (w : Where) (f : Bytes) (l : Logger) → w ≡ writing → Settled w f l → l.writing ≡ true
Settled-writing unborn f l e h = absurd cc
Settled-writing testing f l e h = absurd cc
Settled-writing waiting f l e h = absurd cc
Settled-writing writing f l e h = h
Settled-writing ended f l e h = absurd cc

Settled-front :
    (w : Where) (f : Bytes) (l : Logger) (g : Logging)
    → Settled w f l
    → Settled w f (record l { front = g })
Settled-front unborn f l g h = h
Settled-front testing f l g h = h
Settled-front waiting f l g h = h
Settled-front writing f l g h = h
Settled-front ended f l g h = h

-- What each step leaves of a logger.
module _ (size : ℕ) (l m : Logger) where
  collects-marks : happens size collects l ≡ some m → m.writing ≡ true
  unfolding happens
  collects-marks e = elim (Option-cases (collect l.front l.back)) [
    | inl failed ↦ absurd (cc (rw failed at e))
    | inr (r, took) ↦
        let h : some (record { front = r.0; back = r.1; writing = true }) ≡ some m = rw took at e in
        let same : record { front = r.0; back = r.1; writing = true } ≡ m = cc h in
        sym (ap (λ (x : Logger). x.writing) same)
  ]

  writes-marks : happens size writes l ≡ some m → m.writing ≡ false
  unfolding happens
  writes-marks e = elim (Option-cases (write_out l.back)) [
    | inl failed ↦ absurd (cc (rw failed at e))
    | inr (b, took) ↦
        let h : some (record l { back = b; writing = false }) ≡ some m = rw took at e in
        let same : record l { back = b; writing = false } ≡ m = cc h in
        sym (ap (λ (x : Logger). x.writing) same)
  ]

  appends-marks :
      (msg : Bytes)
      → happens size (appends msg) l ≡ some m
      → (g : Logging) × (record l { front = g } ≡ m)
  unfolding happens
  appends-marks msg e = elim (Option-cases (append size msg l.front)) [
    | inl failed ↦ absurd (cc (rw failed at e))
    | inr (g, took) ↦ let h : some (record l { front = g }) ≡ some m = rw took at e in (g, cc h)
  ]

nothing : (lines : Bytes) (o : Option Service) → Continues lines o → Continues (lines ++ []) o
nothing lines o c = subst (λ ls. Continues ls o) (sym (append-nil lines)) c

module _ (size : ℕ) (lines : Bytes) (s : Service) (v : Serves lines s) where
  starts-Continues : s.at ≡ unborn → Continues lines (start s)
  unfolding start
  starts-Continues e = rw e (record {
    sound = v.sound;
    settled = Settled-quiet s.at s.flushed s.logger (λ h. cc (e, h)) v.settled;
    stopped = λ h. absurd (cc h);
    over = λ j. absurd (cc (v.over j, e));
  })

  tests-Continues : s.at ≡ testing → Serves lines (test_running s)
  unfolding test_running
  tests-Continues e =
      let (q, f) = Settled-quiet s.at s.flushed s.logger (λ h. cc (e, h)) v.settled in
      elim (Bool-cases s.running) [
        | inl on ↦ rw on (record {
          sound = v.sound;
          settled = (q, f);
          stopped = λ h. absurd (cc h);
          over = λ j. absurd (cc (v.over j, e));
        })
        | inr off ↦
            rw off (record {
              sound = v.sound;
              settled = (q, refl);
              stopped = λ h. refl;
              over = λ j. refl;
            })
      ]

  takes-Continues : s.at ≡ waiting → Continues (lines ++ []) (take_buffers size s)
  unfolding take_buffers
  takes-Continues e =
      let (q, _) = Settled-quiet s.at s.flushed s.logger (λ h. cc (e, h)) v.settled in
      let (l, done, sound) = happens-Logs size collects lines s.logger v.sound q in
      rw done (record {
        sound = sound;
        settled = collects-marks size s.logger l done;
        stopped = λ h. absurd (cc h);
        over = λ j. absurd (cc (v.over j, e));
      })

  writes-Continues :
      s.at ≡ writing
      → length s.logger.back.to_write ≤ 25
      → Continues (lines ++ []) (write_buffers size s)
  unfolding write_buffers
  writes-Continues e few =
      let q = Settled-writing s.at s.flushed s.logger e v.settled in
      let (l, done, sound) = happens-Logs size writes lines s.logger v.sound (q, few) in
      rw done (record {
        sound = sound;
        settled = (writes-marks size s.logger l done, refl);
        stopped = λ h. absurd (cc h);
        over = λ j. absurd (cc (v.over j, e));
      })

  logs-Continues :
      (msg : Bytes) → length msg < size → Continues (lines ++ msg) (append_line size msg s)
  unfolding append_line
  logs-Continues msg short =
      let (l, done, sound) = happens-Logs size (appends msg) lines s.logger v.sound short in
      let (g, same) = appends-marks size s.logger l msg done in
      rw done (record {
        sound = sound;
        settled =
            subst (Settled s.at s.flushed) same (Settled-front s.at s.flushed s.logger g v.settled);
        stopped = v.stopped;
        over = v.over;
      })

  stops-Continues : Serves lines (stop s)
  unfolding stop
  stops-Continues = record {
    sound = v.sound;
    settled = v.settled;
    stopped = λ _. refl;
    over = v.over;
  }

  destroys-Continues : (b : Bool) → Serves lines (if b then stop s else s)
  destroys-Continues true = stops-Continues
  destroys-Continues false = v

  joins-Continues : s.at ≡ ended → s.joined ≡ false → Continues lines (finish_stop s)
  unfolding finish_stop
  joins-Continues e once =
      rw once (record { sound = v.sound; settled = v.settled; stopped = v.stopped; over = λ _. e })

-- Whatever the threads do between one `start` and the end of one `stop`, in whatever order, with lines
-- shorter than a buffer, and at most 25 buffers in each round that writes: no assertion fails, also of
-- the thread, and no null buffer is used; outside a round everything that a round took is written and
-- flushed; `stop` comes to its end only when the thread has, and only `_running` ends it. What is
-- written, what the thread has in hand and what is held in front make up all the lines, in order.
pub act-Continues :
    (size : ℕ) (a : Act) (lines : Bytes) (s : Service)
    → Serves lines s
    → CanAct size a s
    → Continues (lines ++ logged a) (act size a s)
unfolding act destroy
act-Continues size starts lines s v c = nothing lines _ (starts-Continues size lines s v c)
act-Continues size tests lines s v c =
    nothing lines (act size tests s) (tests-Continues size lines s v c)
act-Continues size takes lines s v c = takes-Continues size lines s v c
act-Continues size stops lines s v c =
    nothing lines (act size stops s) (stops-Continues size lines s v)
act-Continues size destroys lines s v c =
    nothing lines (act size destroys s) (destroys-Continues size lines s v s.running)
act-Continues size joins lines s v (e, once) =
    nothing lines _ (joins-Continues size lines s v e once)
act-Continues size (logs msg) lines s v c = logs-Continues size lines s v msg c
act-Continues size writes_out lines s v (e, few) = writes-Continues size lines s v e few

construct_service-Serves : Serves [] construct_service
unfolding construct_service construct_writer
construct_service-Serves = record {
  sound = start-Sound;
  settled = (refl, refl);
  stopped = λ e. absurd (cc e);
  over = λ e. absurd (cc e);
}

-- When the thread has ended, the lines are those on file, and what was held in front, which is lost.
ended-Kept :
    (lines : Bytes) (s : Service) (v : Serves lines s)
    → s.at ≡ ended
    → s.flushed ++ v.sound.held ≡ lines
ended-Kept lines s v e =
    let (q, f) = Settled-quiet s.at s.flushed s.logger (λ h. cc (e, h)) v.settled in
    let (r, none_left) = subst (λ b. Stands b s.logger.back) q v.sound.stands in
    ap (λ (t : Bytes). t ++ v.sound.held) (f ∙ sym (append-nil s.logger.back.written))
    ∙ ap (λ bs. (s.logger.back.written ++ concat bs) ++ v.sound.held) (sym none_left)
    ∙ v.sound.all
