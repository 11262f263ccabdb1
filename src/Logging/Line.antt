-- ===== src/Logging/Line.antt =====
-- netlib/base/Logging.cc: the line that a statement makes, and its way into AsyncLogging.
use netlib.Base.{
  ◌+◌, ◌/◌, ◌%◌, ◌^◌, ◌<◌, ◌≤◌, ◌≡◌, refl, sym, ap, ◌∙◌, inl, inr, Bool, true, false, if◌then◌else◌,
  ℤ, Option, some, ◌>>=◌, List, [], ◌∷◌, ◌++◌, append_assoc, append-nil, length, length-append,
  take, All, arith,
}
use netlib.LogStream.{Item, integer, string, text, is_numeric}
use netlib.LogStream.Fits.{Prints, too_little, insert-Whole}
use netlib.AsyncLogging.Lines.{Logger, Sound, Succeeds, appends, happens, happens-Logs}
use netlib.TimeZone.{Tm, Data, LowerBound}
use netlib.Logging.{
  Bytes, Level, level_name, calendar_text, micro_text, Cache, calendar, tid_string, finish, Macro,
  logger_of, func_items, outputs, ends, small_buffer, large_buffer, insert_all, Moment, Place,
  logger, log, trace, debug, info, warn, error, fatal,
}
use netlib.Logging.Stamp.{IsTm, IsCached, format_time-Stamped}

abbrev pub texts : List Item → Bytes
texts [] = []
texts (i ∷ is) = text i ++ texts is

abbrev AllPrint : List Item → Type 0
AllPrint is = All Prints is

texts-append : (is js : List Item) → texts (is ++ js) ≡ texts is ++ texts js
texts-append [] js = refl
texts-append (i ∷ is) js =
    ap (λ (t : Bytes). text i ++ t) (texts-append is js)
    ∙ sym (append_assoc (text i) (texts is) (texts js))

AllPrint-append : (is js : List Item) → AllPrint is → AllPrint js → AllPrint (is ++ js)
AllPrint-append [] js a b = b
AllPrint-append (i ∷ is) js (p, a) b = (p, AllPrint-append is js a b)

too_little-le : (b : Bool) (cs : Bytes) → too_little b cs ≤ 31 + length cs
too_little-le true cs = omega arith
too_little-le false cs = omega arith

-- Items that are put into the stream: it never overflows.
insert_all-Bounded :
    (is : List Item) (b : Bytes)
    → AllPrint is
    → length b ≤ small_buffer
    → (c : Bytes) × (insert_all is b ≡ some c) × (length c ≤ small_buffer)
unfolding insert_all
insert_all-Bounded [] b a h = (b, refl, h)
insert_all-Bounded (i ∷ is) b (p, a) h =
    let (c, e, whole, n) = insert-Whole small_buffer i b h p in
    let (d, e', m) = insert_all-Bounded is c a n in (d, rw e e', m)

-- Items for which there is room are there, one behind the other.
insert_all-texts :
    (is : List Item) (b : Bytes)
    → AllPrint is
    → length b + length (texts is) + 32 ≤ small_buffer
    → insert_all is b ≡ some (b ++ texts is)
unfolding insert_all
insert_all-texts [] b a h = ap some (sym (append-nil b))
insert_all-texts (i ∷ is) b (p, a) h =
    let len = length-append (text i) (texts is) in
    let (c, e, whole, n) = insert-Whole small_buffer i b (omega (arith, h)) p in
    elim whole [
      | inr (same, full) ↦
          absurd (omega (arith, full, len, h, too_little-le (is_numeric i) (text i)))
      | inl there ↦
          let room : length (b ++ text i) + length (texts is) + 32 ≤ small_buffer =
            omega (arith, len, h, length-append b (text i)) in
          rw (e, there)
            (insert_all-texts is (b ++ text i) a room
              ∙ ap some (append_assoc b (text i) (texts is)))
    ]

length-level_name : (l : Level) → length (level_name l) ≡ 6
length-level_name trace = refl
length-level_name debug = refl
length-level_name info = refl
length-level_name warn = refl
length-level_name error = refl
length-level_name fatal = refl

-- The name of the function and a space, in the statements that have it.
abbrev pub func_text : Bool → Bytes → Bytes
func_text with_func func = if with_func then func ++ 32 ∷ [] else []

texts-func_items : (b : Bool) (func : Bytes) → texts (func_items b func) ≡ func_text b func
unfolding text
texts-func_items true func = refl
texts-func_items false func = refl

AllPrint-func_items : (b : Bool) (func : Bytes) → AllPrint (func_items b func)
AllPrint-func_items true func = (tt, (tt, tt))
AllPrint-func_items false func = tt

-- " - ", the file, ":", the line and the end of the line.
abbrev pub place_text : Place → Bytes
place_text p =
    32 ∷ 45 ∷ 32 ∷ (take p.file.size p.file.text ++ (58 ∷ text (integer false p.line) ++ 10 ∷ []))

module _ (zone : Option Data) (t : Tm) (m : Moment) (p : Place) (level : Level) (with_func : Bool)
    (body : List Item) where
  abbrev pub items : List Item
  items =
      string (calendar_text t)
        ∷ string (micro_text zone (m.micros % 1000000))
        ∷ string (tid_string m.tid)
        ∷ string (level_name level)
        ∷ func_items with_func p.func
      ++ (body ++ finish p.file p.line)

  -- A line of the log: date and time, thread, level, function, message, place.
  abbrev pub line_text : Bytes
  line_text =
      calendar_text t
      ++ (micro_text zone (m.micros % 1000000)
          ++ (tid_string m.tid
              ++ (level_name level
                  ++ (func_text with_func p.func ++ (texts body ++ place_text p)))))

  texts-items : texts items ≡ line_text
  unfolding text finish
  texts-items =
      rw
        (
          texts-append (func_items with_func p.func) (body ++ finish p.file p.line),
          texts-append body (finish p.file p.line),
          texts-func_items with_func p.func,
        )
        refl

  AllPrint-items : AllPrint body → p.line < 2 ^ 64 → AllPrint items
  unfolding finish
  AllPrint-items a h =
      let place : AllPrint (finish p.file p.line) = (tt, (tt, (tt, (h, (tt, tt))))) in
      (
        tt,
        (
          tt,
          (
            tt,
            (
              tt,
              AllPrint-append (func_items with_func p.func) (body ++ finish p.file p.line)
                  (AllPrint-func_items with_func p.func)
                  (AllPrint-append body (finish p.file p.line) a place),
            ),
          ),
        ),
      )

module _ (lower_bound : LowerBound) (gmtime : ℤ → Tm) (zone : Option Data) where
  -- A statement at a time after the first second of the epoch, on a calendar with years of four
  -- digits, with items of at most 64 bits.
  pub record CanLog (m : Moment) (p : Place) (body : List Item) (c : Cache) (t : Tm) : Type 0 where
    pub cached : IsCached lower_bound gmtime zone c
    pub later : 0 < m.micros / 1000000
    pub date : calendar lower_bound gmtime zone (m.micros / 1000000) ≡ some t
    pub valid : IsTm t
    pub prints : AllPrint body
    pub line_lt : p.line < 2 ^ 64

  module _ (g : Level) (m : Moment) (p : Place) (macro : Macro) (body : List Item) (c : Cache)
      (t : Tm) (level : Level) (with_func : Bool) (v : CanLog m p body c t)
      (on : logger_of g macro ≡ some (level, with_func)) where
    log-items :
        (d : Cache) × IsCached lower_bound gmtime zone d
        × (log lower_bound gmtime zone g m p macro body c ≡ (
            insert_all (items zone t m p level with_func body) []
            >>= (λ line. some (d, outputs line ∷ ends level))))
    unfolding log logger
    log-items =
        let (d, w, e) =
          format_time-Stamped lower_bound gmtime zone m.micros c t v.cached v.later v.date
            v.valid in
        (d, w, rw (on, e, length-level_name level) refl)

    -- A statement whose level is on, and whose line leaves room for 32 bytes more: the line is given
    -- out, with all its parts in their order, and a fatal one then flushes and aborts.
    pub log-Line :
        length (line_text zone t m p level with_func body) + 32 ≤ small_buffer
        → (d : Cache) × IsCached lower_bound gmtime zone d
          × (log lower_bound gmtime zone g m p macro body c
              ≡ some (d, outputs (line_text zone t m p level with_func body) ∷ ends level))
    log-Line room =
        let (d, w, e) = log-items in
        let line = texts-items zone t m p level with_func body in
        let whole =
          insert_all-texts (items zone t m p level with_func body) []
            (AllPrint-items zone t m p level with_func body v.prints v.line_lt)
            (omega (arith, ap length line, room)) in
        (d, w, e ∙ rw (whole, line) refl)

    -- A statement whose level is on, of any length: its line is shorter than a buffer of
    -- AsyncLogging, which takes it whole, whatever is in its buffers and its writer's hands.
    pub log-Delivers :
        (lines : Bytes) (s : Logger)
        → Sound lines s
        → (d : Cache) × (line : Bytes) × (log lower_bound gmtime zone g m p macro body c
            ≡ some (d, outputs line ∷ ends level))
          × Succeeds (lines ++ line) (happens large_buffer (appends line) s)
    log-Delivers lines s sound =
        let (d, w, e) = log-items in
        let (line, made, short) =
          insert_all-Bounded (items zone t m p level with_func body) []
            (AllPrint-items zone t m p level with_func body v.prints v.line_lt) (omega arith) in
        (
          d,
          line,
          e ∙ rw made refl,
          happens-Logs large_buffer (appends line) lines s sound (omega (arith, short)),
        )
