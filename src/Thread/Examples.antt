-- ===== src/Thread/Examples.antt =====
-- netlib/base/Thread.cc: the starter waits, is woken and goes on.
use netlib.Base.{◌∷◌, [], refl, true, some, arith}
use netlib.CountDownLatch.{construct as construct_latch, wait, count_down, notify_all}
use netlib.Thread.{
  Thread, created, waiting, construct, set_default_name, start, test_latch, finish_start, tell_tid,
  count_latch, starts, tests, finishes, tells, counts, Reach, here, next,
}
use netlib.Thread.Awaited.{Awaits, Reach-Awaits}

abbrev thread : Thread
thread = (construct 6 (119 ∷ [])).0

abbrev begun : Thread
begun = record thread { started = true; phase = created; starter = waiting }

abbrev woken_up : Thread
woken_up = test_latch (count_latch (tell_tid 4711 (test_latch begun)))

begun-Reach : Reach thread (some begun)
unfolding construct set_default_name start
begun-Reach = next here (starts true refl)

woken_up-Reach : Reach thread (some woken_up)
unfolding construct set_default_name test_latch count_latch tell_tid wait construct_latch count_down
    notify_all netlib.Base.◌-ℤ◌
woken_up-Reach =
    next
      (next (next (next begun-Reach (tests refl tt)) (tells 4711 (ground arith) refl))
        (counts refl))
      (tests refl tt)

Reach-Awaits_example : Awaits (finish_start woken_up)
unfolding construct set_default_name test_latch count_latch tell_tid wait construct_latch count_down
    notify_all netlib.Base.◌-ℤ◌
Reach-Awaits_example = Reach-Awaits 6 (119 ∷ []) (next woken_up-Reach (finishes refl refl))
