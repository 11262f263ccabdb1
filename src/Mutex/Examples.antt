-- ===== src/Mutex/Examples.antt =====
-- netlib/base/Mutex.h and Condition.h: one thread waits on a condition, another takes the mutex.
use netlib.Base.{refl}
use netlib.Mutex.{
  dozing, asleep, Mutex, construct, lock, get_holder, unget_holder, unlock, locks, records, waits,
  sleeps, Reach, here, next,
}
use netlib.Mutex.Held.{IsHeld, Reach-IsHeld}

-- Thread 1 has locked the mutex and sleeps in a wait.
abbrev waiting : Mutex
waiting = unlock asleep 1 (unget_holder dozing 1 (get_holder 1 (lock 1 construct)))

-- Thread 2 has it.
abbrev taken : Mutex
taken = get_holder 2 (lock 2 waiting)

taken-Reach : Reach taken
unfolding construct lock get_holder unget_holder unlock
taken-Reach =
    next
      (next
        (next (next (next (next here (locks 1 refl refl)) (records 1 refl)) (waits 1 refl))
          (sleeps 1 refl))
        (locks 2 refl refl))
      (records 2 refl)

Reach-IsHeld_example : IsHeld taken
Reach-IsHeld_example = Reach-IsHeld taken-Reach
