-- ===== src/EventLoop/Examples.antt =====
-- netlib/net/EventLoop.cc: runs of the loop with another thread.
use netlib.Base.{
  ℕ, ◌≡◌, refl, true, false, some, ◌==◌, if◌then◌else◌, Bool-cases, inl, inr, zero, suc, List, [],
  ◌∷◌,
}
use netlib.EventLoop.{
  Loop, construct, start, queue_there, wake_there, poll_returns, handle_read, other_queues,
  other_wakes, polls, reads, Reach, here, next,
}
use netlib.EventLoop.Wakeup.{IsSound, Reach-IsSound}
use netlib.EventLoop.Dispatch.{
  Registered, idle, asking, in_map, Ask, removes, updates, ask_all, remove_chnnel, update_chnnel,
  dispatch,
}
use netlib.EventLoop.Handled.{Handles, dispatch-Handles}

-- Another thread queues two functors and wakes the loop once, the loop reads the descriptor, and
-- the second wake-up comes after.
abbrev two_queued : Loop
two_queued = queue_there 8 (queue_there 7 (start construct))

abbrev read_between : Loop
read_between = wake_there 0 (handle_read (poll_returns (wake_there 1 two_queued)))

read_between_reached : Reach (start construct) read_between
unfolding construct start queue_there wake_there poll_returns handle_read
read_between_reached =
    next
      (next
        (next (next (next (next here (other_queues 7)) (other_queues 8)) (other_wakes 1 refl))
          (polls refl))
        (reads refl))
      (other_wakes 0 refl)

Reach-IsSound_example : IsSound read_between
Reach-IsSound_example = Reach-IsSound read_between_reached

-- The first channel asks for nothing more and removes itself, and one that is not active.
abbrev callback : ℕ → List Ask
callback zero = []
callback (suc zero) = updates 1 false ∷ removes 1 ∷ removes 9 ∷ []
callback (suc (suc n)) = updates 2 true ∷ []

-- All channels are in the map, and the ninth asks for nothing.
abbrev watched : Registered
watched y = if y == 9 then idle else asking

watched-in_map : (y : ℕ) → in_map (watched y) ≡ true
watched-in_map y = elim (Bool-cases (y == 9)) [
  | inl ninth ↦ rw ninth refl
  | inr other ↦ rw other refl
]

nothing_fails :
    (s : Registered) × (dispatch callback (1 ∷ 2 ∷ []) (1 ∷ 2 ∷ []) watched
      ≡ some (s, true ∷ true ∷ []))
unfolding dispatch ask_all remove_chnnel update_chnnel
nothing_fails = (_, refl)

dispatch-Handles_example :
    Handles (1 ∷ 2 ∷ []) (dispatch callback (1 ∷ 2 ∷ []) (1 ∷ 2 ∷ []) watched)
dispatch-Handles_example =
    dispatch-Handles callback (1 ∷ 2 ∷ []) watched (refl, (refl, tt)) (λ y i. watched-in_map y)
