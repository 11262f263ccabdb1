-- ===== src/EventLoop/Dispatch.antt =====
-- netlib/net/EventLoop.cc: the channels of one round. `registered` says what the poller has.
-- A callback is the list of what it asks of the loop; a functor is one too, run when no event is
-- handled. A failed assertion is `none`.
use netlib.Base.{
  ℕ, Bool, true, false, not, ◌||◌, ◌==◌, if◌then◌else◌, Option, none, some, ◌>>=◌, ◌>>◌, assert,
  List, [], ◌∷◌, set_at,
}

-- `_eventHandle`, `_currentActiveChnnel` and `_activeChnnels`.
pub record Active : Type 0 where
  pub event_handle : Bool
  pub current : Option ℕ
  pub chnnels : List ℕ

-- What the poller knows of a channel: not in its map; in it, asking for no event; in it, asking for
-- some.
pub data Watch : Type 0 where
  unknown idle asking : Watch

abbrev pub Registered : Type 0
Registered = ℕ → Watch

abbrev pub in_map : Watch → Bool
in_map unknown = false
in_map idle = true
in_map asking = true

abbrev pub is_idle : Watch → Bool
is_idle unknown = false
is_idle idle = true
is_idle asking = false

-- `std::find`
abbrev pub is_in : ℕ → List ℕ → Bool
is_in x [] = false
is_in x (y ∷ ys) = x == y || is_in x ys

abbrev pub at_hand : ℕ → Option ℕ → Bool
at_hand x none = false
at_hand x (some c) = x == c

-- With the assertions of `Epoller::removeChnnel`: the channel is in the map and asks for no event; its
-- flag is then that of one that was added.
unfoldable pub remove_chnnel : Active → ℕ → Registered → Option Registered
remove_chnnel a x r =
    assert (not a.event_handle || (at_hand x a.current || not (is_in x a.chnnels)))
    >> (assert (in_map (r x)) >> (assert (is_idle (r x)) >> some (set_at x unknown r)))

-- With whether the channel asks for any event.
unfoldable pub update_chnnel : ℕ → Bool → Registered → Registered
update_chnnel x asks r = set_at x (if asks then asking else idle) r

pub data Ask : Type 0 where
  removes : ℕ → Ask
  updates : ℕ → Bool → Ask

unfoldable pub ask_all : Active → List Ask → Registered → Option Registered
ask_all a [] r = some r
ask_all a (removes x ∷ more) r = remove_chnnel a x r >>= (λ q. ask_all a more q)
ask_all a (updates x b ∷ more) r = ask_all a more (update_chnnel x b r)

-- The `for` over `_activeChnnels`, and whether each channel was registered when its events were
-- handled.
unfoldable pub dispatch :
    (ℕ → List Ask) → List ℕ → List ℕ → Registered → Option (Registered × List Bool)
dispatch callback active [] r = some (r, [])
dispatch callback active (c ∷ cs) r = do
  q ← ask_all (record { event_handle = true; current = some c; chnnels = active }) (callback c) r
  (s, log) ← dispatch callback active cs q
  some (s, in_map (r c) ∷ log)

-- The functors behind it.
unfoldable pub run_functors : List ℕ → List Ask → Registered → Option Registered
run_functors active functors r =
    ask_all (record { event_handle = false; current = none; chnnels = active }) functors r
