-- ===== src/Chnnel.antt =====
-- netlib/net/Chnnel.h and Chnnel.cc: a file descriptor's interest and the dispatch of what
-- happened on it. A mask of `poll.h` is kept as its named bits; no other bit is ever tested or set.
-- The store of channels and the poller that `update()` and `remove()` call are in Epoller.
mod Names
use netlib.Base.{Bool, true, false, not, ◌&&◌, ◌||◌, List, [], ◌∷◌, ◌++◌, ℕ, if◌then◌else◌}
use netlib.LogStream.{convert}

pub record Mask : Type 0 where
  pub pollin : Bool
  pub pollpri : Bool
  pub pollout : Bool
  pub pollerr : Bool
  pub pollhup : Bool
  pub pollnval : Bool
  pub pollrdhup : Bool
  pub pollwrband : Bool

-- `cNonEvent`
abbrev pub no_event : Mask
no_event = record {
  pollin = false;
  pollpri = false;
  pollout = false;
  pollerr = false;
  pollhup = false;
  pollnval = false;
  pollrdhup = false;
  pollwrband = false;
}

-- Epoller's mark on a channel: `cNew`, `cAdded`, `cDeleted`.
pub data Flag : Type 0 where
  new added deleted : Flag

-- Which callbacks are set, and whether the tied object is still alive.
pub record Chnnel : Type 0 where
  pub fd : ℕ
  pub events : Mask
  pub revents : Mask
  pub flag : Flag
  pub added_to_loop : Bool
  pub tied : Bool
  pub tie_alive : Bool
  pub has_error : Bool
  pub has_write : Bool
  pub has_read : Bool
  pub has_close : Bool

unfoldable pub construct : ℕ → Chnnel
construct fd = record {
  fd = fd;
  events = no_event;
  revents = no_event;
  flag = new;
  added_to_loop = false;
  tied = false;
  tie_alive = false;
  has_error = false;
  has_write = false;
  has_read = false;
  has_close = false;
}

unfoldable pub is_writing : Mask → Bool
is_writing m = m.pollout

unfoldable pub is_reading : Mask → Bool
is_reading m = m.pollin || m.pollpri

unfoldable pub is_none_event : Mask → Bool
is_none_event m = not (
    m.pollin || m.pollpri || m.pollout || m.pollerr || m.pollhup || m.pollnval || m.pollrdhup
    || m.pollwrband)

-- What `enableReading`, `disableReading`, … do to `_events` before they call `update()`.
unfoldable pub enable_reading : Mask → Mask
enable_reading m = record m { pollin = true; pollpri = true }

unfoldable pub disable_reading : Mask → Mask
disable_reading m = record m { pollin = false; pollpri = false }

unfoldable pub enable_writing : Mask → Mask
enable_writing m = record m { pollout = true }

unfoldable pub disable_writing : Mask → Mask
disable_writing m = record m { pollout = false }

-- `tie`, and its object going away.
unfoldable pub tie : Chnnel → Chnnel
tie c = record c { tied = true; tie_alive = true }

pub data CallBack : Type 0 where
  on_error on_close on_read on_write : CallBack

abbrev when : Bool → CallBack → List CallBack
when b k = if b then k ∷ [] else []

-- The callbacks that `handleEventWithGuard` makes, in their order.
unfoldable pub handle_event_with_guard : Chnnel → List CallBack
handle_event_with_guard c =
    when ((c.revents.pollnval || c.revents.pollerr) && c.has_error) on_error
    ++ (when (c.revents.pollhup && not c.revents.pollin && c.has_close) on_close
        ++ (when ((c.revents.pollin || c.revents.pollpri || c.revents.pollrdhup) && c.has_read)
              on_read
            ++ when ((c.revents.pollout || c.revents.pollwrband) && c.has_write) on_write))

unfoldable pub handle_event : Chnnel → List CallBack
unfolding handle_event_with_guard
handle_event c =
    if c.tied
    then (if c.tie_alive then handle_event_with_guard c else [])
    else handle_event_with_guard c

-- The tests of `eventsToString`, in their order, with the texts.
abbrev pub flags : Mask → List Bool
flags m = m.pollin ∷ m.pollpri ∷ m.pollout ∷ m.pollhup ∷ m.pollrdhup ∷ m.pollerr ∷ m.pollnval ∷ []

abbrev pub flag_names : List (List ℕ)
flag_names =
    (73 ∷ 78 ∷ 32 ∷ [])
    ∷ (80 ∷ 82 ∷ 73 ∷ 32 ∷ [])
    ∷ (79 ∷ 85 ∷ 84 ∷ 32 ∷ [])
    ∷ (72 ∷ 85 ∷ 80 ∷ 32 ∷ [])
    ∷ (82 ∷ 68 ∷ 72 ∷ 85 ∷ 80 ∷ 32 ∷ [])
    ∷ (69 ∷ 82 ∷ 82 ∷ 32 ∷ [])
    ∷ (78 ∷ 86 ∷ 65 ∷ 76 ∷ 32 ∷ [])
    ∷ []

abbrev pub flag_texts : List Bool → List (List ℕ) → List ℕ
flag_texts [] names = []
flag_texts (b ∷ bs) [] = []
flag_texts (b ∷ bs) (name ∷ names) = (if b then name else []) ++ flag_texts bs names

unfoldable pub events_to_string : ℕ → Mask → List ℕ
events_to_string fd m = convert false fd ++ 58 ∷ flag_texts (flags m) flag_names
