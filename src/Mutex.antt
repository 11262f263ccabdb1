-- ===== src/Mutex.antt =====
-- netlib/base/Mutex.h and Condition.h: a mutex that records its holder, and threads that lock it and wait
-- on a condition. `owner` is the thread that pthreads gave the mutex to, which it does only while
-- nobody has it; `pthread_cond_wait` gives it up, and takes it again when it returns, at any time.
pub mod Held
mod Examples
use netlib.Base.{ℕ, ◌<◌, ◌≡◌, Bool, true, false, ◌==◌, Option, none, some, set_at}

-- Where a thread stands: without the mutex; with it, before `getHolder`; recorded; after `ungetHolder`
-- in `unlock`, or in a wait; asleep in that.
pub data Where : Type 0 where
  outside entering inside leaving dozing asleep : Where

pub record Mutex : Type 0 where
  pub owner : Option ℕ
  pub holder : ℕ
  pub at : ℕ → Where

unfoldable pub construct : Mutex
construct = record { owner = none; holder = 0; at = λ t. outside }

unfoldable pub is_locked_by_this_thread : ℕ → Mutex → Bool
is_locked_by_this_thread t m = t == m.holder

-- `pthread_mutex_lock` has returned.
unfoldable pub lock : ℕ → Mutex → Mutex
lock t m = record m { owner = some t; at = set_at t entering m.at }

unfoldable pub get_holder : ℕ → Mutex → Mutex
get_holder t m = record m { holder = t; at = set_at t inside m.at }

-- `ungetHolder`, in `unlock` or in a wait.
unfoldable pub unget_holder : Where → ℕ → Mutex → Mutex
unget_holder w t m = record m { holder = 0; at = set_at t w m.at }

-- `pthread_mutex_unlock`, and `pthread_cond_wait` that goes to sleep.
unfoldable pub unlock : Where → ℕ → Mutex → Mutex
unlock w t m = record m { owner = none; at = set_at t w m.at }

-- What a thread does next. A thread that awakes from a wait takes the mutex and is recorded again.
pub data Step (m : Mutex) : Mutex → Type 0 where
  locks : (t : ℕ) → m.owner ≡ none → m.at t ≡ outside → Step m (lock t m)
  records : (t : ℕ) → m.at t ≡ entering → Step m (get_holder t m)
  unlocks : (t : ℕ) → m.at t ≡ inside → Step m (unget_holder leaving t m)
  leaves : (t : ℕ) → m.at t ≡ leaving → Step m (unlock outside t m)
  waits : (t : ℕ) → m.at t ≡ inside → Step m (unget_holder dozing t m)
  sleeps : (t : ℕ) → m.at t ≡ dozing → Step m (unlock asleep t m)
  awakes : (t : ℕ) → m.owner ≡ none → m.at t ≡ asleep → Step m (lock t m)

pub data Reach : Mutex → Type 0 where
  here : Reach construct
  next : {m n : Mutex} → Reach m → Step m n → Reach n
