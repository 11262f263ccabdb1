-- ===== src/EventLoopThreadPool.antt =====
-- netlib/net/EventLoopThreadPool.cc: the loops of a server's threads, and the choice of one.
-- A loop is a number; `start_loop` is the loop that EventLoopThread starts for the i-th thread. `none` is a failed
-- assertion or an index out of range.
pub mod Turns
mod Initial
mod Examples
use netlib.Base.{
  ℕ, zero, suc, ◌+◌, ◌%◌, ◌==◌, ◌&&◌, Bool, true, false, not, if◌then◌else◌, leb, Option, none,
  some, ◌>>=◌, ◌>>◌, assert, List, [], ◌∷◌, ◌++◌, length, get_elem?,
}

pub record Pool : Type 0 where
  pub base_loop : ℕ
  pub num_threads : ℕ
  pub next : ℕ
  pub started : Bool
  pub loops : List ℕ

unfoldable pub construct : ℕ → Pool
construct base = record { base_loop = base; num_threads = 0; next = 0; started = false; loops = [] }

-- The loops of `n` threads, from the `i`-th on.
abbrev pub start_loops : (ℕ → ℕ) → ℕ → ℕ → List ℕ
start_loops start_loop i zero = []
start_loops start_loop i (suc n) = start_loop i ∷ start_loops start_loop (suc i) n

unfoldable pub start : (ℕ → ℕ) → Pool → Option Pool
start start_loop p =
    assert (not p.started)
    >> some (record p { started = true; loops = p.loops ++ start_loops start_loop 0 p.num_threads })

-- `start` with its callback, if there is one, and the loops that it is called on there; that of a
-- thread is called by the thread.
unfoldable pub start_with : Bool → (ℕ → ℕ) → Pool → Option (Pool × List ℕ)
start_with cb start_loop p =
    start start_loop p
    >>= (λ q. some (q, if (p.num_threads == 0 && cb) then p.base_loop ∷ [] else []))

abbrev pub take_next : List ℕ → Pool → Option (Pool × ℕ)
take_next [] p = some (p, p.base_loop)
take_next (l ∷ ls) p = get_elem? (l ∷ ls) p.next >>= (λ loop.
    some (record p { next = if leb (length (l ∷ ls)) (p.next + 1) then 0 else p.next + 1 }, loop))

unfoldable pub get_next_loop : Pool → Option (Pool × ℕ)
get_next_loop p = assert p.started >> take_next p.loops p

abbrev pub loop_for_hash : ℕ → List ℕ → Pool → Option ℕ
loop_for_hash hash [] p = some p.base_loop
loop_for_hash hash (l ∷ ls) p = get_elem? (l ∷ ls) (hash % length (l ∷ ls))

unfoldable pub get_loop_for_hash : ℕ → Pool → Option ℕ
get_loop_for_hash hash p = assert p.started >> loop_for_hash hash p.loops p

abbrev pub all_loops : List ℕ → Pool → List ℕ
all_loops [] p = p.base_loop ∷ []
all_loops (l ∷ ls) p = l ∷ ls

unfoldable pub get_all_loops : Pool → Option (List ℕ)
get_all_loops p = assert p.started >> some (all_loops p.loops p)
