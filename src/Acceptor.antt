-- ===== src/Acceptor.antt =====
-- netlib/net/Acceptor.cc, with Socket::accept of Socket.cc and netlib::accept of SockFunc.cc: a
-- listening socket and the descriptors that come out of it. The kernel is a parameter: what a system
-- call makes of its state `K`, with `errno` in it; a negative descriptor is `none`. What `LOG_SYSERR`
-- does to `errno` is one of its calls. The address of the peer and socket options are not modelled.
mod Accounts
mod Examples
use netlib.Base.{
  ℕ, ◌+◌, ◌*◌, ◌/◌, ◌%◌, ◌-◌, Bool, true, false, ltb, ◌==◌, if◌then◌else◌, Option, none, some,
  ◌>>=◌, ◌>>◌, assert, List, [], ◌∷◌,
}

pub record Kernel (K : Type 0) : Type 0 where
  pub errno : K → ℕ
  pub accept : ℕ → K → K × Option ℕ
  pub get_flags : Option ℕ → K → K × ℕ
  pub set_flags : Option ℕ → ℕ → K → K
  pub open_null : K → K × Option ℕ
  pub close : Option ℕ → K → K
  pub log : K → K

pub record Acceptor : Type 0 where
  pub accept_fd : ℕ
  pub reading : Bool
  pub listening : Bool
  pub idle_fd : Option ℕ

-- `EMFILE`, `O_NONBLOCK` and `O_CLOEXEC`.
abbrev pub emfile : ℕ
emfile = 24

abbrev pub nonblock : ℕ
nonblock = 2048

abbrev pub cloexec : ℕ
cloexec = 524288

-- `flags | bit` for a single bit.
abbrev pub with_flag : ℕ → ℕ → ℕ
with_flag bit flags = if flags / bit % 2 == 0 then flags + bit else flags

-- The descriptors of `createNoblockingOrDie` and of `open`.
unfoldable pub construct : Option ℕ → Option ℕ → Option Acceptor
construct socket idle = socket >>= (λ fd. idle >>= (λ i.
    assert (ltb 0 i)
    >> some (record { accept_fd = fd; reading = false; listening = false; idle_fd = some i })))

unfoldable pub listen : Bool → Acceptor → Option Acceptor
listen in_loop a = assert in_loop >> some (record a { listening = true; reading = true })

module _ {K : Type 0} (kernel : Kernel K) where
  unfoldable pub set_no_block_and_close_on_exec : Option ℕ → K → K
  set_no_block_and_close_on_exec fd k =
      let (l, flags) = kernel.get_flags fd k in
      kernel.set_flags fd (with_flag cloexec (with_flag nonblock flags)) l

  -- `netlib::accept`, and `Socket::accept` but for the address.
  unfoldable pub accept : ℕ → K → K × Option ℕ
  accept fd k =
      let (l, new_fd) = kernel.accept fd k in (set_no_block_and_close_on_exec new_fd l, new_fd)

  -- The branch of `EMFILE`.
  unfoldable pub use_idle : K → Acceptor → K × Acceptor
  use_idle k a =
      let (l, taken) = kernel.accept a.accept_fd (kernel.close a.idle_fd k) in
      let (m, idle) = kernel.open_null (kernel.close taken l) in (m, record a { idle_fd = idle })

  -- What follows `accept`, with the descriptors that went to the callback.
  unfoldable pub accepted : Bool → Acceptor → K → Option ℕ → K × Acceptor × List ℕ
  accepted callback a k (some fd) =
      if callback then (k, a, fd ∷ []) else (kernel.close (some fd) k, a, [])
  accepted callback a k none =
      let l = kernel.log k in
      let (m, b) = use_idle l a in if kernel.errno l == emfile then (m, b, []) else (l, a, [])

  unfoldable pub handle_read : Bool → Bool → Acceptor → K → Option (K × Acceptor × List ℕ)
  handle_read in_loop callback a k =
      let (l, new_fd) = accept a.accept_fd k in
      assert in_loop >> some (accepted callback a l new_fd)

  unfoldable pub destroy : Acceptor → K → K × Acceptor
  destroy a k = (kernel.close a.idle_fd k, record a { reading = false })
