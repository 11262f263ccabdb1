-- ===== src/Acceptor/Accounts.antt =====
-- netlib/net/Acceptor.cc: where each descriptor goes.
use netlib.Base.{
  ℕ, ◌+◌, ◌-◌, ◌≡◌, ◌≢◌, ◌≤◌, refl, ap, ◌∙◌, Bool, true, false, ==_ne, if◌then◌else◌, Option, none,
  some, List, [], ◌∷◌, length, arith,
}
use netlib.Acceptor.{
  Kernel, Acceptor, emfile, nonblock, cloexec, with_flag, set_no_block_and_close_on_exec, accept,
  accepted, handle_read,
}

abbrev pub one_more : Option ℕ → ℕ
one_more none = 0
one_more (some fd) = 1

-- What is documented of the calls, for the number of descriptors that are open: `fcntl` fails with
-- EBADF where there is no descriptor. Logging does not run out of descriptors.
pub record IsKernel {K : Type 0} (kernel : Kernel K) (held : K → ℕ) : Type 0 where
  pub held-accept :
      (fd : ℕ) (k : K) → held (kernel.accept fd k).0 ≡ held k + one_more (kernel.accept fd k).1
  pub held-get_flags : (fd : Option ℕ) (k : K) → held (kernel.get_flags fd k).0 ≡ held k
  pub held-set_flags : (fd : Option ℕ) (n : ℕ) (k : K) → held (kernel.set_flags fd n k) ≡ held k
  pub held-close : (fd : ℕ) (k : K) → held (kernel.close (some fd) k) ≡ held k - 1
  pub held-log : (k : K) → held (kernel.log k) ≡ held k
  pub errno-set_flags : (n : ℕ) (k : K) → kernel.errno (kernel.set_flags none n k) ≡ 9
  pub errno-log : (k : K) → kernel.errno k ≢ emfile → kernel.errno (kernel.log k) ≢ emfile

abbrev handed_over : Bool → Option ℕ → List ℕ
handed_over callback none = []
handed_over callback (some fd) = if callback then fd ∷ [] else []

module _ {K : Type 0} {kernel : Kernel K} {held : K → ℕ} (v : IsKernel kernel held) where
  held-set_no_block :
      (fd : Option ℕ) (k : K) → held (set_no_block_and_close_on_exec kernel fd k) ≡ held k
  unfolding set_no_block_and_close_on_exec
  held-set_no_block fd k =
      let (l, flags) = kernel.get_flags fd k in
      v.held-set_flags fd (with_flag cloexec (with_flag nonblock flags)) l ∙ v.held-get_flags fd k

  errno-set_no_block :
      (k : K) → kernel.errno (set_no_block_and_close_on_exec kernel none k) ≢ emfile
  unfolding set_no_block_and_close_on_exec
  errno-set_no_block k e =
      let (l, flags) = kernel.get_flags none k in
      let bad = v.errno-set_flags (with_flag cloexec (with_flag nonblock flags)) l in
      absurd (omega (arith, e, bad))

  accepted_lem :
      (callback : Bool) (a : Acceptor) (k : K) (fd : Option ℕ)
      → one_more fd ≤ held k
      → (fd ≡ none → kernel.errno k ≢ emfile)
      → (l : K) × (accepted kernel callback a k fd ≡ (l, a, handed_over callback fd))
        × (held l ≡ held k - one_more fd + length (handed_over callback fd))
  unfolding accepted
  accepted_lem true a k (some fd) h e = (k, refl, omega (arith, h))
  accepted_lem false a k (some fd) h e =
      (kernel.close (some fd) k, refl, omega (arith, v.held-close fd k))
  accepted_lem callback a k none h e =
      let other = v.errno-log k (e refl) in
      rw (==_ne (kernel.errno (kernel.log k)) emfile other)
        (kernel.log k, refl, omega (arith, v.held-log k))

  -- A read event on the listening socket, in the loop's thread: what `accept` gave goes to the
  -- callback, or is closed where there is none, so that no descriptor is lost. A failed `accept`
  -- changes nothing, whatever its `errno` was: it is that of `fcntl` when it is looked at, and the
  -- idle descriptor is never given up.
  pub handle_read-Accounts :
      (callback : Bool) (a : Acceptor) (k : K)
      → (l : K) × (handle_read kernel true callback a k
          ≡ some (l, a, handed_over callback (kernel.accept a.accept_fd k).1))
        × (held l ≡ held k + length (handed_over callback (kernel.accept a.accept_fd k).1))
  unfolding handle_read accept
  handle_read-Accounts callback a k =
      let (l, fd) = kernel.accept a.accept_fd k in
      let m = set_no_block_and_close_on_exec kernel fd l in
      let n : held m ≡ held k + one_more fd =
        held-set_no_block fd l ∙ v.held-accept a.accept_fd k in
      let (after, h, r) =
        accepted_lem callback a m fd (omega (arith, n)) (λ e. rw e (errno-set_no_block l)) in
      (after, ap some h, omega (arith, n, r))
