-- ===== src/Acceptor/Examples.antt =====
-- netlib/net/Acceptor.cc: a process that may hold four descriptors.
use netlib.Base.{
  ℕ, ◌+◌, ◌-◌, ◌≡◌, refl, true, ltb, if◌then◌else◌, Option, none, some, [], inl, inr, Bool-cases,
  arith,
}
use netlib.Acceptor.{Kernel, Acceptor, handle_read}
use netlib.Acceptor.Accounts.{IsKernel, one_more, handle_read-Accounts}

record Table : Type 0 where
  held : ℕ
  error : ℕ

abbrev no_fd : Option ℕ → ℕ
no_fd none = 9
no_fd (some fd) = 0

abbrev kernel : Kernel Table
kernel = record {
  errno = λ t. t.error;
  accept = λ fd t.
      if ltb t.held 4
      then (record { held = t.held + 1; error = t.error }, some t.held)
      else (record { held = t.held; error = 24 }, none);
  get_flags = λ fd t. (record { held = t.held; error = no_fd fd }, 0);
  set_flags = λ fd n t. record { held = t.held; error = no_fd fd };
  open_null = λ t. (record { held = t.held + 1; error = t.error }, some t.held);
  close = λ fd t. record { held = t.held - one_more fd; error = t.error };
  log = λ t. t;
}

kernel-IsKernel : IsKernel kernel (λ t. t.held)
kernel-IsKernel = record {
  held-accept = λ fd t. elim (Bool-cases (ltb t.held 4)) [
    | inl room ↦ rw room refl
    | inr full ↦ rw full (omega arith)
  ];
  held-get_flags = λ fd t. refl;
  held-set_flags = λ fd n t. refl;
  held-close = λ fd t. refl;
  held-log = λ t. refl;
  errno-set_flags = λ n t. refl;
  errno-log = λ t h. h;
}

abbrev acceptor : Acceptor
acceptor = record { accept_fd = 1; reading = true; listening = true; idle_fd = some 2 }

abbrev at_limit : Table
at_limit = record { held = 4; error = 0 }

handle_read-Accounts_example :
    (l : Table) × (handle_read kernel true true acceptor at_limit ≡ some (l, acceptor, []))
    × (l.held ≡ 4)
handle_read-Accounts_example = handle_read-Accounts kernel-IsKernel true acceptor at_limit
