-- ===== src/Epoller/Examples.antt =====
-- netlib/net/Epoller.cc: a kernel that keeps the laws, and runs on it.
use netlib.Base.{
  ℕ, ◌≡◌, ◌≢◌, refl, inl, inr, Option, none, some, true, false, [], ◌∷◌, set_at, set_at_same,
  set_at_other, same_or_not, ==_ne, arith,
}
use netlib.Chnnel.{Mask, no_event, Flag, new, added, deleted, Chnnel, is_none_event}
use netlib.Epoller.{Op, ctl_add, ctl_mod, ctl_del, Kernel, Epoller, remove, poll}
use netlib.Epoller.Mirror.{Sets, KernelLaws, IsMirror, Owns}
use netlib.Epoller.Promise.{Outcome, set_interest-Outcome, Removed, remove-Removed}
use netlib.Epoller.Active.{Served, poll-Served}

abbrev Watched : Type 0
Watched = ℕ → Option (Mask × ℕ)

-- EEXIST for an addition of what is there, ENOENT for the others of what is not.
abbrev control : Option (Mask × ℕ) → Op → ℕ → Mask → ℕ → Watched → Option Watched
control none ctl_add fd m c i = some (set_at fd (some (m, c)) i)
control none ctl_mod fd m c i = none
control none ctl_del fd m c i = none
control (some v) ctl_add fd m c i = none
control (some v) ctl_mod fd m c i = some (set_at fd (some (m, c)) i)
control (some v) ctl_del fd m c i = some (set_at fd none i)

abbrev kernel : Kernel
kernel = record {
  Interest = Watched;
  watched = λ i fd. i fd;
  epoll_ctl = λ op fd m c i. control (i fd) op fd m c i;
}

set_at-Sets : (fd : ℕ) (v : Option (Mask × ℕ)) (i : Watched) → Sets kernel i (set_at fd v i) fd v
set_at-Sets fd v i = record { now = set_at_same fd v i; others = set_at_other fd v i }

control_adds :
    (v : Option (Mask × ℕ)) (fd : ℕ) (m : Mask) (c : ℕ) (i j : Watched)
    → control v ctl_add fd m c i ≡ some j
    → Sets kernel i j fd (some (m, c))
control_adds none fd m c i j h =
    let e : set_at fd (some (m, c)) i ≡ j = cc in rw⁻¹ e (set_at-Sets fd (some (m, c)) i)
control_adds (some v) fd m c i j h = absurd (cc h)

kernel_laws : KernelLaws kernel
kernel_laws = record {
  adds = λ fd m c i j. control_adds (i fd) fd m c i j;
  modifies = λ fd m c i v h. (set_at fd (some (m, c)) i, rw h refl, set_at-Sets fd (some (m, c)) i);
  deletes = λ fd m c i v h. (set_at fd none i, rw h refl, set_at-Sets fd none i);
}

-- Channel 1 of descriptor 5 is watched for reading, channel 2 of descriptor 6 is not known.
abbrev readable : Mask
readable = record no_event { pollin = true }

abbrev channel : ℕ → Mask → Flag → Chnnel
channel fd m f = record {
  fd = fd;
  events = m;
  revents = no_event;
  flag = f;
  added_to_loop = true;
  tied = false;
  tie_alive = false;
  has_error = false;
  has_write = true;
  has_read = true;
  has_close = false;
}

abbrev channels : ℕ → Chnnel
channels = set_at 1 (channel 5 readable added) (λ c. channel 6 no_event new)

abbrev watching : Epoller kernel
watching = record {
  store = channels;
  chnnels = set_at 5 (some 1) (λ fd. none);
  interest = set_at 5 (some (readable, 1)) (λ fd. none);
  events_size = 8;
}

watching_other : (fd : ℕ) → fd ≢ 5 → watching.chnnels fd ≡ none
watching_other fd n = rw (==_ne fd 5 n) refl

watching-IsMirror : IsMirror kernel watching
watching-IsMirror = record {
  each = λ c. elim (same_or_not c 1) [
    | inl same ↦ rw same (refl, refl)
    | inr other ↦ rw (==_ne c 1 other) tt
  ];
  known = λ fd c h. elim (same_or_not fd 5) [
    | inl same ↦ let is_1 : c ≡ 1 = cc (h, same) in rw (is_1, same) (refl, λ q. cc)
    | inr other ↦ absurd (cc (h, watching_other fd other))
  ];
  silent = λ fd h. elim (same_or_not fd 5) [
    | inl same ↦ absurd (cc (h, same))
    | inr other ↦ rw (==_ne fd 5 other) refl
  ];
}

owns_1 : Owns kernel 1 watching
owns_1 d h = cc h

owns_2 : Owns kernel 2 watching
owns_2 d h = absurd (cc h)

set_interest-Outcome_example :
    Outcome kernel kernel_laws 2 watching watching-IsMirror owns_2 readable
set_interest-Outcome_example =
    set_interest-Outcome kernel kernel_laws 2 watching watching-IsMirror owns_2 readable

-- Channel 1 has asked for nothing and is out of the kernel's set.
abbrev idle : Epoller kernel
idle = record watching {
  store = set_at 1 (channel 5 no_event deleted) (λ c. channel 6 no_event new);
  interest = λ fd. none;
}

idle-IsMirror : IsMirror kernel idle
idle-IsMirror = record {
  each = λ c. elim (same_or_not c 1) [
    | inl same ↦ rw same (refl, refl)
    | inr other ↦ rw (==_ne c 1 other) tt
  ];
  known = λ fd c h. elim (same_or_not fd 5) [
    | inl same ↦ let is_1 : c ≡ 1 = cc (h, same) in rw (is_1, same) (refl, λ q. cc)
    | inr other ↦ absurd (cc (h, watching_other fd other))
  ];
  silent = λ fd h. refl;
}

idle_owns_1 : Owns kernel 1 idle
idle_owns_1 d h = cc h

asks_nothing : is_none_event (idle.store 1).events ≡ true
unfolding is_none_event
asks_nothing = refl

remove-Removed_example :
    (e' : Epoller kernel) × (remove kernel 1 idle ≡ some e')
    × Removed kernel kernel_laws 1 idle idle-IsMirror idle_owns_1 asks_nothing e'
remove-Removed_example =
    remove-Removed kernel kernel_laws 1 idle idle-IsMirror idle_owns_1 asks_nothing (λ h. cc)

poll-Served_example :
    Served kernel ((1, readable) ∷ []) watching (poll kernel (some ((1, readable) ∷ [])) watching)
poll-Served_example =
    poll-Served kernel ((1, readable) ∷ []) watching watching-IsMirror ((5, readable, refl), tt)
      (tt, tt) (omega arith) (omega arith)
