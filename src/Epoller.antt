-- ===== src/Epoller.antt =====
-- netlib/net/Epoller.cc: the map from descriptors to channels and what the kernel is asked to watch.
-- Channels are known by their address, and `store` holds the object at each. `epoll_ctl` is the
-- kernel's: `KernelLaws` says what its manual promises. `none` is a failed assertion, or the
-- fatal log line of `update`. The methods of Chnnel that call the poller stand here too.
mod Mirror
mod Interest
mod Promise
mod Active
mod Examples
use netlib.Base.{
  ℕ, suc, ◌+◌, ◌*◌, ◌≡◌, ◌≢◌, Bool, true, false, not, ◌&&◌, ◌||◌, ◌==◌, if◌then◌else◌, Option, none,
  some, ◌>>=◌, ◌>>◌, assert, List, [], ◌∷◌, ◌++◌, length, set_at,
}
use netlib.Chnnel.{Mask, no_event, Flag, new, added, deleted, Chnnel, is_none_event}

-- `EPOLL_CTL_ADD`, `EPOLL_CTL_MOD`, `EPOLL_CTL_DEL`
pub data Op : Type 0 where
  ctl_add ctl_mod ctl_del : Op

-- What the kernel watches: for a descriptor the mask and the pointer it gives back. `none` of
-- `epoll_ctl` is -1.
pub record Kernel : Type 1 where
  pub Interest : Type 0
  pub watched : Interest → ℕ → Option (Mask × ℕ)
  pub epoll_ctl : Op → ℕ → Mask → ℕ → Interest → Option Interest

module _ (k : Kernel) where
  pub record Epoller : Type 0 where
    pub store : ℕ → Chnnel
    pub chnnels : ℕ → Option ℕ
    pub interest : k.Interest
    pub events_size : ℕ

  -- `cEventsInitSize`
  abbrev pub events_init_size : ℕ
  events_init_size = 8

  unfoldable pub construct : (ℕ → Chnnel) → k.Interest → Epoller
  construct store interest = record {
    store = store;
    chnnels = λ _. none;
    interest = interest;
    events_size = events_init_size;
  }

  -- `find(fd) != end() && it->second == chnnel`, for `fd` the channel's.
  abbrev pub is_entry : ℕ → Option ℕ → Bool
  is_entry c none = false
  is_entry c (some d) = d == c

  unfoldable pub has_chnnel : ℕ → Epoller → Bool
  has_chnnel c e = is_entry c (e.chnnels (e.store c).fd)

  abbrev pub is_absent : Option ℕ → Bool
  is_absent none = true
  is_absent (some c) = false

  abbrev pub set_flag : Flag → ℕ → Epoller → Epoller
  set_flag f c e = record e { store = set_at c (record (e.store c) { flag = f }) e.store }

  -- A failed `EPOLL_CTL_DEL` is only logged.
  abbrev pub failed : Op → Epoller → Option Epoller
  failed ctl_add e = none
  failed ctl_mod e = none
  failed ctl_del e = some e

  abbrev pub with_interest : Op → Epoller → Option k.Interest → Option Epoller
  with_interest op e none = failed op e
  with_interest op e (some i) = some (record e { interest = i })

  unfoldable pub update : Op → ℕ → Epoller → Option Epoller
  update op c e = with_interest op e (k.epoll_ctl op (e.store c).fd (e.store c).events c e.interest)

  unfoldable pub add_new : ℕ → Epoller → Option Epoller
  unfolding update
  add_new c e =
      let m = record e { chnnels = set_at (e.store c).fd (some c) e.chnnels } in
      assert (is_absent (e.chnnels (e.store c).fd)) >> update ctl_add c (set_flag added c m)

  unfoldable pub add_again : ℕ → Epoller → Option Epoller
  unfolding update has_chnnel
  add_again c e = assert (has_chnnel c e) >> update ctl_add c (set_flag added c e)

  unfoldable pub modify : ℕ → Epoller → Option Epoller
  unfolding update has_chnnel
  modify c e =
      assert (has_chnnel c e)
      >> (if is_none_event (e.store c).events
          then update ctl_del c e >>= (λ d. some (set_flag deleted c d))
          else update ctl_mod c e)

  abbrev pub update_by : Flag → ℕ → Epoller → Option Epoller
  unfolding add_new add_again modify
  update_by new c e = add_new c e
  update_by added c e = modify c e
  update_by deleted c e = add_again c e

  unfoldable pub update_chnnel : ℕ → Epoller → Option Epoller
  unfolding update_by
  update_chnnel c e = update_by (e.store c).flag c e

  abbrev pub delete_added : Flag → ℕ → Epoller → Option Epoller
  unfolding update
  delete_added added c e = update ctl_del c e
  delete_added deleted c e = some e
  delete_added new c e = none

  unfoldable pub remove_chnnel : ℕ → Epoller → Option Epoller
  unfolding has_chnnel
  remove_chnnel c e =
      assert (has_chnnel c e)
      >> (assert (is_none_event (e.store c).events)
          >> (delete_added (e.store c).flag c
                (record e { chnnels = set_at (e.store c).fd none e.chnnels })
              >>= (λ d. some (set_flag new c d))))

  -- `enableReading` and its kin: the channel's mask changes, then `Chnnel::update`.
  unfoldable pub set_interest : Mask → ℕ → Epoller → Option Epoller
  unfolding update_chnnel
  set_interest m c e = update_chnnel c (record e {
    store = set_at c (record (e.store c) { events = m; added_to_loop = true }) e.store;
  })

  -- `Chnnel::remove`
  unfoldable pub remove : ℕ → Epoller → Option Epoller
  unfolding remove_chnnel
  remove c e =
      assert (is_none_event (e.store c).events)
      >> remove_chnnel c
          (record e { store = set_at c (record (e.store c) { added_to_loop = false }) e.store })

  -- What `epoll_wait` wrote, each event's pointer and mask.
  unfoldable pub fill_active_chnnels : List (ℕ × Mask) → Epoller → Epoller × List ℕ
  fill_active_chnnels [] e = (e, [])
  fill_active_chnnels ((c, m) ∷ rest) e =
      let (d, active) =
        fill_active_chnnels rest
          (record e { store = set_at c (record (e.store c) { revents = m }) e.store }) in
      (d, c ∷ active)

  -- `none` of `epoll_wait` is -1: nothing is active.
  unfoldable pub poll : Option (List (ℕ × Mask)) → Epoller → Epoller × List ℕ
  unfolding fill_active_chnnels
  poll none e = (e, [])
  poll (some events) e =
      let (d, active) = fill_active_chnnels events e in
      if length events == e.events_size && not (length events == 0)
      then (record d { events_size = d.events_size * 2 }, active)
      else (d, active)
