-- ===== src/Epoller/Interest.antt =====
-- netlib/net/Epoller.cc: what each branch of `updateChnnel` and `removeChnnel` leaves.
use netlib.Base.{
  ℕ, ◌≡◌, ◌≢◌, refl, ap, ◌∙◌, true, false, ==_refl, Option, none, some, set_at, set_at_same,
  set_at_other,
}
use netlib.Chnnel.{Flag, new, added, deleted, Chnnel, is_none_event}
use netlib.Epoller.{
  ctl_add, ctl_mod, ctl_del, Kernel, Epoller, has_chnnel, update, add_new, add_again, modify,
  update_by, update_chnnel, delete_added, remove_chnnel,
}

module _ (k : Kernel) (c : ℕ) (x : Chnnel) (e : Epoller k) (is_x : e.store c ≡ x) where
  -- `c` gets flag `f`, its descriptor maps to `o`, the kernel's set is `i`, and nothing else changes.
  pub record After (f : Flag) (o : Option ℕ) (i : k.Interest) (e' : Epoller k) : Type 0 where
    pub changed : e'.store c ≡ record x { flag = f }
    pub unchanged : (d : ℕ) → d ≢ c → e'.store d ≡ e.store d
    pub here : e'.chnnels x.fd ≡ o
    pub map_rest : (g : ℕ) → g ≢ x.fd → e'.chnnels g ≡ e.chnnels g
    pub kernel : e'.interest ≡ i

  abbrev flagged : Flag → ℕ → Chnnel
  flagged f = set_at c (record (e.store c) { flag = f }) e.store

  flagged_at : (f : Flag) → flagged f c ≡ record x { flag = f }
  flagged_at f =
      set_at_same c (record (e.store c) { flag = f }) e.store
      ∙ ap (λ (y : Chnnel). record y { flag = f }) is_x

  flagged-After :
      (f : Flag) (o : Option ℕ) (i : k.Interest)
      → e.chnnels x.fd ≡ o
      → After f o i (record e { store = flagged f; interest = i })
  flagged-After f o i h = record {
    changed = flagged_at f;
    unchanged = set_at_other c (record (e.store c) { flag = f }) e.store;
    here = h;
    map_rest = λ _ _. refl;
    kernel = refl;
  }

  has_chnnel_lem : e.chnnels x.fd ≡ some c → has_chnnel k c e ≡ true
  unfolding has_chnnel
  has_chnnel_lem h = rw (is_x, h, ==_refl c) refl

  pub update_new :
      (i : k.Interest)
      → x.flag ≡ new
      → e.chnnels x.fd ≡ none
      → k.epoll_ctl ctl_add x.fd x.events c e.interest ≡ some i
      → (e' : Epoller k) × (update_chnnel k c e ≡ some e') × After added (some c) i e'
  unfolding update_chnnel update_by add_new update
  update_new i f absent h = (
    record e { store = flagged added; chnnels = set_at x.fd (some c) e.chnnels; interest = i },
    rw (is_x, f, is_x, absent, ==_refl c, h) refl,
    record {
      changed = flagged_at added;
      unchanged = set_at_other c (record (e.store c) { flag = added }) e.store;
      here = set_at_same x.fd (some c) e.chnnels;
      map_rest = set_at_other x.fd (some c) e.chnnels;
      kernel = refl;
    },
  )

  pub update_deleted :
      (i : k.Interest)
      → x.flag ≡ deleted
      → e.chnnels x.fd ≡ some c
      → k.epoll_ctl ctl_add x.fd x.events c e.interest ≡ some i
      → (e' : Epoller k) × (update_chnnel k c e ≡ some e') × After added (some c) i e'
  unfolding update_chnnel update_by add_again update
  update_deleted i f held h = (
    record e { store = flagged added; interest = i },
    rw (is_x, f, has_chnnel_lem held, flagged_at added, h, is_x) refl,
    flagged-After added (some c) i held,
  )

  pub update_modified :
      (i : k.Interest)
      → x.flag ≡ added
      → e.chnnels x.fd ≡ some c
      → is_none_event x.events ≡ false
      → k.epoll_ctl ctl_mod x.fd x.events c e.interest ≡ some i
      → (e' : Epoller k) × (update_chnnel k c e ≡ some e') × After added (some c) i e'
  unfolding update_chnnel update_by modify update
  update_modified i f held asks h = (
    record e { interest = i },
    rw (is_x, f, has_chnnel_lem held, is_x, asks, h) refl,
    record {
      changed = is_x ∙ ap (λ f. record x { flag = f }) f;
      unchanged = λ _ _. refl;
      here = held;
      map_rest = λ _ _. refl;
      kernel = refl;
    },
  )

  pub update_removed :
      (i : k.Interest)
      → x.flag ≡ added
      → e.chnnels x.fd ≡ some c
      → is_none_event x.events ≡ true
      → k.epoll_ctl ctl_del x.fd x.events c e.interest ≡ some i
      → (e' : Epoller k) × (update_chnnel k c e ≡ some e') × After deleted (some c) i e'
  unfolding update_chnnel update_by modify update
  update_removed i f held asks h = (
    record e { store = flagged deleted; interest = i },
    rw (is_x, f, has_chnnel_lem held, is_x, asks, h, is_x) refl,
    flagged-After deleted (some c) i held,
  )

  -- `removeChnnel` of a channel the kernel watches, and of one it does not.
  abbrev freed : k.Interest → Epoller k
  freed i = record e { store = flagged new; chnnels = set_at x.fd none e.chnnels; interest = i }

  freed-After : (i : k.Interest) → After new none i (freed i)
  freed-After i = record {
    changed = flagged_at new;
    unchanged = set_at_other c (record (e.store c) { flag = new }) e.store;
    here = set_at_same x.fd none e.chnnels;
    map_rest = set_at_other x.fd none e.chnnels;
    kernel = refl;
  }

  pub remove_added :
      (i : k.Interest)
      → x.flag ≡ added
      → e.chnnels x.fd ≡ some c
      → is_none_event x.events ≡ true
      → k.epoll_ctl ctl_del x.fd x.events c e.interest ≡ some i
      → (e' : Epoller k) × (remove_chnnel k c e ≡ some e') × After new none i e'
  unfolding remove_chnnel delete_added update
  remove_added i f held asks h =
      (freed i, rw (has_chnnel_lem held, is_x, asks, f, is_x, h, is_x) refl, freed-After i)

  pub remove_deleted :
      x.flag ≡ deleted
      → e.chnnels x.fd ≡ some c
      → is_none_event x.events ≡ true
      → (e' : Epoller k) × (remove_chnnel k c e ≡ some e') × After new none e.interest e'
  unfolding remove_chnnel delete_added
  remove_deleted f held asks =
      (freed e.interest, rw (has_chnnel_lem held, is_x, asks, f, is_x) refl, freed-After e.interest)
