-- ===== src/Epoller/Promise.antt =====
-- netlib/net/Epoller.cc, and `update` and `remove` of Chnnel.cc: map, flags and kernel stay in
-- step, and no assertion fails.
use netlib.Base.{
  ℕ, ◌≡◌, ◌≢◌, refl, sym, ap, ◌∙◌, subst, ◌⊎◌, inl, inr, true, false, if◌then◌else◌, Option, none,
  some, Bool-cases, Option-cases, set_at, set_at_same, set_at_other,
}
use netlib.Chnnel.{Mask, Flag, new, added, deleted, Chnnel, is_none_event}
use netlib.Epoller.{ctl_add, Kernel, Epoller, set_interest, remove}
use netlib.Epoller.Mirror.{Sets, KernelLaws, Mirrored, IsMirror, Owns, Differs, differs-IsMirror}
use netlib.Epoller.Interest.{
  After, update_new, update_deleted, update_modified, update_removed, remove_added, remove_deleted,
}

module _ (k : Kernel) (laws : KernelLaws k) where
  -- A channel that the kernel watches leaves its set when it asks for nothing; any other is put
  -- there, even when it asks for nothing.
  abbrev pub expected : Flag → Mask → ℕ → Option (Mask × ℕ)
  expected added m c = if is_none_event m then none else some (m, c)
  expected new m c = some (m, c)
  expected deleted m c = some (m, c)

  module _ (c : ℕ) (e : Epoller k) (mirror : IsMirror k e) (owns : Owns k c e) where
    abbrev x : Mask → Chnnel
    x m = record (e.store c) { events = m; added_to_loop = true }

    abbrev asking : Mask → Epoller k
    asking m = record e { store = set_at c (x m) e.store }

    -- What a call leaves that stores `y` at `c` before it works on the map and the kernel.
    module _ (y : Chnnel) (same_fd : y.fd ≡ (e.store c).fd) where
      After-Differs :
          (f : Flag) (o : Option ℕ) (i : k.Interest) (v : Option (Mask × ℕ)) (e' : Epoller k)
          → Sets k e.interest i y.fd v
          → After k c y (record e { store = set_at c y e.store }) (set_at_same c y e.store) f o i e'
          → Differs k c (record y { flag = f }) e e'
      After-Differs f o i v e' s a = record {
        same_fd = same_fd;
        changed = a.changed;
        unchanged = λ d n. a.unchanged d n ∙ set_at_other c y e.store d n;
        map_rest = a.map_rest;
        kernel_rest = λ g n. ap (λ j. k.watched j g) a.kernel ∙ s.others g n;
      }

    pub record Settled (m : Mask) (e' : Epoller k) : Type 0 where
      pub is_mirror : IsMirror k e'
      pub watches : k.watched e'.interest (e.store c).fd ≡ expected (e.store c).flag m c
      pub asks : (e'.store c).events ≡ m
      pub others : (d : ℕ) → d ≢ c → e'.store d ≡ e.store d

    added-Settled :
        (m : Mask) (i : k.Interest) (e' : Epoller k)
        → Sets k e.interest i (e.store c).fd (some (m, c))
        → expected (e.store c).flag m c ≡ some (m, c)
        → After k c (x m) (asking m) (set_at_same c (x m) e.store) added (some c) i e'
        → Settled m e'
    added-Settled m i e' s w a =
        let d = After-Differs (x m) refl added (some c) i (some (m, c)) e' s a in
        let now = ap (λ j. k.watched j (e.store c).fd) a.kernel ∙ s.now in
        record {
          is_mirror =
              differs-IsMirror k c _ e e' mirror d owns (a.here, now)
                (λ b h. (cc (h, a.here), λ q. cc)) (λ h. absurd (cc (h, a.here)));
          watches = now ∙ sym w;
          asks = ap (λ (y : Chnnel). y.events) a.changed;
          others = λ b n. d.unchanged b n;
        }

    deleted-Settled :
        (m : Mask) (i : k.Interest) (e' : Epoller k)
        → Sets k e.interest i (e.store c).fd none
        → expected (e.store c).flag m c ≡ none
        → After k c (x m) (asking m) (set_at_same c (x m) e.store) deleted (some c) i e'
        → Settled m e'
    deleted-Settled m i e' s w a =
        let d = After-Differs (x m) refl deleted (some c) i none e' s a in
        let now = ap (λ j. k.watched j (e.store c).fd) a.kernel ∙ s.now in
        record {
          is_mirror =
              differs-IsMirror k c _ e e' mirror d owns (a.here, now)
                (λ b h. (cc (h, a.here), λ q. cc)) (λ h. now);
          watches = now ∙ sym w;
          asks = ap (λ (y : Chnnel). y.events) a.changed;
          others = λ b n. d.unchanged b n;
        }

    -- What the invariant says of `c`, once its flag is known.
    holds : (f : Flag) → (e.store c).flag ≡ f → Mirrored k f e.chnnels e.interest c (e.store c)
    holds f h = subst (λ g. Mirrored k g e.chnnels e.interest c (e.store c)) h (mirror.each c)

    absent : (e.store c).flag ≡ new → e.chnnels (e.store c).fd ≡ none
    absent h = elim (Option-cases (e.chnnels (e.store c).fd)) [
      | inl none_there ↦ none_there
      | inr (b, there) ↦
          absurd ((mirror.known (e.store c).fd c (there ∙ ap some (owns b there))).1 h)
    ]

    -- Either the channel is settled or it had to be added and the kernel refused.
    abbrev pub Outcome : Mask → Type 0
    Outcome m =
        ((e' : Epoller k) × (set_interest k m c e ≡ some e') × Settled m e')
        ⊎ ((k.epoll_ctl ctl_add (e.store c).fd m c e.interest ≡ none) × ((e.store c).flag ≢ added))

    settle_new : (m : Mask) → (e.store c).flag ≡ new → Outcome m
    unfolding set_interest
    settle_new m f = elim (Option-cases (k.epoll_ctl ctl_add (e.store c).fd m c e.interest)) [
      | inl refused ↦ inr (refused, λ h. cc)
      | inr (i, h) ↦
          let (e', r, a) =
            update_new k c (x m) (asking m) (set_at_same c (x m) e.store) i f (absent f) h in
          inl (e', r, added-Settled m i e' (laws.adds _ m c e.interest i h) (rw f refl) a)
    ]

    settle_deleted : (m : Mask) → (e.store c).flag ≡ deleted → Outcome m
    unfolding set_interest
    settle_deleted m f = elim (Option-cases (k.epoll_ctl ctl_add (e.store c).fd m c e.interest)) [
      | inl refused ↦ inr (refused, λ h. cc)
      | inr (i, h) ↦
          let (e', r, a) =
            update_deleted k c (x m) (asking m) (set_at_same c (x m) e.store) i f
              (holds deleted f).0 h in
          inl (e', r, added-Settled m i e' (laws.adds _ m c e.interest i h) (rw f refl) a)
    ]

    settle_added : (m : Mask) → (e.store c).flag ≡ added → Outcome m
    unfolding set_interest
    settle_added m f =
        let (held, watched) = holds added f in
        elim (Bool-cases (is_none_event m)) [
          | inl silent ↦
              let (i, h, s) = laws.deletes (e.store c).fd m c e.interest _ watched in
              let (e', r, a) =
                update_removed k c (x m) (asking m) (set_at_same c (x m) e.store) i f held silent
                  h in
              inl (e', r, deleted-Settled m i e' s (rw (f, silent) refl) a)
          | inr asks ↦
              let (i, h, s) = laws.modifies (e.store c).fd m c e.interest _ watched in
              let (e', r, a) =
                update_modified k c (x m) (asking m) (set_at_same c (x m) e.store) i f held asks
                  h in
              inl (e', r, added-Settled m i e' s (rw (f, asks) refl) a)
        ]

    settle : (m : Mask) (f : Flag) → (e.store c).flag ≡ f → Outcome m
    settle m new h = settle_new m h
    settle m added h = settle_added m h
    settle m deleted h = settle_deleted m h

    -- Asking for any events of a channel whose descriptor no other channel has: no assertion fails,
    -- the map, the flags and the kernel stay in step, the kernel watches what the channel asks
    -- for, and no other channel changes. Only adding to the kernel's set can fail, and then only
    -- because the kernel refuses.
    pub set_interest-Outcome : (m : Mask) → Outcome m
    set_interest-Outcome m = settle m (e.store c).flag refl

    module _ (idle : is_none_event (e.store c).events ≡ true) where
      abbrev gone : Chnnel
      gone = record (e.store c) { added_to_loop = false }

      abbrev leaving : Epoller k
      leaving = record e { store = set_at c gone e.store }

      pub record Removed (e' : Epoller k) : Type 0 where
        pub is_mirror : IsMirror k e'
        pub unmapped : e'.chnnels (e.store c).fd ≡ none
        pub unwatched : k.watched e'.interest (e.store c).fd ≡ none
        pub others : (d : ℕ) → d ≢ c → e'.store d ≡ e.store d

      After-Removed :
          (i : k.Interest) (e' : Epoller k)
          → Sets k e.interest i (e.store c).fd none
          → After k c gone leaving (set_at_same c gone e.store) new none i e'
          → Removed e'
      After-Removed i e' s a =
          let d = After-Differs gone refl new none i none e' s a in
          let now = ap (λ j. k.watched j (e.store c).fd) a.kernel ∙ s.now in
          record {
            is_mirror =
                differs-IsMirror k c _ e e' mirror d owns tt (λ b h. absurd (cc (h, a.here)))
                  (λ h. now);
            unmapped = a.here;
            unwatched = now;
            others = λ b n. d.unchanged b n;
          }

      remove_by :
          (f : Flag)
          → (e.store c).flag ≡ f
          → f ≢ new
          → (e' : Epoller k) × (remove k c e ≡ some e') × Removed e'
      unfolding remove
      remove_by new h n = absurd (n refl)
      remove_by added h n =
          let (held, watched) = holds added h in
          let (i, r, s) = laws.deletes (e.store c).fd (e.store c).events c e.interest _ watched in
          let (e', q, a) =
            remove_added k c gone leaving (set_at_same c gone e.store) i h held idle r in
          (e', rw idle q, After-Removed i e' s a)
      remove_by deleted h n =
          let (held, unwatched) = holds deleted h in
          let (e', q, a) =
            remove_deleted k c gone leaving (set_at_same c gone e.store) h held idle in
          (
            e',
            rw idle q,
            After-Removed e.interest e' (record { now = unwatched; others = λ _ _. refl }) a,
          )

      -- Removing a channel that was added and asks for nothing: no assertion fails, the kernel
      -- no longer watches its descriptor, the map has no entry for it, no other channel
      -- changes, and the map, the flags and the kernel stay in step.
      pub remove-Removed :
          (e.store c).flag ≢ new → (e' : Epoller k) × (remove k c e ≡ some e') × Removed e'
      remove-Removed n = remove_by (e.store c).flag refl n
