-- ===== src/EPollPoller/Kernel.antt =====
-- EPollPoller.cc: the calls of `epoll_ctl` against the set that the kernel keeps.
use mathlib.Core.Path.{fun_ext}
use vortex_net.Base.{
  ℕ, ◌≡◌, sym, ◌∙◌, ap, inl, inr, true, false, List, ◌∷◌, Option, none, some, ◌==◌, ==_iff,
  Bool-cases,
}
use vortex_net.EPollPoller.{
  Events, Index, fresh, added, deleted, Channel, Ctl, ctl_add, ctl_mod, ctl_del, EPollPoller, put,
  is_none_event, update_with, update_channel, set_events,
}
use vortex_net.EPollPoller.Watched.{EpollSet, epoll_ctl, epoll_set, Inv, put_same}

pub put-put {ℓ} : {A : Type ℓ} (f : ℕ → A) (k : ℕ) (v w : A) → put (put f k v) k w ≡ put f k w
unfolding put
put-put f k v w = fun_ext (λ j. elim (Bool-cases (k == j)) [ inl e ↦ rw e | inr e ↦ rw e ])

pub put_self {ℓ} : {A : Type ℓ} (f : ℕ → A) (k : ℕ) (v : A) → f k ≡ v → put f k v ≡ f
unfolding put
put_self f k v h = fun_ext (λ j. elim (Bool-cases (k == j)) [
  | inr e ↦ rw e
  | inl e ↦ rw e (sym h ∙ ap f ((==_iff k j).0 e))
])

-- The channel i with those events and that index.
abbrev pub become : EPollPoller → ℕ → Events → Index → Channel
become p i e x = record { fd = (p.channels i).fd; events = e; index = x }

abbrev pub after_change : EPollPoller → ℕ → Events → Index → (ℕ → Option ℕ) → Ctl → EPollPoller
after_change p i e x known op = record {
  channels = put p.channels i (become p i e x);
  known = known;
  ctls = op ∷ p.ctls;
}

module _ (p : EPollPoller) (i : ℕ) (e : Events) where
  abbrev fd_i : ℕ
  fd_i = (p.channels i).fd

  abbrev pre : EPollPoller
  pre = set_events p i e

  abbrev c_i : Channel
  c_i = record (p.channels i) { events = e }

  on_channel : update_channel pre i ≡ update_with pre i c_i
  on_channel = ap (update_with pre i) (put_same p.channels i c_i)

  once_put : (x : Index) → put pre.channels i (become p i e x) ≡ put p.channels i (become p i e x)
  once_put x = put-put p.channels i c_i (become p i e x)

  -- The change, by the index and the map that it leaves.
  once_changed :
      (x : Index) (known : ℕ → Option ℕ) (op : Ctl)
      → record { channels = put pre.channels i (become p i e x); known = known; ctls = op ∷ p.ctls }
        ≡ after_change p i e x known op
  once_changed x known op =
      ap (λ cs. record { channels = cs; known = known; ctls = op ∷ p.ctls }) (once_put x)

  pub update_channel-fresh :
      (p.channels i).index ≡ fresh
      → update_channel pre i
        ≡ after_change p i e added (put p.known fd_i (some i)) (ctl_add fd_i e i)
  unfolding update_with
  update_channel-fresh k =
      on_channel
      ∙ rw (k, update_with) (once_changed added (put p.known fd_i (some i)) (ctl_add fd_i e i))

  pub update_channel-deleted :
      (p.channels i).index ≡ deleted
      → update_channel pre i ≡ after_change p i e added p.known (ctl_add fd_i e i)
  unfolding update_with
  update_channel-deleted k =
      on_channel ∙ rw (k, update_with) (once_changed added p.known (ctl_add fd_i e i))

  pub update_channel-none :
      (p.channels i).index ≡ added
      → is_none_event c_i ≡ true
      → update_channel pre i ≡ after_change p i e deleted p.known (ctl_del fd_i e i)
  unfolding update_with
  update_channel-none k z =
      on_channel ∙ rw (k, z, update_with) (once_changed deleted p.known (ctl_del fd_i e i))

  pub update_channel-some :
      (p.channels i).index ≡ added
      → is_none_event c_i ≡ false
      → update_channel pre i ≡ after_change p i e added p.known (ctl_mod fd_i e i)
  unfolding update_with
  update_channel-some k z =
      on_channel ∙ rw (k, z, update_with) (once_changed added p.known (ctl_mod fd_i e i))

-- The calls so far succeed, and leave a set that agrees with the channels.
abbrev pub Good : EPollPoller → Type 0
Good p = (s : EpollSet) × (epoll_set p.ctls ≡ some s) × Inv p s

module _ (cs : List Ctl) (s : EpollSet) (h : epoll_set cs ≡ some s) (fd i : ℕ) (e : Events) where
  pub epoll_set-add : s fd ≡ none → epoll_set (ctl_add fd e i ∷ cs) ≡ some (put s fd (some (e, i)))
  unfolding epoll_set
  epoll_set-add k = rw h (rw (k, epoll_ctl))

  pub epoll_set-mod :
      (x : Events × ℕ)
      → s fd ≡ some x
      → epoll_set (ctl_mod fd e i ∷ cs) ≡ some (put s fd (some (e, i)))
  unfolding epoll_set
  epoll_set-mod x k = rw h (rw (k, epoll_ctl))

  pub epoll_set-del :
      (x : Events × ℕ) → s fd ≡ some x → epoll_set (ctl_del fd e i ∷ cs) ≡ some (put s fd none)
  unfolding epoll_set
  epoll_set-del x k = rw h (rw (k, epoll_ctl))
