-- ===== src/EPollPoller/Steps.antt =====
-- EPollPoller.cc: what the changes of channels come to.
use vortex_net.Base.{
  ℕ, ◌≡◌, refl, sym, subst, ◌∙◌, ap, inl, inr, false, not, List, [], ◌∷◌, none, some, ◌==◌, ==_iff,
  Bool-cases, Option-cases,
}
use vortex_net.EPollPoller.{
  Events, Index, fresh, added, deleted, new_channel, Ctl, ctl_add, ctl_mod, ctl_del, EPollPoller,
  put, is_none_event, update_channel, remove_with, remove_channel, has_channel, Change, changed,
  set_events, change_events,
}
use vortex_net.EPollPoller.Watched.{
  EpollSet, epoll_set, is_fresh, watched, watched_channel, Inv, Owned, next-Inv,
}
use vortex_net.EPollPoller.Kernel.{
  put_self, become, after_change, Good, update_channel-fresh, update_channel-deleted,
  update_channel-none, update_channel-some, epoll_set-add, epoll_set-mod, epoll_set-del,
}

data IndexCases (x : Index) : Type 0 where
  is_fresh_index : x ≡ fresh → IndexCases x
  is_added_index : x ≡ added → IndexCases x
  is_deleted_index : x ≡ deleted → IndexCases x

index_cases : (x : Index) → IndexCases x
index_cases fresh = is_fresh_index refl
index_cases added = is_added_index refl
index_cases deleted = is_deleted_index refl

module _ (p : EPollPoller) (s : EpollSet) (h : epoll_set p.ctls ≡ some s) (inv : Inv p s) (i : ℕ)
    (owned : Owned p i) where
  abbrev fd_own : ℕ
  fd_own = (p.channels i).fd

  -- What the set holds at the descriptor of the channel i.
  fresh_free : (p.channels i).index ≡ fresh → s fd_own ≡ none
  fresh_free k = elim owned [
    | inr o ↦ inv.holds fd_own ∙ rw o
    | inl o ↦ absurd (cc ((inv.fits fd_own i o).1, ap is_fresh k))
  ]

  own : (x : Index) → (p.channels i).index ≡ x → is_fresh x ≡ false → p.known fd_own ≡ some i
  own x k f = inv.listed i (ap is_fresh k ∙ f)

  own_entry :
      (x : Index)
      → (p.channels i).index ≡ x
      → is_fresh x ≡ false
      → s fd_own ≡ watched i (p.channels i).events x
  own_entry x k f = inv.holds fd_own ∙ rw (own x k f) (ap (watched i (p.channels i).events) k)

  change-Good :
      (e : Events) (x : Index) (op : Ctl)
      → is_fresh x ≡ false
      → epoll_set (op ∷ p.ctls) ≡ some (put s fd_own (watched i e x))
      → Good (after_change p i e x (put p.known fd_own (some i)) op)
  change-Good e x op f k = (
    put s fd_own (watched i e x),
    k,
    next-Inv p s inv i owned (become p i e x) refl (some i) (watched i e x) (inl (refl, f, refl))
        (op ∷ p.ctls),
  )

  change_known-Good :
      (e : Events) (x : Index) (op : Ctl)
      → is_fresh x ≡ false
      → p.known fd_own ≡ some i
      → epoll_set (op ∷ p.ctls) ≡ some (put s fd_own (watched i e x))
      → Good (after_change p i e x p.known op)
  change_known-Good e x op f o k =
      subst (λ m. Good (after_change p i e x m op)) (put_self p.known fd_own (some i) o)
        (change-Good e x op f k)

  update_channel-Good : (e : Events) → Good (update_channel (set_events p i e) i)
  update_channel-Good e = elim (index_cases (p.channels i).index) [
    | is_fresh_index k ↦ subst Good (sym (update_channel-fresh p i e k)) (
        change-Good e added (ctl_add fd_own e i) refl
          (epoll_set-add p.ctls s h fd_own i e (fresh_free k)))
    | is_deleted_index k ↦ subst Good (sym (update_channel-deleted p i e k)) (
        change_known-Good e added (ctl_add fd_own e i) refl (own deleted k refl)
          (epoll_set-add p.ctls s h fd_own i e (own_entry deleted k refl)))
    | is_added_index k ↦ elim (Bool-cases (is_none_event (record (p.channels i) { events = e }))) [
      | inl z ↦ subst Good (sym (update_channel-none p i e k z)) (
          change_known-Good e deleted (ctl_del fd_own e i) refl (own added k refl) (
            epoll_set-del p.ctls s h fd_own i e ((p.channels i).events, i)
              (own_entry added k refl)))
      | inr z ↦ subst Good (sym (update_channel-some p i e k z)) (
          change_known-Good e added (ctl_mod fd_own e i) refl (own added k refl) (
            epoll_set-mod p.ctls s h fd_own i e ((p.channels i).events, i)
              (own_entry added k refl)))
    ]
  ]

  remove-Good :
      (cs : List Ctl)
      → epoll_set cs ≡ some (put s fd_own none)
      → Good (record {
        channels = put p.channels i (record (p.channels i) { index = fresh });
        known = put p.known fd_own none;
        ctls = cs;
      })
  remove-Good cs k = (
    put s fd_own none,
    k,
    next-Inv p s inv i owned (record (p.channels i) { index = fresh }) refl none none
        (inr (refl, refl, refl)) cs,
  )

  -- Nothing is to be deleted.
  quiet : s fd_own ≡ none → epoll_set p.ctls ≡ some (put s fd_own none)
  quiet k = h ∙ ap (λ t. some t) (sym (put_self s fd_own none k))

  remove_channel-Good : Good (remove_channel p i)
  unfolding remove_with
  remove_channel-Good = elim (index_cases (p.channels i).index) [
    | is_fresh_index k ↦ rw (k, remove_with) (remove-Good p.ctls (quiet (fresh_free k)))
    | is_deleted_index k ↦
        rw (k, remove_with) (remove-Good p.ctls (quiet (own_entry deleted k refl)))
    | is_added_index k ↦
        rw (k, remove_with)
          (remove-Good (ctl_del fd_own (p.channels i).events i ∷ p.ctls) (
            epoll_set-del p.ctls s h fd_own i (p.channels i).events ((p.channels i).events, i)
              (own_entry added k refl)))
  ]

-- What a poller can come to, whose channels start new: the changes of channels, each of which has its
-- descriptor to itself.
pub data Reach : EPollPoller → Type 0 where
  start :
      (fds : ℕ → ℕ)
      → Reach (record { channels = λ i. new_channel (fds i); known = λ f. none; ctls = [] })
  changes :
      {p : EPollPoller} → Reach p → (i : ℕ) → Owned p i → (c : Change) → Reach (change_events p i c)
  removes : {p : EPollPoller} → Reach p → (i : ℕ) → Owned p i → Reach (remove_channel p i)

Reach-Good : {p : EPollPoller} → Reach p → Good p
unfolding epoll_set change_events
Reach-Good (start fds) = (
  λ f. none,
  refl,
  record { holds = λ f. refl; listed = λ i h. absurd (cc (h)); fits = λ f i h. absurd (cc (h)) },
)
Reach-Good (changes {p} r i o c) =
    let (s, h, inv) = Reach-Good r in
    update_channel-Good p s h inv i o (changed c (p.channels i).events)
Reach-Good (removes {p} r i o) = let (s, h, inv) = Reach-Good r in remove_channel-Good p s h inv i o

-- What the set holds is a channel that was added, with its events.
held :
    (p : EPollPoller) (s : EpollSet)
    → Inv p s
    → (f i : ℕ) (e : Events) → s f ≡ some (e, i)
    → ((p.channels i).fd ≡ f) × ((p.channels i).index ≡ added) × ((p.channels i).events ≡ e)
held p s inv f i e h = elim (Option-cases (p.known f)) [
  | inl k ↦ absurd (cc (inv.holds f, ap (watched_channel p.channels) k, h))
  | inr (j, k) ↦
      let w : watched j (p.channels j).events (p.channels j).index ≡ some (e, i) =
        sym (ap (watched_channel p.channels) k) ∙ sym (inv.holds f) ∙ h in
      let (fd, _) = inv.fits f j k in
      elim (index_cases (p.channels j).index) [
        | is_fresh_index x ↦ absurd (cc (rw x at w))
        | is_deleted_index x ↦ absurd (cc (rw x at w))
        | is_added_index x ↦
            let o : some ((p.channels j).events, j) ≡ some (e, i) = rw x at w in
            let q : j ≡ i = cc (o) in
            let same : (p.channels j).events ≡ e = cc (o) in
            subst
              (λ i.
                ((p.channels i).fd ≡ f)
                × ((p.channels i).index ≡ added)
                × ((p.channels i).events ≡ e))
              q (fd, x, same)
      ]
]

has_channel-fresh :
    (p : EPollPoller) (s : EpollSet)
    → Inv p s
    → (i : ℕ) → has_channel p i ≡ not (is_fresh (p.channels i).index)
unfolding has_channel
has_channel-fresh p s inv i = elim (Bool-cases (is_fresh (p.channels i).index)) [
  | inr x ↦ rw (inv.listed i x, x) ((==_iff i i).1 refl)
  | inl x ↦ elim (Option-cases (p.known (p.channels i).fd)) [
    | inl k ↦ rw (k, x)
    | inr (j, k) ↦ elim (Bool-cases (j == i)) [
      | inr n ↦ rw (k, x, n)
      | inl n ↦
          let q : p.known (p.channels i).fd ≡ some i = k ∙ ap (λ y. some y) ((==_iff j i).0 n) in
          absurd (cc (x, (inv.fits (p.channels i).fd i q).1))
    ]
  ]
]

-- Whatever changes the channels of a poller go through, if each channel that is changed or removed has its
-- descriptor to itself: no call of `epoll_ctl` fails, for it adds nothing that is there and changes or deletes
-- nothing that is not; the kernel watches exactly the channels whose index says that they were added, with
-- the events that each of them wants; and the poller has exactly the channels whose index is not the one of a
-- new channel.
pub Reach-Watched :
    (p : EPollPoller)
    → Reach p
    → (s : EpollSet) × (epoll_set p.ctls ≡ some s)
      × ((i : ℕ)
          → (p.channels i).index ≡ added
          → s (p.channels i).fd ≡ some ((p.channels i).events, i))
      × ((f i : ℕ) (e : Events)
          → s f ≡ some (e, i)
          → ((p.channels i).fd ≡ f) × ((p.channels i).index ≡ added) × ((p.channels i).events ≡ e))
      × ((i : ℕ) → has_channel p i ≡ not (is_fresh (p.channels i).index))
Reach-Watched p r =
    let (s, h, inv) = Reach-Good r in
    (
      s,
      h,
      λ i k.
          inv.holds (p.channels i).fd
          ∙ ap (watched_channel p.channels) (inv.listed i (ap is_fresh k))
          ∙ ap (watched i (p.channels i).events) k,
      held p s inv,
      has_channel-fresh p s inv,
    )
