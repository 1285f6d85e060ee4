-- ===== src/EPollPoller/Watched.antt =====
-- EPollPoller.cc: the poller asks the kernel for what the channels want, and the kernel can always do it.
use vortex_net.Base.{
  ℕ, ◌≡◌, refl, sym, subst, ◌∙◌, ap, ◌⊎◌, inl, inr, Bool, true, false, List, [], ◌∷◌, Option, none,
  some, ◌==◌, ==_iff, Bool-cases, Option-cases,
}
use vortex_net.EPollPoller.{
  Events, Index, fresh, added, Channel, Ctl, ctl_add, ctl_mod, ctl_del, EPollPoller, put,
}

-- The set that `epoll_ctl` keeps, by descriptor. A call fails that adds what is there, or changes or
-- deletes what is not.
abbrev pub EpollSet : Type 0
EpollSet = ℕ → Option (Events × ℕ)

abbrev pub epoll_ctl : Ctl → EpollSet → Option EpollSet
epoll_ctl (ctl_add fd e i) s = elim (s fd) [ none ↦ some (put s fd (some (e, i))) | some x ↦ none ]
epoll_ctl (ctl_mod fd e i) s = elim (s fd) [ none ↦ none | some x ↦ some (put s fd (some (e, i))) ]
epoll_ctl (ctl_del fd e i) s = elim (s fd) [ none ↦ none | some x ↦ some (put s fd none) ]

-- The set after all those calls, if none failed.
unfoldable pub epoll_set : List Ctl → Option EpollSet
epoll_set [] = some (λ f. none)
epoll_set (c ∷ cs) = elim (epoll_set cs) [ none ↦ none | some s ↦ epoll_ctl c s ]

abbrev pub is_fresh : Index → Bool
is_fresh fresh = true
is_fresh _ = false

-- What the set has to hold of a channel, and of a descriptor.
abbrev pub watched : ℕ → Events → Index → Option (Events × ℕ)
watched i e added = some (e, i)
watched i e _ = none

abbrev pub watched_channel : (ℕ → Channel) → Option ℕ → Option (Events × ℕ)
watched_channel cs none = none
watched_channel cs (some i) = watched i (cs i).events (cs i).index

pub record Inv (p : EPollPoller) (s : EpollSet) : Type 0 where
  pub holds : (f : ℕ) → s f ≡ watched_channel p.channels (p.known f)
  pub listed : (i : ℕ) → is_fresh (p.channels i).index ≡ false → p.known (p.channels i).fd ≡ some i
  pub fits :
      (f i : ℕ)
      → p.known f ≡ some i
      → ((p.channels i).fd ≡ f) × (is_fresh (p.channels i).index ≡ false)

pub put_same {ℓ} : {A : Type ℓ} (f : ℕ → A) (k : ℕ) (v : A) → put f k v k ≡ v
unfolding put
put_same f k v = rw ((==_iff k k).1 refl)

pub put_other {ℓ} :
    {A : Type ℓ} (f : ℕ → A) (k : ℕ) (v : A) (j : ℕ) → (k == j) ≡ false → put f k v j ≡ f j
unfolding put
put_other f k v j e = rw e

-- The descriptor of the channel i is known as its own, or as no one's.
abbrev pub Owned : EPollPoller → ℕ → Type 0
Owned p i = (p.known (p.channels i).fd ≡ some i) ⊎ (p.known (p.channels i).fd ≡ none)

-- The channel i becomes c, and nothing else but its descriptor's entries changes.
module _ (p : EPollPoller) (s : EpollSet) (inv : Inv p s) (i : ℕ) (owned : Owned p i) (c : Channel)
    (same_fd : c.fd ≡ (p.channels i).fd) (known' : Option ℕ) (entry : Option (Events × ℕ))
    (agrees : ((known' ≡ some i)
        × (is_fresh c.index ≡ false)
        × (entry ≡ watched i c.events c.index))
      ⊎ ((known' ≡ none) × (is_fresh c.index ≡ true) × (entry ≡ none)))
    (cs : List Ctl) where
  abbrev pub next : EPollPoller
  next = record {
    channels = put p.channels i c;
    known = put p.known (p.channels i).fd known';
    ctls = cs;
  }

  abbrev pub next_set : EpollSet
  next_set = put s (p.channels i).fd entry

  abbrev fd_i : ℕ
  fd_i = (p.channels i).fd

  channel_other : (j : ℕ) → (i == j) ≡ false → next.channels j ≡ p.channels j
  channel_other j e = put_other p.channels i c j e

  known_other : (f : ℕ) → (fd_i == f) ≡ false → next.known f ≡ p.known f
  known_other f e = put_other p.known fd_i known' f e

  -- Another channel that is known has another descriptor.
  other_fd :
      (j : ℕ)
      → (i == j) ≡ false
      → p.known (p.channels j).fd ≡ some j
      → (fd_i == (p.channels j).fd) ≡ false
  other_fd j n k = elim (Bool-cases (fd_i == (p.channels j).fd)) [
    | inr e ↦ e
    | inl e ↦
        let same : fd_i ≡ (p.channels j).fd = (==_iff fd_i (p.channels j).fd).0 e in
        elim owned [
          | inl o ↦ let q : i ≡ j = cc (same, o, k) in absurd (cc (n, (==_iff i j).1 q))
          | inr o ↦ absurd (cc (same, o, k))
        ]
  ]

  listed_i : is_fresh (next.channels i).index ≡ false → next.known (next.channels i).fd ≡ some i
  listed_i h = elim agrees [
    | inr (k, n, w) ↦ absurd (cc (ap (λ x. is_fresh x.index) (put_same p.channels i c), h, n))
    | inl (k, n, w) ↦
        ap (λ x. next.known x.fd) (put_same p.channels i c)
        ∙ ap next.known same_fd
        ∙ put_same p.known fd_i known'
        ∙ k
  ]

  listed' :
      (j : ℕ) → is_fresh (next.channels j).index ≡ false → next.known (next.channels j).fd ≡ some j
  listed' j h = elim (Bool-cases (i == j)) [
    | inl e ↦
        subst
          (λ j. is_fresh (next.channels j).index ≡ false → next.known (next.channels j).fd ≡ some j)
          ((==_iff i j).0 e) listed_i h
    | inr e ↦
        let l = inv.listed j (sym (ap (λ x. is_fresh x.index) (channel_other j e)) ∙ h) in
        ap (λ x. next.known x.fd) (channel_other j e)
        ∙ known_other (p.channels j).fd (other_fd j e l)
        ∙ l
  ]

  fits_i :
      (j : ℕ)
      → next.known fd_i ≡ some j
      → ((next.channels j).fd ≡ fd_i) × (is_fresh (next.channels j).index ≡ false)
  fits_i j h = elim agrees [
    | inr (k, n, w) ↦ absurd (cc (put_same p.known fd_i known', h, k))
    | inl (k, n, w) ↦
        let q : i ≡ j = cc (put_same p.known fd_i known', h, k) in
        subst (λ j. ((next.channels j).fd ≡ fd_i) × (is_fresh (next.channels j).index ≡ false)) q
          (
            ap (λ x. x.fd) (put_same p.channels i c) ∙ same_fd,
            ap (λ x. is_fresh x.index) (put_same p.channels i c) ∙ n,
          )
  ]

  other_channel : (f j : ℕ) → (fd_i == f) ≡ false → p.known f ≡ some j → (i == j) ≡ false
  other_channel f j e k = elim (Bool-cases (i == j)) [
    | inr n ↦ n
    | inl n ↦
        let q : i ≡ j = (==_iff i j).0 n in
        let same : fd_i ≡ f = ap (λ x. (p.channels x).fd) q ∙ (inv.fits f j k).0 in
        absurd (cc (e, (==_iff fd_i f).1 same))
  ]

  fits' :
      (f j : ℕ)
      → next.known f ≡ some j
      → ((next.channels j).fd ≡ f) × (is_fresh (next.channels j).index ≡ false)
  fits' f j h = elim (Bool-cases (fd_i == f)) [
    | inl e ↦
        let q : fd_i ≡ f = (==_iff fd_i f).0 e in
        subst
          (λ f.
            next.known f ≡ some j
            → ((next.channels j).fd ≡ f) × (is_fresh (next.channels j).index ≡ false))
          q (fits_i j) h
    | inr e ↦
        let k = sym (known_other f e) ∙ h in
        let o = channel_other j (other_channel f j e k) in
        let (a, b) = inv.fits f j k in (ap (λ x. x.fd) o ∙ a, ap (λ x. is_fresh x.index) o ∙ b)
  ]

  holds_i : next_set fd_i ≡ watched_channel next.channels (next.known fd_i)
  holds_i = elim agrees [
    | inr (k, n, w) ↦
        put_same s fd_i entry
        ∙ w
        ∙ sym (ap (watched_channel next.channels) (put_same p.known fd_i known' ∙ k))
    | inl (k, n, w) ↦
        put_same s fd_i entry
        ∙ w
        ∙ sym (
            ap (watched_channel next.channels) (put_same p.known fd_i known' ∙ k)
            ∙ ap (λ x. watched i x.events x.index) (put_same p.channels i c))
  ]

  kept :
      (f : ℕ)
      → (fd_i == f) ≡ false
      → watched_channel p.channels (p.known f) ≡ watched_channel next.channels (p.known f)
  kept f e = elim (Option-cases (p.known f)) [
    | inl k ↦ rw k
    | inr (j, k) ↦ rw (k, channel_other j (other_channel f j e k))
  ]

  holds' : (f : ℕ) → next_set f ≡ watched_channel next.channels (next.known f)
  holds' f = elim (Bool-cases (fd_i == f)) [
    | inl e ↦
        subst (λ f. next_set f ≡ watched_channel next.channels (next.known f)) ((==_iff fd_i f).0 e)
          holds_i
    | inr e ↦
        put_other s fd_i entry f e
        ∙ inv.holds f
        ∙ kept f e
        ∙ sym (ap (watched_channel next.channels) (known_other f e))
  ]

  pub next-Inv : Inv next next_set
  next-Inv = record { holds = holds'; listed = listed'; fits = fits' }
