-- ===== src/EPollPoller/Tests.antt =====
-- Runs of the poller, and its theorem at a concrete input.
use vortex_net.Base.{◌+◌, ◌≡◌, refl, inl, inr, ℕ, true, false, not, [], ◌∷◌, none, some}
use vortex_net.EPollPoller.{
  EPollPoller, Events, none_event, added, new_channel, ctl_add, ctl_mod, ctl_del, put, update_with,
  has_channel, change_events, enable_reading, enable_writing, disable_all,
}
use vortex_net.EPollPoller.Watched.{EpollSet, epoll_set, is_fresh}
use vortex_net.EPollPoller.Steps.{Reach, start, changes, Reach-Watched}

abbrev empty : EPollPoller
empty = record { channels = λ i. new_channel (i + 5); known = λ f. none; ctls = [] }

abbrev reads : EPollPoller
reads = change_events empty 1 enable_reading

abbrev disabled : EPollPoller
disabled = change_events (change_events reads 1 enable_writing) 1 disable_all

calls :
    disabled.ctls
    ≡ ctl_del 6 none_event 1
      ∷ ctl_mod 6 (record { read = true; write = true }) 1
      ∷ ctl_add 6 (record { read = true; write = false }) 1
      ∷ []
unfolding change_events update_with put
calls = refl

-- Disabling a channel that watches nothing adds it again, with no events.
added_again : (change_events disabled 1 disable_all).ctls ≡ ctl_add 6 none_event 1 ∷ disabled.ctls
unfolding change_events update_with put
added_again = refl

disabled-Reach : Reach disabled
unfolding change_events update_with put
disabled-Reach =
    let r1 = changes (start (λ i. i + 5)) 1 (inr refl) enable_reading in
    changes (changes r1 1 (inl refl) enable_writing) 1 (inl refl) disable_all

Reach-Watched_example :
    (s : EpollSet) × (epoll_set disabled.ctls ≡ some s)
    × ((i : ℕ)
        → (disabled.channels i).index ≡ added
        → s (disabled.channels i).fd ≡ some ((disabled.channels i).events, i))
    × ((f i : ℕ) (e : Events)
        → s f ≡ some (e, i)
        → ((disabled.channels i).fd ≡ f)
          × ((disabled.channels i).index ≡ added)
          × ((disabled.channels i).events ≡ e))
    × ((i : ℕ) → has_channel disabled i ≡ not (is_fresh (disabled.channels i).index))
Reach-Watched_example = Reach-Watched disabled disabled-Reach
