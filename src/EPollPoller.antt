-- ===== src/EPollPoller.antt =====
-- src/EPollPoller.cc, src/Poller.cc and src/Channel.h: what a loop watches. A channel is a number, and the
-- calls of `epoll_ctl` are a list, the latest first.
pub mod Watched
pub mod Kernel
pub mod Steps
mod Tests
use vortex_net.Channel.{Revents}
use vortex_net.Base.{
  ℕ, zero, suc, Bool, true, false, ◌*◌, ◌||◌, not, map, length, List, [], ◌∷◌, Option, none, some,
  ◌==◌, if◌then◌else◌,
}

-- `events_`: whether `kReadEvent` is set in it, and `kWriteEvent`.
pub record Events : Type 0 where
  pub read : Bool
  pub write : Bool

abbrev pub none_event : Events
none_event = record { read = false; write = false }

-- `index_`: `kNew`, `kAdded` or `kDeleted`.
pub data Index : Type 0 where
  fresh : Index
  added : Index
  deleted : Index

pub record Channel : Type 0 where
  pub fd : ℕ
  pub events : Events
  pub index : Index

abbrev pub new_channel : ℕ → Channel
new_channel fd = record { fd = fd; events = none_event; index = fresh }

-- A call of `epoll_ctl`, with the descriptor, the events and the channel that it is given.
pub data Ctl : Type 0 where
  ctl_add : ℕ → Events → ℕ → Ctl
  ctl_mod : ℕ → Events → ℕ → Ctl
  ctl_del : ℕ → Events → ℕ → Ctl

-- All channels, those that the poller knows by descriptor (`channels_`), and the calls made.
pub record EPollPoller : Type 0 where
  pub channels : ℕ → Channel
  pub known : ℕ → Option ℕ
  pub ctls : List Ctl

unfoldable pub put {ℓ} : {A : Type ℓ} → (ℕ → A) → ℕ → A → ℕ → A
put f k v j = if k == j then v else f j

abbrev pub is_none_event : Channel → Bool
is_none_event c = not (c.events.read || c.events.write)

-- The channel i, which is c, with its new index, and a call of `update`.
abbrev pub update : EPollPoller → ℕ → Channel → Index → (ℕ → Events → ℕ → Ctl) → EPollPoller
update p i c index operation = record p {
  channels = put p.channels i (record c { index = index });
  ctls = operation c.fd c.events i ∷ p.ctls;
}

-- `EPollPoller::updateChannel`, of the channel i, which is c.
unfoldable pub update_with : EPollPoller → ℕ → Channel → EPollPoller
update_with p i c = elim c.index [
  | fresh ↦ update (record p { known = put p.known c.fd (some i) }) i c added ctl_add
  | deleted ↦ update p i c added ctl_add
  | added ↦ if is_none_event c then update p i c deleted ctl_del else update p i c added ctl_mod
]

abbrev pub update_channel : EPollPoller → ℕ → EPollPoller
update_channel p i = update_with p i (p.channels i)

-- `EPollPoller::removeChannel`, of the channel i, which is c.
unfoldable pub remove_with : EPollPoller → ℕ → Channel → EPollPoller
remove_with p i c =
    let q = record p { known = put p.known c.fd none } in
    elim c.index [
      | added ↦ update q i c fresh ctl_del
      | _ ↦ record q { channels = put p.channels i (record c { index = fresh }) }
    ]

abbrev pub remove_channel : EPollPoller → ℕ → EPollPoller
remove_channel p i = remove_with p i (p.channels i)

-- `Poller::hasChannel`.
abbrev pub is_channel : Option ℕ → ℕ → Bool
is_channel none i = false
is_channel (some j) i = j == i

unfoldable pub has_channel : EPollPoller → ℕ → Bool
has_channel p i = is_channel (p.known (p.channels i).fd) i

-- `Channel::enableReading` and the others that change the events.
pub data Change : Type 0 where
  enable_reading : Change
  disable_reading : Change
  enable_writing : Change
  disable_writing : Change
  disable_all : Change

abbrev pub changed : Change → Events → Events
changed enable_reading e = record e { read = true }
changed disable_reading e = record e { read = false }
changed enable_writing e = record e { write = true }
changed disable_writing e = record e { write = false }
changed disable_all e = none_event

abbrev pub set_events : EPollPoller → ℕ → Events → EPollPoller
set_events p i e = record p { channels = put p.channels i (record (p.channels i) { events = e }) }

-- A change, with the `update` behind it.
unfoldable pub change_events : EPollPoller → ℕ → Change → EPollPoller
change_events p i c = update_channel (set_events p i (changed c (p.channels i).events)) i

-- What `epoll_wait` answers: the events at the front of `events_`, each with its channel, or -1.
pub data Waited : Type 0 where
  happened : List (Revents × ℕ) → Waited
  failed : Waited

-- `fillActiveChannels`: the channels in the order of the events, with what they are given as `revents_`.
abbrev pub fill_active_channels : List (Revents × ℕ) → List (ℕ × Revents)
fill_active_channels es = map (λ (r, i). (i, r)) es

-- `poll`, with the size of `events_`: its size afterwards, and the active channels.
unfoldable pub poll : ℕ → Waited → ℕ × List (ℕ × Revents)
poll size failed = (size, [])
poll size (happened es) = (if length es == size then size * 2 else size, fill_active_channels es)
