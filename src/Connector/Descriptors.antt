-- ===== src/Connector/Descriptors.antt =====
-- Connector.cc: every socket that the connector opens is closed, handed over, or still in its channel.
use vortex_net.Base.{
  ℕ, zero, suc, ◌+◌, ◌≡◌, refl, sym, subst, ◌∙◌, ap, ◌⊎◌, inl, inr, Bool, true, false, not, ◌&&◌,
  List, [], ◌∷◌, Option, none, some, arith, ◌==◌, if◌then◌else◌, Bool-cases, Option-cases,
}
use vortex_net.Connector.{
  Connector, disconnected, is_connecting, Outcome, under_way, refused, other, new, begin, retry,
  connect, start_in_loop, start, restart, succeed, verdict, write_ready, handle_write, handle_error,
  the_fd,
}

-- `Channel::handleEvent`: the error callback if EPOLLERR is set, then the write callback if EPOLLOUT is.
unfoldable pub handle_event : Connector → Option ℕ → Option ℕ → Option Connector
handle_event c none none = some c
handle_event c none (some w) = handle_write c w
handle_event c (some e) none = handle_error c e
handle_event c (some e) (some w) = elim (handle_error c e) [
  | none ↦ none
  | some c' ↦ handle_write c' w
]

-- What a connector nobody stops can come to, with the sockets opened on the way; an attempt starts
-- when no other is under way, and events come from a channel that is there.
pub data Reach : Connector → List ℕ → Type 0 where
  fresh :
      (retries has_error : Bool)
      → Reach
          (record new {
            retries = retries;
            has_error_callback = has_error;
            has_new_connection = true;
          })
          []
  starts :
      {c : Connector} {opened : List ℕ}
      → Reach c opened
      → c.channel ≡ none
      → (fd : ℕ) (o : Outcome) → Reach (start true c fd o) (fd ∷ opened)
  resumes :
      {c : Connector} {opened : List ℕ}
      → Reach c opened
      → c.channel ≡ none
      → c.connect_wanted ≡ true
      → (fd : ℕ) (o : Outcome) → Reach (start_in_loop c fd o) (fd ∷ opened)
  restarts : {c : Connector} {opened : List ℕ} → Reach c opened → Reach (restart c) opened
  fires :
      {c c' : Connector} {opened : List ℕ}
      → Reach c opened
      → (fd : ℕ) → c.channel ≡ some fd
      → (e w : Option ℕ) → handle_event c e w ≡ some c'
      → Reach c' opened

abbrev pub count : ℕ → List ℕ → ℕ
count x [] = 0
count x (y ∷ ys) = if x == y then suc (count x ys) else count x ys

pub record Inv (c : Connector) (opened : List ℕ) : Type 0 where
  pub guard : (c.channel ≡ none) → is_connecting c.state ≡ false
  pub wanted : (c.channel ≡ none) ⊎ (c.connect_wanted ≡ true)
  pub hands : c.has_new_connection ≡ true
  pub tally :
      (x : ℕ) → count x opened ≡ count x c.closed + count x c.handed + count x (the_fd c.channel)

begin-Inv :
    (c : Connector) (opened : List ℕ) (fd : ℕ)
    → Inv c opened
    → c.channel ≡ none
    → c.connect_wanted ≡ true
    → Inv (begin c fd) (fd ∷ opened)
unfolding begin
begin-Inv c opened fd i n w = record {
  guard = λ h. absurd (cc);
  wanted = inr w;
  hands = i.hands;
  tally = λ x. rw n (ground (arith, i.tally x, rw n at (i.tally x)));
}

retry_closes :
    (c : Connector) (fd error : ℕ)
    → ((retry c fd error).state ≡ disconnected)
      × ((retry c fd error).channel ≡ none)
      × ((retry c fd error).has_new_connection ≡ c.has_new_connection)
      × ((retry c fd error).connect_wanted ≡ c.connect_wanted)
      × ((retry c fd error).closed ≡ fd ∷ c.closed)
      × ((retry c fd error).handed ≡ c.handed)
unfolding retry
retry_closes c fd error = elim (Bool-cases (c.connect_wanted && c.retries)) [
  | inl e ↦ rw e (refl, refl, refl, refl, refl, refl)
  | inr e ↦ elim (Bool-cases (not c.retries && c.has_error_callback)) [
    | inl f ↦ rw (e, f) (refl, refl, refl, refl, refl, refl)
    | inr f ↦ rw (e, f) (refl, refl, refl, refl, refl, refl)
  ]
]

-- A retry closes one socket more, and leaves no channel.
retry-Inv :
    (c : Connector) (opened' : List ℕ) (fd error : ℕ)
    → c.has_new_connection ≡ true
    → ((x : ℕ) → count x opened' ≡ count x (fd ∷ c.closed) + count x c.handed)
    → Inv (retry c fd error) opened'
retry-Inv c opened' fd error h t =
    let (s, ch, n, w, cl, hd) = retry_closes c fd error in
    record {
      guard = λ k. ap is_connecting s;
      wanted = inl ch;
      hands = n ∙ h;
      tally = λ x. rw (cl, hd, ch) (t x ∙ omega arith);
    }

-- An attempt with a new socket, from a connector with no channel.
connect-Inv :
    (c : Connector) (opened : List ℕ) (fd : ℕ) (o : Outcome)
    → Inv c opened
    → c.channel ≡ none
    → c.connect_wanted ≡ true
    → Inv (connect c fd o) (fd ∷ opened)
unfolding connect
connect-Inv c opened fd under_way i n w = begin-Inv c opened fd i n w
connect-Inv c opened fd (refused e) i n w =
    retry-Inv c (fd ∷ opened) fd e i.hands (λ x. ground (arith, rw n at (i.tally x)))
connect-Inv c opened fd other i n w = record {
  guard = i.guard;
  wanted = inl n;
  hands = i.hands;
  tally = λ x. ground (arith, i.tally x);
}

succeed-Inv :
    (c : Connector) (opened : List ℕ) (fd : ℕ)
    → Inv c opened
    → c.channel ≡ some fd
    → c.connect_wanted ≡ true
    → Inv (succeed c fd) opened
unfolding succeed
succeed-Inv c opened fd i ch w = rw w (record {
  guard = λ k. refl;
  wanted = inl refl;
  hands = i.hands;
  tally = λ x. rw (i.hands) (ground (arith, rw ch at (i.tally x)));
})

retry_channel-Inv :
    (c : Connector) (opened : List ℕ) (fd e : ℕ)
    → Inv c opened
    → c.channel ≡ some fd
    → Inv (retry c fd e) opened
retry_channel-Inv c opened fd e i ch =
    retry-Inv c opened fd e i.hands (λ x. ground (arith, rw ch at (i.tally x)))

still_wanted :
    (c : Connector) (opened : List ℕ) (fd : ℕ)
    → Inv c opened
    → c.channel ≡ some fd
    → c.connect_wanted ≡ true
still_wanted c opened fd i ch = elim i.wanted [ inl n ↦ absurd (cc (n, ch)) | inr w ↦ w ]

verdict-Inv :
    (c : Connector) (opened : List ℕ) (fd error : ℕ)
    → Inv c opened
    → c.channel ≡ some fd
    → Inv (verdict c fd error) opened
verdict-Inv c opened fd zero i ch = succeed-Inv c opened fd i ch (still_wanted c opened fd i ch)
verdict-Inv c opened fd (suc e) i ch = retry_channel-Inv c opened fd (suc e) i ch

handle_write-Inv :
    (c : Connector) (opened : List ℕ) (w : ℕ)
    → Inv c opened
    → (c' : Connector) × (handle_write c w ≡ some c') × Inv c' opened
unfolding handle_write
handle_write-Inv c opened w i = elim (Bool-cases (is_connecting c.state)) [
  | inr e ↦ rw e (c, refl, i)
  | inl e ↦ elim (Option-cases c.channel) [
    | inl n ↦ absurd (cc (i.guard n, e))
    | inr (fd, ch) ↦
        (verdict c fd w, rw e (ap (λ x. write_ready x c w) ch), verdict-Inv c opened fd w i ch)
  ]
]

-- No event of the channel faults, and each keeps the invariant.
handle_event-Inv :
    (c : Connector) (opened : List ℕ) (fd : ℕ) (e w : Option ℕ)
    → Inv c opened
    → c.channel ≡ some fd
    → (c' : Connector) × (handle_event c e w ≡ some c') × Inv c' opened
unfolding handle_event handle_error
handle_event-Inv c opened fd none none i ch = (c, refl, i)
handle_event-Inv c opened fd none (some w) i ch = handle_write-Inv c opened w i
handle_event-Inv c opened fd (some e) none i ch =
    (retry c fd e, rw ch, retry_channel-Inv c opened fd e i ch)
handle_event-Inv c opened fd (some e) (some w) i ch =
    let (c', s, j) =
      handle_write-Inv (retry c fd e) opened w (retry_channel-Inv c opened fd e i ch) in
    (c', ap then_write error ∙ s, j)
  where
    then_write : Option Connector → Option Connector
    then_write o = elim o [ none ↦ none | some x ↦ handle_write x w ]

    error : handle_error c e ≡ some (retry c fd e)
    error = rw ch

Reach-Inv : {c : Connector} {opened : List ℕ} → Reach c opened → Inv c opened
unfolding start start_in_loop restart
Reach-Inv (fresh r e) = record {
  guard = λ k. refl;
  wanted = inl refl;
  hands = refl;
  tally = λ x. refl;
}
Reach-Inv (starts {c} {opened} r n fd o) =
    let i = Reach-Inv r in
    connect-Inv (record c { connect_wanted = true }) opened fd o
      (record { guard = i.guard; wanted = inr refl; hands = i.hands; tally = i.tally }) n refl
Reach-Inv (resumes {c} {opened} r n w fd o) =
    let runs : start_in_loop c fd o ≡ connect c fd o =
      ap (λ b. if b then connect c fd o else c) w in
    subst (λ x. Inv x (fd ∷ opened)) (sym runs) (connect-Inv c opened fd o (Reach-Inv r) n w)
Reach-Inv (restarts {c} {opened} r) =
    let i = Reach-Inv r in
    record { guard = λ k. refl; wanted = inr refl; hands = i.hands; tally = i.tally }
Reach-Inv (fires {c} {c'} {opened} r fd ch e w h) =
    let (c'', s, j) = handle_event-Inv c opened fd e w (Reach-Inv r) ch in
    let same : c'' ≡ c' = cc (s, h) in subst (λ x. Inv x opened) same j

-- In whatever state a connector can come to that has a new connection callback, that nobody stops and
-- that starts no attempt while another is under way: each socket that it opened was closed or handed over
-- as often as it was opened, less the one that its channel may hold, and no event of the channel, with or
-- without an error, reads a channel that is not there.
pub Reach-Accounted :
    (c : Connector) (opened : List ℕ)
    → Reach c opened
    → ((x : ℕ) → count x opened ≡ count x c.closed + count x c.handed + count x (the_fd c.channel))
      × ((fd : ℕ) (e w : Option ℕ)
          → c.channel ≡ some fd
          → (c' : Connector) × (handle_event c e w ≡ some c'))
Reach-Accounted c opened r = (
  (Reach-Inv r).tally,
  λ fd e w ch. let (c', s, _) = handle_event-Inv c opened fd e w (Reach-Inv r) ch in (c', s),
)
