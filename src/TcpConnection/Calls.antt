-- ===== src/TcpConnection/Calls.antt =====
-- TcpConnection.cc: the calls that a connection's loop makes, and the invariant that sending, writing and
-- shutting down keep.
use vortex_net.Base.{
  ℕ, ◌+◌, ◌≤◌, ◌≡◌, refl, ap, sym, ◌∙◌, ◌⊎◌, inl, inr, true, false, Option, none, some, List,
  length, arith, Bool-cases,
}
use vortex_net.Buffer.{readable_bytes, Readv}
use vortex_net.Buffer.Inv.{max_size}
use vortex_net.TcpConnection.{
  TcpConnection, ConnState, connected, connecting, disconnecting, disconnected, Write, is_connected,
  is_disconnected, send, send_in_loop, shutdown, shutdown_in_loop, handle_write, handle_close,
  force_close, connect_destroyed, try_write, keep_rest, drained, wrote, would_block, peer_gone,
  other_error, Functor, send_in_loop_task, shutdown_in_loop_task, connect_established, handle_read,
  run_functor,
}
use vortex_net.TcpConnection.Stream.{IsOrdered, Fits, send_in_loop_lem}
use vortex_net.TcpConnection.Flush.{handle_write-Flushed}

-- A call, in the loop's thread if it does not say otherwise, with the kernel's answer where it makes a system call. `runs` is a
-- functor that another thread, or the connection itself, has queued for the loop.
pub data Op : Type 0 where
  sends : List ℕ → Write → Op
  shuts : Op
  writes : Write → Op
  closes : Op
  force_closes : Op
  destroys : Op
  establishes : Op
  reads : Readv → Op
  runs : Functor → Write → Op
  -- Calls in another thread.
  outside_sends : List ℕ → Op
  outside_shuts : Op
  outside_force_closes : Op

-- What `handleRead` leaves, if it returns.
abbrev pub read_or : TcpConnection → Option TcpConnection → TcpConnection
read_or c none = c
read_or c (some d) = d

unfoldable pub step : TcpConnection → Op → TcpConnection
step c (sends bytes w) = send true c bytes w
step c shuts = shutdown true c
step c (writes w) = handle_write c w
step c closes = handle_close c
step c force_closes = force_close true c
step c destroys = connect_destroyed c
step c establishes = connect_established c
step c (reads r) = read_or c (handle_read c r)
step c (runs f w) = run_functor c f w
step c (outside_sends bytes) = send false c bytes would_block
step c outside_shuts = shutdown false c
step c outside_force_closes = force_close false c

-- The kernel takes no more than it is given, and the output buffer can hold the rest; the input does
-- not run past its stack buffer. A connection is established once, from `kConnecting`. The functor of
-- `shutdown` was queued by a call that left `kConnected`. The functor of a `send` from another thread
-- is let in only before the write side is shut: `sendInLoop` does not test that.
abbrev pub Possible : TcpConnection → Op → Type 0
Possible c (sends bytes w) =
    Fits w (length bytes) × (c.output_buffer.writer_index + length bytes ≤ max_size)
Possible c establishes = (c.state ≡ connecting) × (c.write_shut ≡ false)
Possible c (reads r) = (d : TcpConnection) × (handle_read c r ≡ some d)
Possible c (runs (send_in_loop_task bytes) w) =
    (c.write_shut ≡ false)
    × Fits w (length bytes)
    × (c.output_buffer.writer_index + length bytes ≤ max_size)
Possible c (runs shutdown_in_loop_task w) = is_connected c.state ≡ false
Possible c _ = Unit

pub record Inv (c : TcpConnection) : Type 0 where
  pub ordered : IsOrdered c
  -- A closed channel watches for nothing.
  pub closed : is_disconnected c.state ≡ true → c.write_enabled ≡ false
  -- The write side is shut only after the last byte, unless the connection is closed already.
  pub shut :
      c.write_shut ≡ true
      → (is_connected c.state ≡ false)
        × (c.write_enabled ≡ false)
        × ((is_disconnected c.state ≡ true) ⊎ (readable_bytes c.output_buffer ≡ 0))

pub up_of_connected : (s : ConnState) → is_connected s ≡ true → is_disconnected s ≡ false
up_of_connected connected h = refl
up_of_connected disconnected h = absurd (cc)
up_of_connected connecting h = refl
up_of_connected disconnecting h = refl

send_in_loop-down :
    (c : TcpConnection) (bytes : List ℕ) (w : Write)
    → is_disconnected c.state ≡ true
    → send_in_loop c bytes w ≡ c
unfolding send_in_loop
send_in_loop-down c bytes w h = rw h

send_in_loop-frame :
    (c : TcpConnection) (bytes : List ℕ) (w : Write)
    → ((send_in_loop c bytes w).state ≡ c.state)
      × ((send_in_loop c bytes w).write_shut ≡ c.write_shut)
unfolding send_in_loop try_write keep_rest
send_in_loop-frame c bytes (wrote n) = ground arith
send_in_loop-frame c bytes would_block = ground arith
send_in_loop-frame c bytes peer_gone = ground arith
send_in_loop-frame c bytes other_error = ground arith

pub queued_send-Inv :
    (c : TcpConnection) (bytes : List ℕ) (w : Write)
    → Inv c
    → Possible c (runs (send_in_loop_task bytes) w)
    → Inv (send_in_loop c bytes w)
queued_send-Inv c bytes w v p = elim (Bool-cases (is_disconnected c.state)) [
  | inl e ↦ rw (send_in_loop-down c bytes w e) v
  | inr e ↦
      let (st, sh) = send_in_loop-frame c bytes w in
      record {
        ordered = (send_in_loop_lem bytes w v.ordered e p.1 p.2).0;
        closed = λ f. absurd (cc (ap is_disconnected st));
        shut = λ f. absurd (cc);
      }
]

pub send-Inv :
    (c : TcpConnection) (bytes : List ℕ) (w : Write)
    → Inv c
    → Possible c (sends bytes w)
    → Inv (send true c bytes w)
unfolding send
send-Inv c bytes w v p = elim (Bool-cases (is_connected c.state)) [
  | inl e ↦
      let (st, sh) = send_in_loop-frame c bytes w in
      let up = up_of_connected c.state e in
      rw e (record {
        ordered = (send_in_loop_lem bytes w v.ordered up p.0 p.1).0;
        closed = λ f. absurd (cc);
        shut = λ f. absurd (cc (v.shut (sym sh ∙ f)).0);
      })
  | inr e ↦ rw e v
]

handle_write-shut :
    (c : TcpConnection) (w : Write)
    → c.write_shut ≡ false
    → (handle_write c w).write_shut ≡ true
    → (is_connected (handle_write c w).state ≡ false)
      × ((handle_write c w).write_enabled ≡ false)
      × (readable_bytes (handle_write c w).output_buffer ≡ 0)
unfolding handle_write drained shutdown_in_loop
handle_write-shut c w h k = ground arith

pub handle_write-off :
    (c : TcpConnection) (w : Write) → c.write_enabled ≡ false → handle_write c w ≡ c
unfolding handle_write
handle_write-off c w h = rw h

pub handle_write-Inv : (c : TcpConnection) (w : Write) → Inv c → Inv (handle_write c w)
handle_write-Inv c w v = elim (Bool-cases c.write_enabled) [
  | inl on ↦
      let f = handle_write-Flushed w v.ordered in
      record {
        ordered = f.ordered;
        closed = λ e. absurd (cc (v.closed (sym (ap is_disconnected f.same_state) ∙ e)));
        shut = λ e. elim (Bool-cases c.write_shut) [
          | inl s ↦ absurd (cc (v.shut s).1)
          | inr s ↦ let (a, b, d) = handle_write-shut c w s e in (a, b, inr d)
        ];
      }
  | inr off ↦ rw (handle_write-off c w off) v
]

pub shutdown-Inv : (c : TcpConnection) → Inv c → Inv (shutdown true c)
unfolding shutdown shutdown_in_loop
shutdown-Inv c v = elim (Bool-cases (is_connected c.state)) [
  | inl e ↦ elim (Bool-cases c.write_enabled) [
    | inl on ↦
        rw (e, on)
          (record {
            ordered = record {
              output_valid = v.ordered.output_valid;
              asks = λ f. v.ordered.asks on;
              quiet = λ f g. absurd (cc);
            };
            closed = λ f. absurd (cc);
            shut = λ f. absurd (cc (v.shut f).1);
          })
    | inr off ↦
        let up = up_of_connected c.state e in
        rw (e, off)
          (record {
            ordered = record {
              output_valid = v.ordered.output_valid;
              asks = λ f. absurd (cc);
              quiet = λ f g. v.ordered.quiet off up;
            };
            closed = λ f. absurd (cc);
            shut = λ f. (refl, refl, inr (v.ordered.quiet off up));
          })
  ]
  | inr e ↦ rw e v
]
