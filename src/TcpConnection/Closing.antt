-- ===== src/TcpConnection/Closing.antt =====
-- TcpConnection.cc: establishing, reading, closing, the queued functors and calls in other threads keep the invariant.
use vortex_net.Base.{
  ℕ, ◌++◌, List, [], ◌∷◌, ◌≡◌, refl, ap, sym, subst, ◌∙◌, ◌⊎◌, inl, inr, true, false, some, arith,
  Bool-cases,
}
use vortex_net.Buffer.{Readv}
use vortex_net.Buffer.Inv.{IsValid}
use vortex_net.TcpConnection.{
  ConnState, connected, connecting, send, shutdown, would_block, TcpConnection, disconnecting,
  disconnected, Write, is_connected, is_disconnected, is_open, shutdown_in_loop, handle_close,
  force_close, force_close_in_loop, connect_destroyed, Functor, send_in_loop_task,
  shutdown_in_loop_task, force_close_in_loop_task, write_complete_task, high_water_mark_task,
  connect_established, handle_read, run_functor,
}
use vortex_net.TcpConnection.Calls.{
  outside_sends, outside_shuts, outside_force_closes, up_of_connected, Op, read_or, step, Possible,
  Inv, queued_send-Inv, send-Inv, handle_write-Inv, shutdown-Inv, sends, shuts, writes, closes,
  force_closes, destroys, establishes, reads, runs,
}

closed-Inv :
    (c : TcpConnection)
    → IsValid c.output_buffer
    → c.state ≡ disconnected
    → c.write_enabled ≡ false
    → Inv c
closed-Inv c v st off = record {
  ordered = record {
    output_valid = v;
    asks = λ e. absurd (cc);
    quiet = λ e f. absurd (cc (ap is_disconnected st));
  };
  closed = λ e. off;
  shut = λ e. (ap is_connected st, off, inl (ap is_disconnected st));
}

handle_close-Inv : (c : TcpConnection) → IsValid c.output_buffer → Inv (handle_close c)
unfolding handle_close
handle_close-Inv c v = closed-Inv _ v refl refl

force_close-Inv : (c : TcpConnection) → Inv c → Inv (force_close true c)
unfolding force_close force_close_in_loop
force_close-Inv c v = elim (Bool-cases (is_open c.state)) [
  | inl e ↦ rw e (handle_close-Inv (record c { state = disconnecting }) v.ordered.output_valid)
  | inr e ↦ rw e v
]

connect_destroyed-Inv : (c : TcpConnection) → Inv c → Inv (connect_destroyed c)
unfolding connect_destroyed
connect_destroyed-Inv c v = elim (Bool-cases (is_connected c.state)) [
  | inl e ↦ rw e (closed-Inv _ v.ordered.output_valid refl refl)
  | inr e ↦ rw e (record {
    ordered = record {
      output_valid = v.ordered.output_valid;
      asks = v.ordered.asks;
      quiet = v.ordered.quiet;
    };
    closed = v.closed;
    shut = v.shut;
  })
]

connect_established-Inv :
    (c : TcpConnection) → Inv c → Possible c establishes → Inv (connect_established c)
unfolding connect_established
connect_established-Inv c v p = record {
  ordered = record {
    output_valid = v.ordered.output_valid;
    asks = v.ordered.asks;
    quiet = λ e f. v.ordered.quiet e (ap is_disconnected p.0);
  };
  closed = λ e. absurd (cc);
  shut = λ e. absurd (cc);
}

-- What `handleRead` leaves: the same connection with other input, or a closed one.
pub handle_read-frame :
    (c d : TcpConnection) (r : Readv)
    → handle_read c r ≡ some d
    → (d.output_buffer ≡ c.output_buffer)
      × (d.wire ≡ c.wire)
      × (d.write_shut ≡ c.write_shut)
      × (((d.state ≡ c.state) × (d.write_enabled ≡ c.write_enabled))
          ⊎ ((d.state ≡ disconnected) × (d.write_enabled ≡ false)))
unfolding handle_read handle_close
handle_read-frame c d r h = ground arith

handle_read-Inv : (c d : TcpConnection) (r : Readv) → Inv c → handle_read c r ≡ some d → Inv d
handle_read-Inv c d r v h =
    let (out, wire, sh, which) = handle_read-frame c d r h in
    let valid : IsValid d.output_buffer = rw out v.ordered.output_valid in
    elim which [
      | inl (st, on) ↦ record {
        ordered = record {
          output_valid = valid;
          asks = λ e. rw out (v.ordered.asks (sym on ∙ e));
          quiet = λ e f. rw out (v.ordered.quiet (sym on ∙ e) (ap is_disconnected (sym st) ∙ f));
        };
        closed = λ e. on ∙ v.closed (ap is_disconnected (sym st) ∙ e);
        shut = λ e. rw (out, st, on) (v.shut (sym sh ∙ e));
      }
      | inr (st, off) ↦ closed-Inv d valid st off
    ]

shutdown_in_loop-waits : (c : TcpConnection) → c.write_enabled ≡ true → shutdown_in_loop c ≡ c
unfolding shutdown_in_loop
shutdown_in_loop-waits c h = rw h

queued_shutdown-Inv :
    (c : TcpConnection) → Inv c → is_connected c.state ≡ false → Inv (shutdown_in_loop c)
unfolding shutdown_in_loop
queued_shutdown-Inv c v h = elim (Bool-cases c.write_enabled) [
  | inl on ↦ subst Inv (sym (shutdown_in_loop-waits c on)) v
  | inr off ↦ rw off (record {
    ordered = record {
      output_valid = v.ordered.output_valid;
      asks = λ f. absurd (cc);
      quiet = λ f g. v.ordered.quiet off g;
    };
    closed = λ f. refl;
    shut = λ f. elim (Bool-cases (is_disconnected c.state)) [
      | inl down ↦ (h, refl, inl down)
      | inr up ↦ (h, refl, inr (v.ordered.quiet off up))
    ];
  })
]

queued_close-Inv : (c : TcpConnection) → Inv c → Inv (force_close_in_loop c)
unfolding force_close_in_loop
queued_close-Inv c v = elim (Bool-cases (is_open c.state)) [
  | inl e ↦ rw e (handle_close-Inv c v.ordered.output_valid)
  | inr e ↦ rw e v
]

run_functor-Inv :
    (c : TcpConnection) (f : Functor) (w : Write)
    → Inv c
    → Possible c (runs f w)
    → Inv (run_functor c f w)
unfolding run_functor
run_functor-Inv c (send_in_loop_task bytes) w v p = queued_send-Inv c bytes w v p
run_functor-Inv c shutdown_in_loop_task w v p = queued_shutdown-Inv c v p
run_functor-Inv c force_close_in_loop_task w v p = queued_close-Inv c v
run_functor-Inv c write_complete_task w v p = v
run_functor-Inv c (high_water_mark_task n) w v p = v

pub step-reads : (c d : TcpConnection) (r : Readv) → handle_read c r ≡ some d → step c (reads r) ≡ d
unfolding step
step-reads c d r e = ap (λ x. read_or c x) e

-- A call in another thread changes the state and the queue of functors only.
queued-Inv : (c : TcpConnection) (fs : List Functor) → Inv c → Inv (record c { pending = fs })
queued-Inv c fs v = record {
  ordered = record {
    output_valid = v.ordered.output_valid;
    asks = v.ordered.asks;
    quiet = v.ordered.quiet;
  };
  closed = v.closed;
  shut = v.shut;
}

leaving-Inv :
    (c : TcpConnection) (fs : List Functor)
    → is_disconnected c.state ≡ false
    → Inv c
    → Inv (record c { state = disconnecting; pending = fs })
leaving-Inv c fs up v = record {
  ordered = record {
    output_valid = v.ordered.output_valid;
    asks = v.ordered.asks;
    quiet = λ e f. v.ordered.quiet e up;
  };
  closed = λ e. absurd (cc);
  shut = λ e.
      let (a, off, which) = v.shut e in
      (refl, off, elim which [ inl down ↦ absurd (cc (up, down)) | inr z ↦ inr z ]);
}

up_of_open : (s : ConnState) → is_open s ≡ true → is_disconnected s ≡ false
up_of_open connected h = refl
up_of_open disconnecting h = refl
up_of_open connecting h = absurd (cc)
up_of_open disconnected h = absurd (cc)

outside_send-Inv :
    (c : TcpConnection) (bytes : List ℕ) → Inv c → Inv (send false c bytes would_block)
unfolding send
outside_send-Inv c bytes v = elim (Bool-cases (is_connected c.state)) [
  | inl e ↦ rw e (queued-Inv c (c.pending ++ (send_in_loop_task bytes ∷ [])) v)
  | inr e ↦ rw e v
]

outside_shutdown-Inv : (c : TcpConnection) → Inv c → Inv (shutdown false c)
unfolding shutdown
outside_shutdown-Inv c v = elim (Bool-cases (is_connected c.state)) [
  | inl e ↦
      rw e (leaving-Inv c (c.pending ++ (shutdown_in_loop_task ∷ [])) (up_of_connected c.state e) v)
  | inr e ↦ rw e v
]

outside_close-Inv : (c : TcpConnection) → Inv c → Inv (force_close false c)
unfolding force_close
outside_close-Inv c v = elim (Bool-cases (is_open c.state)) [
  | inl e ↦
      rw e (leaving-Inv c (c.pending ++ (force_close_in_loop_task ∷ [])) (up_of_open c.state e) v)
  | inr e ↦ rw e v
]

pub step-Inv : (c : TcpConnection) (op : Op) → Inv c → Possible c op → Inv (step c op)
unfolding step
step-Inv c (sends bytes w) v p = send-Inv c bytes w v p
step-Inv c shuts v p = shutdown-Inv c v
step-Inv c (writes w) v p = handle_write-Inv c w v
step-Inv c closes v p = handle_close-Inv c v.ordered.output_valid
step-Inv c force_closes v p = force_close-Inv c v
step-Inv c destroys v p = connect_destroyed-Inv c v
step-Inv c establishes v p = connect_established-Inv c v p
step-Inv c (reads r) v (d, e) = subst Inv (sym (step-reads c d r e)) (handle_read-Inv c d r v e)
step-Inv c (runs f w) v p = run_functor-Inv c f w v p
step-Inv c (outside_sends bytes) v p = outside_send-Inv c bytes v
step-Inv c outside_shuts v p = outside_shutdown-Inv c v
step-Inv c outside_force_closes v p = outside_close-Inv c v
