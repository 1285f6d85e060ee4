-- ===== src/TcpConnection/Shutdown.antt =====
-- TcpConnection.cc: the life of a connection as a sequence of calls and queued functors, and its write side once it is shut.
use vortex_net.Base.{◌≡◌, refl, ap, ◌∙◌, inl, inr, true, List, [], ◌∷◌, Bool-cases}
use vortex_net.TcpConnection.{
  TcpConnection, is_open, send, shutdown, shutdown_in_loop, handle_close, force_close,
  force_close_in_loop, connect_destroyed, send_in_loop_task, shutdown_in_loop_task,
  force_close_in_loop_task, write_complete_task, high_water_mark_task, run_functor,
}
use vortex_net.TcpConnection.Calls.{
  outside_sends, outside_shuts, outside_force_closes, Op, step, Possible, Inv, handle_write-off,
  sends, shuts, writes, closes, force_closes, destroys, establishes, reads, runs,
}
use vortex_net.TcpConnection.Closing.{handle_read-frame, step-reads, step-Inv}

pub run : TcpConnection → List Op → TcpConnection
run c [] = c
run c (op ∷ ops) = run (step c op) ops

abbrev pub AllPossible : TcpConnection → List Op → Type 0
AllPossible c [] = Unit
AllPossible c (op ∷ ops) = Possible c op × AllPossible (step c op) ops

-- From a state that meets it, any sequence of calls in the loop's thread (send, shutdown, forceClose,
-- connectEstablished, connectDestroyed, handleRead, handleWrite, handleClose), of calls in other
-- threads (send, shutdown, forceClose) and of queued functors that `Possible` admits (a functor of
-- `send` only while the write side is open) keeps the invariant: write interest is registered exactly
-- while bytes wait on a connection that is not closed, a closed channel does not ask to write, and
-- the write side is shut only when no byte waits or the connection is closed.
pub run-Inv : (c : TcpConnection) (ops : List Op) → Inv c → AllPossible c ops → Inv (run c ops)
unfolding run
run-Inv c [] v p = v
run-Inv c (op ∷ ops) v p = run-Inv (step c op) ops (step-Inv c op v p.0) p.1

-- What holds on for good once the write side is shut.
wire-step :
    (c : TcpConnection) (op : Op)
    → Inv c
    → Possible c op
    → c.write_shut ≡ true
    → ((step c op).wire ≡ c.wire) × ((step c op).write_shut ≡ true)
unfolding step send shutdown handle_close force_close force_close_in_loop connect_destroyed
    run_functor shutdown_in_loop
wire-step c (sends bytes w) v p h = rw (v.shut h).0 (refl, h)
wire-step c shuts v p h = rw (v.shut h).0 (refl, h)
wire-step c (writes w) v p h = rw (handle_write-off c w (v.shut h).1) (refl, h)
wire-step c closes v p h = (refl, h)
wire-step c force_closes v p h = elim (Bool-cases (is_open c.state)) [
  | inl e ↦ rw e (refl, h)
  | inr e ↦ rw e (refl, h)
]
wire-step c destroys v p h = rw (v.shut h).0 (refl, h)
wire-step c establishes v p h = absurd (cc (p.1))
wire-step c (reads r) v (d, e) h =
    let (out, wire, sh, which) = handle_read-frame c d r e in
    let same = step-reads c d r e in
    (ap (λ x. x.wire) same ∙ wire, ap (λ x. x.write_shut) same ∙ sh ∙ h)
wire-step c (runs (send_in_loop_task bytes) w) v p h = absurd (cc (p.0))
wire-step c (runs shutdown_in_loop_task w) v p h = rw (v.shut h).1 (refl, refl)
wire-step c (runs force_close_in_loop_task w) v p h = elim (Bool-cases (is_open c.state)) [
  | inl e ↦ rw e (refl, h)
  | inr e ↦ rw e (refl, h)
]
wire-step c (outside_sends bytes) v p h = rw (v.shut h).0 (refl, h)
wire-step c outside_shuts v p h = rw (v.shut h).0 (refl, h)
wire-step c outside_force_closes v p h = elim (Bool-cases (is_open c.state)) [
  | inl e ↦ rw e (refl, h)
  | inr e ↦ rw e (refl, h)
]
wire-step c (runs write_complete_task w) v p h = (refl, h)
wire-step c (runs (high_water_mark_task n) w) v p h = (refl, h)

-- Once the write side is shut, nothing more is written, whatever calls and queued functors follow
-- that `Possible` admits: all but the functor of a `send` from another thread that runs only then,
-- which does write.
pub wire-run :
    (c : TcpConnection) (ops : List Op)
    → Inv c
    → AllPossible c ops
    → c.write_shut ≡ true
    → ((run c ops).wire ≡ c.wire) × ((run c ops).write_shut ≡ true)
unfolding run
wire-run c [] v p h = (refl, h)
wire-run c (op ∷ ops) v p h =
    let (e, h') = wire-step c op v p.0 h in
    let (e', h'') = wire-run (step c op) ops (step-Inv c op v p.0) p.1 h' in (e' ∙ e, h'')
