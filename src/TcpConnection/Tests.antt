-- ===== src/TcpConnection/Tests.antt =====
-- Runs of a connection, and its theorems at concrete inputs.
use vortex_net.Base.{◌≡◌, refl, inr, true, false, List, [], ◌∷◌, arith}
use vortex_net.Buffer.{Buffer, append, ensure_writeable_bytes, put, retrieve}
use vortex_net.TcpConnection.{
  TcpConnection, connected, disconnecting, wrote, would_block, send, send_in_loop, try_write,
  write_now, keep_rest, handle_write, drained, shutdown, shutdown_in_loop, run_functor,
  send_in_loop_task, shutdown_in_loop_task,
}
use vortex_net.TcpConnection.Stream.{IsOrdered, Sent, send_in_loop_lem}
use vortex_net.TcpConnection.Flush.{Flushed, handle_write-Flushed}
use vortex_net.TcpConnection.Calls.{Op, outside_shuts, sends, writes, force_closes, runs, step, Inv}
use vortex_net.TcpConnection.Shutdown.{run, AllPossible, run-Inv, wire-run}

-- Ten bytes of room behind the prepend area.
abbrev empty_buffer : Buffer
empty_buffer = record {
  buffer = 0 ∷ 0 ∷ 0 ∷ 0 ∷ 0 ∷ 0 ∷ 0 ∷ 0 ∷ 0 ∷ 0 ∷ 0 ∷ 0 ∷ [];
  reader_index = 8;
  writer_index = 8;
}

abbrev fresh : TcpConnection
fresh = record {
  state = connected;
  read_enabled = true;
  write_enabled = false;
  registered = true;
  output_buffer = empty_buffer;
  input_buffer = empty_buffer;
  high_water_mark = 3;
  has_write_complete = true;
  has_high_water_mark = true;
  wire = [];
  write_shut = false;
  pending = [];
  calls = [];
}

fresh-IsOrdered : IsOrdered fresh
fresh-IsOrdered = record {
  output_valid = omega arith;
  asks = λ e. absurd (cc);
  quiet = λ e f. refl;
}

fresh-Inv : Inv fresh
fresh-Inv = record { ordered = fresh-IsOrdered; closed = λ e. absurd (cc); shut = λ e. absurd (cc) }

-- Part of a message goes out, the rest waits; a shutdown waits for it too.
abbrev half_sent : TcpConnection
half_sent = record fresh {
  write_enabled = true;
  output_buffer = record {
    buffer = 0 ∷ 0 ∷ 0 ∷ 0 ∷ 0 ∷ 0 ∷ 0 ∷ 0 ∷ 7 ∷ 8 ∷ 0 ∷ 0 ∷ [];
    reader_index = 8;
    writer_index = 10;
  };
  wire = 6 ∷ [];
}

send_half : send true fresh (6 ∷ 7 ∷ 8 ∷ []) (wrote 1) ≡ half_sent
unfolding send send_in_loop try_write write_now keep_rest append ensure_writeable_bytes put
send_half = refl

shutdown_waits : (shutdown true half_sent).write_shut ≡ false
unfolding shutdown shutdown_in_loop
shutdown_waits = refl

shutdown_after_flush : (handle_write (shutdown true half_sent) (wrote 2)).write_shut ≡ true
unfolding shutdown shutdown_in_loop handle_write drained retrieve
shutdown_after_flush = refl

half_sent-IsOrdered : IsOrdered half_sent
half_sent-IsOrdered = record {
  output_valid = omega arith;
  asks = λ e. omega arith;
  quiet = λ e f. absurd (cc);
}

half_sent-Inv : Inv half_sent
half_sent-Inv = record {
  ordered = half_sent-IsOrdered;
  closed = λ e. absurd (cc);
  shut = λ e. absurd (cc);
}

send_in_loop_lem_example :
    IsOrdered (send_in_loop half_sent (9 ∷ []) would_block)
    × Sent half_sent (9 ∷ []) would_block (send_in_loop half_sent (9 ∷ []) would_block)
send_in_loop_lem_example =
    send_in_loop_lem (9 ∷ []) would_block half_sent-IsOrdered refl (omega arith) (omega arith)

handle_write-Flushed_example : Flushed half_sent 1 (handle_write half_sent (wrote 1))
handle_write-Flushed_example = handle_write-Flushed (wrote 1) half_sent-IsOrdered

abbrev script : List Op
script =
    outside_shuts
    ∷ sends (5 ∷ []) (wrote 1)
    ∷ writes (wrote 2)
    ∷ runs shutdown_in_loop_task (wrote 0)
    ∷ force_closes
    ∷ []

script-AllPossible : AllPossible half_sent script
unfolding step shutdown shutdown_in_loop send handle_write drained retrieve
script-AllPossible = (tt, ((omega arith, omega arith), (tt, (refl, (tt, tt)))))

run-Inv_example : Inv (run half_sent script)
run-Inv_example = run-Inv half_sent script half_sent-Inv script-AllPossible

abbrev shut_down : TcpConnection
shut_down = record fresh { state = disconnecting; write_shut = true; wire = 6 ∷ 7 ∷ 8 ∷ [] }

shut_down-Inv : Inv shut_down
shut_down-Inv = record {
  ordered = record { output_valid = omega arith; asks = λ e. absurd (cc); quiet = λ e f. refl };
  closed = λ e. absurd (cc);
  shut = λ e. (refl, refl, inr refl);
}

abbrev late : List Op
late = sends (5 ∷ []) (wrote 1) ∷ runs shutdown_in_loop_task (wrote 0) ∷ writes (wrote 1) ∷ []

-- The functor of a `send` from another thread writes after the write side is shut.
late_functor :
    (step shut_down (runs (send_in_loop_task (9 ∷ [])) (wrote 1))).wire ≡ 6 ∷ 7 ∷ 8 ∷ 9 ∷ []
unfolding step run_functor send_in_loop try_write write_now
late_functor = refl

late-AllPossible : AllPossible shut_down late
unfolding step send
late-AllPossible = ((omega arith, omega arith), (refl, (tt, tt)))

wire-run_example :
    ((run shut_down late).wire ≡ 6 ∷ 7 ∷ 8 ∷ []) × ((run shut_down late).write_shut ≡ true)
wire-run_example = wire-run shut_down late shut_down-Inv late-AllPossible refl
