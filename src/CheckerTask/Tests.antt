-- ===== src/CheckerTask/Tests.antt =====
-- Runs of a probe, and its theorem at a concrete input.
use vortex_net.Base.{◌≡◌, refl, true, false, [], ◌∷◌, none, some}
use vortex_net.ServerNode.{InetAddress, update_status}
use vortex_net.ServerNode as Node
use vortex_net.CheckerTask.{
  CheckerTask, new, start, on_timeout, on_connection, on_error, local, remote, run_after, connect,
}
use vortex_net.CheckerTask.Probe.{times_out, comes_up, goes_down, fails, step, run, start-reported}

abbrev task : CheckerTask
task = new (Node.new 1 (record { ip = 2130706433; port = 8080 }) 5 3 1)

-- A probe that ends with an error of the machine's own leaves its timer running: it goes off in the next
-- probe, and takes the node out.
early_timeout :
    ((on_timeout (
      start
        (record task {
          is_probing = false;
          has_determined = true;
          timer_id = some 1;
          calls = run_after 1 ∷ connect ∷ [];
        })
        2)).node
    ).is_alive
    ≡ false
unfolding on_timeout start update_status
early_timeout = refl

-- So it ends.
machine_error :
    run (start task 1) (fails local ∷ [])
    ≡ some (record task {
      is_probing = false;
      has_determined = true;
      timer_id = some 1;
      calls = run_after 1 ∷ connect ∷ [];
    })
unfolding run step start on_error
machine_error = refl

-- A connection that comes up after the timer went off cancels the deleted timer.
late_connection : run (start task 1) (times_out ∷ comes_up ∷ []) ≡ none
unfolding run step start on_timeout on_connection
late_connection = refl

start-reported_example :
    (t' : CheckerTask) × (run (start task 1) (goes_down ∷ fails remote ∷ goes_down ∷ times_out ∷ [])
      ≡ some t')
    × (t'.node ≡ update_status task.node false)
start-reported_example =
    start-reported task 1 (goes_down ∷ fails remote ∷ goes_down ∷ times_out ∷ []) refl
      (refl, (refl, tt))
