-- ===== src/TcpClient/Retry.antt =====
-- TcpClient.cc and Connector.cc: the events of a client after it was stopped.
use vortex_net.Base.{
  ℕ, zero, suc, ◌≡◌, refl, sym, subst, ◌∙◌, ap, ap₂, inl, inr, true, false, not, ◌&&◌, List, [],
  ◌∷◌, Option, none, some, Bool-cases, Option-cases, if◌then◌else◌,
}
use vortex_net.Connector.{
  Connector, Outcome, under_way, refused, other, is_connecting, begin, retry, start_in_loop,
  stop_in_loop, on_retry_timer, succeed, verdict, write_ready, handle_write, handle_error,
}
use vortex_net.Connector as Connecting
use vortex_net.TcpClient.{
  Connection, TcpClient, shut_conn, disconnect, disconnect_from, send_to, take_over, run_connector,
  remove_connection, stop, send,
}

-- What can happen to a client but a call of `connect`: the events of its connector and the functors that were
-- queued for it, the timers of `Connector::retry` and `Connector::restart` (this one is a `start_functor`),
-- the loss of its connection, and the calls of its other operations.
pub data Event : Type 0 where
  write_event : ℕ → Event
  error_event : ℕ → Event
  start_functor : ℕ → Outcome → Event
  retry_timer : ℕ → Outcome → Event
  stop_functor : Event
  lost : Event
  disconnects : Event
  stops : Event
  sends : List ℕ → Event

abbrev lose : TcpClient → Option Connection → TcpClient
lose c none = c
lose c (some k) = remove_connection c k

unfoldable pub on_event : TcpClient → Event → Option TcpClient
on_event c (write_event error) = run_connector c (handle_write c.connector error)
on_event c (error_event error) = run_connector c (handle_error c.connector error)
on_event c (start_functor fd o) = run_connector c (some (start_in_loop c.connector fd o))
on_event c (retry_timer fd o) = run_connector c (some (on_retry_timer c.connector fd o))
on_event c stop_functor = run_connector c (some (stop_in_loop c.connector))
on_event c lost = some (lose c c.conn)
on_event c disconnects = disconnect c
on_event c stops = some (stop c)
on_event c (sends bytes) = some (send c bytes).1

-- The client wants no connection, and its connector has none to hand over and no timer of `retry`.
pub record Quiet (c : TcpClient) : Type 0 where
  pub unwanted : c.connect_wanted ≡ false
  pub connector_unwanted : c.connector.connect_wanted ≡ false
  pub nothing : c.connector.handed ≡ []
  pub no_timer : c.connector.retry_timers ≡ 0

-- Nothing was begun in between: no connection was made, and no timer for an attempt was set.
pub record Idle (c d : TcpClient) : Type 0 where
  pub quiet : Quiet d
  pub same_id : d.next_conn_id ≡ c.next_conn_id
  pub same_delays : d.connector.delays ≡ c.connector.delays

-- A step of a connector that is not wanted.
record Stays (k l : Connector) : Type 0 where
  wanted_lem : l.connect_wanted ≡ k.connect_wanted
  handed_lem : l.handed ≡ k.handed
  delays_lem : l.delays ≡ k.delays
  timers_lem : l.retry_timers ≡ k.retry_timers

module _ (k : Connector) (u : k.connect_wanted ≡ false) where
  retry-Stays : (fd error : ℕ) → Stays k (retry k fd error)
  unfolding retry
  retry-Stays fd error = rw u (elim (Bool-cases (not k.retries && k.has_error_callback)) [
    | inl e ↦
        rw e (record { wanted_lem = refl; handed_lem = refl; delays_lem = refl; timers_lem = refl })
    | inr e ↦
        rw e (record { wanted_lem = refl; handed_lem = refl; delays_lem = refl; timers_lem = refl })
  ])

  succeed-Stays : (fd : ℕ) → Stays k (succeed k fd)
  unfolding succeed
  succeed-Stays fd =
      rw u (record { wanted_lem = refl; handed_lem = refl; delays_lem = refl; timers_lem = refl })

  verdict-Stays : (fd error : ℕ) → Stays k (verdict k fd error)
  verdict-Stays fd zero = succeed-Stays fd
  verdict-Stays fd (suc e) = retry-Stays fd (suc e)

  handle_write-Stays : (error : ℕ) (l : Connector) → handle_write k error ≡ some l → Stays k l
  unfolding handle_write
  handle_write-Stays error l h = elim (Bool-cases (is_connecting k.state)) [
    | inr e ↦
        let same : k ≡ l = cc (rw (e, handle_write) at h) in
        subst (Stays k) same
          (record { wanted_lem = refl; handed_lem = refl; delays_lem = refl; timers_lem = refl })
    | inl e ↦ elim (Option-cases k.channel) [
      | inl n ↦ absurd (cc (rw (e, handle_write) at h, ap (λ c. write_ready c k error) n))
      | inr (fd, n) ↦
          let same : some (verdict k fd error) ≡ some l =
            sym (ap (λ c. write_ready c k error) n) ∙ rw (e, handle_write) at h in
          subst (Stays k) (cc (same)) (verdict-Stays fd error)
    ]
  ]

  handle_error-Stays : (error : ℕ) (l : Connector) → handle_error k error ≡ some l → Stays k l
  unfolding handle_error
  handle_error-Stays error l h = elim (Option-cases k.channel) [
    | inl n ↦ absurd (cc (rw (n, handle_error) at h))
    | inr (fd, n) ↦
        let same : some (retry k fd error) ≡ some l = rw (n, handle_error) at h in
        subst (Stays k) (cc (same)) (retry-Stays fd error)
  ]

  start_in_loop-Stays : (fd : ℕ) (o : Outcome) → Stays k (start_in_loop k fd o)
  unfolding start_in_loop
  start_in_loop-Stays fd o =
      rw u (record { wanted_lem = refl; handed_lem = refl; delays_lem = refl; timers_lem = refl })

-- No timer of `retry` is there to go off.
retry_timer-Stays :
    (k : Connector) → k.retry_timers ≡ 0 → (fd : ℕ) (o : Outcome) → Stays k (on_retry_timer k fd o)
unfolding on_retry_timer
retry_timer-Stays k n fd o =
    subst (Stays k) (sym (none_fires k n fd o))
      (record { wanted_lem = refl; handed_lem = refl; delays_lem = refl; timers_lem = refl })
  where
    none_fires :
        (k : Connector) → k.retry_timers ≡ 0 → (fd : ℕ) (o : Outcome) → on_retry_timer k fd o ≡ k
    none_fires k n fd o =
        ap
          (λ m. elim m [
            | zero ↦ k
            | suc r ↦ Connecting.start true (record k { retry_timers = r }) fd o
          ])
          n

-- The client takes over nothing from such a step.
run_connector-Idle :
    (c d : TcpClient) (l : Connector)
    → Quiet c
    → Stays c.connector l
    → run_connector c (some l) ≡ some d
    → Idle c d
run_connector-Idle c d l q s h =
    let none_left : l.handed ≡ [] = s.handed_lem ∙ q.nothing in
    let same : take_over c l [] ≡ d = ap (take_over c l) (sym none_left) ∙ cc (h) in
    subst (Idle c) same (record {
      quiet = record {
        unwanted = q.unwanted;
        connector_unwanted = s.wanted_lem ∙ q.connector_unwanted;
        nothing = none_left;
        no_timer = s.timers_lem ∙ q.no_timer;
      };
      same_id = refl;
      same_delays = s.delays_lem;
    })

stop-Idle : (c : TcpClient) → Quiet c → Idle c (stop c)
unfolding stop Connecting.stop
stop-Idle c q = record {
  quiet = record {
    unwanted = refl;
    connector_unwanted = refl;
    nothing = q.nothing;
    no_timer = q.no_timer;
  };
  same_id = refl;
  same_delays = refl;
}

unchanged_lem : (c : TcpClient) → Quiet c → Idle c c
unchanged_lem c q = record { quiet = q; same_id = refl; same_delays = refl }

-- A connection that is lost is not made again.
not_restarted :
    (c : TcpClient) (k : Connection)
    → c.connect_wanted ≡ false
    → (remove_connection c k).connector ≡ c.connector
unfolding remove_connection
not_restarted c k u = elim (Bool-cases c.retries) [
  | inl e ↦
      ap (λ b. if b then Connecting.restart c.connector else c.connector) (ap₂ (λ x y. x && y) e u)
  | inr e ↦
      ap (λ b. if b then Connecting.restart c.connector else c.connector) (ap₂ (λ x y. x && y) e u)
]

lose-Idle : (c : TcpClient) (k : Option Connection) → Quiet c → Idle c (lose c k)
unfolding remove_connection
lose-Idle c none q = unchanged_lem c q
lose-Idle c (some k) q =
    let e = not_restarted c k q.unwanted in
    record {
      quiet = record {
        unwanted = q.unwanted;
        connector_unwanted = ap (λ x. x.connect_wanted) e ∙ q.connector_unwanted;
        nothing = ap (λ x. x.handed) e ∙ q.nothing;
        no_timer = ap (λ x. x.retry_timers) e ∙ q.no_timer;
      };
      same_id = refl;
      same_delays = ap (λ x. x.delays) e;
    }

disconnect-Idle :
    (c d : TcpClient) (o : Option Connection) → Quiet c → disconnect_from c o ≡ some d → Idle c d
disconnect-Idle c d none q h = absurd (cc (h))
disconnect-Idle c d (some k) q h =
    let same : shut_conn c k ≡ d = cc (h) in
    subst (Idle c) same (record {
      quiet = record {
        unwanted = refl;
        connector_unwanted = q.connector_unwanted;
        nothing = q.nothing;
        no_timer = q.no_timer;
      };
      same_id = refl;
      same_delays = refl;
    })

send-Idle :
    (c : TcpClient) (o : Option Connection) (bytes : List ℕ)
    → Quiet c
    → Idle c (send_to c o bytes).1
send-Idle c none bytes q = unchanged_lem c q
send-Idle c (some k) bytes q = elim (Bool-cases k.is_shut) [
  | inl e ↦ rw e (unchanged_lem c q)
  | inr e ↦ rw e (record {
    quiet = record {
      unwanted = q.unwanted;
      connector_unwanted = q.connector_unwanted;
      nothing = q.nothing;
      no_timer = q.no_timer;
    };
    same_id = refl;
    same_delays = refl;
  })
]

connector_event-Idle :
    (c d : TcpClient) (o : Option Connector)
    → Quiet c
    → ((l : Connector) → o ≡ some l → Stays c.connector l)
    → run_connector c o ≡ some d
    → Idle c d
connector_event-Idle c d none q f h = absurd (cc (h))
connector_event-Idle c d (some l) q f h = run_connector-Idle c d l q (f l refl) h

on_event-Idle : (c d : TcpClient) (e : Event) → Quiet c → on_event c e ≡ some d → Idle c d
unfolding on_event stop_in_loop disconnect send
on_event-Idle c d (write_event error) q h =
    connector_event-Idle c d (handle_write c.connector error) q
      (handle_write-Stays c.connector q.connector_unwanted error) h
on_event-Idle c d (error_event error) q h =
    connector_event-Idle c d (handle_error c.connector error) q
      (handle_error-Stays c.connector q.connector_unwanted error) h
on_event-Idle c d (start_functor fd o) q h =
    run_connector-Idle c d (start_in_loop c.connector fd o) q
      (start_in_loop-Stays c.connector q.connector_unwanted fd o) h
on_event-Idle c d (retry_timer fd o) q h =
    run_connector-Idle c d (on_retry_timer c.connector fd o) q
      (retry_timer-Stays c.connector q.no_timer fd o) h
on_event-Idle c d stop_functor q h =
    run_connector-Idle c d (stop_in_loop c.connector) q
      (record { wanted_lem = refl; handed_lem = refl; delays_lem = refl; timers_lem = refl }) h
on_event-Idle c d lost q h = subst (Idle c) (cc (h)) (lose-Idle c c.conn q)
on_event-Idle c d disconnects q h = disconnect-Idle c d c.conn q h
on_event-Idle c d stops q h = subst (Idle c) (cc (h)) (stop-Idle c q)
on_event-Idle c d (sends bytes) q h = subst (Idle c) (cc (h)) (send-Idle c c.conn bytes q)

-- The events in their order; none is a pointer that was null.
unfoldable pub run : TcpClient → List Event → Option TcpClient
run c [] = some c
run c (e ∷ es) = elim (on_event c e) [ none ↦ none | some d ↦ run d es ]

run-quiet : (es : List Event) (c d : TcpClient) → Quiet c → run c es ≡ some d → Idle c d
unfolding run
run-quiet [] c d q h = subst (Idle c) (cc (h)) (unchanged_lem c q)
run-quiet (e ∷ es) c d q h = elim (Option-cases (on_event c e)) [
  | inl n ↦ absurd (cc (rw (n, run) at h))
  | inr (m, n) ↦
      let i = on_event-Idle c m e q n in
      let j = run-quiet es m d i.quiet (rw (n, run) at h) in
      record {
        quiet = j.quiet;
        same_id = j.same_id ∙ i.same_id;
        same_delays = j.same_delays ∙ i.same_delays;
      }
]

-- A client that was stopped, whose connector had handed over all that it had and had no timer of `retry`
-- pending: whatever events follow, of the connector, its functors or its timers, losses of the connection and calls of operations but `connect`, as long as no
-- handler reads a null pointer, no new connection is made and no timer for another attempt is set, also when
-- the client retries.
pub run-stop :
    (es : List Event) (c d : TcpClient)
    → c.connector.handed ≡ []
    → c.connector.retry_timers ≡ 0
    → run (stop c) es ≡ some d
    → (d.next_conn_id ≡ c.next_conn_id) × (d.connector.delays ≡ c.connector.delays)
unfolding stop Connecting.stop
run-stop es c d n z h =
    let q : Quiet (stop c) = record {
      unwanted = refl;
      connector_unwanted = refl;
      nothing = n;
      no_timer = z;
    } in
    let i = run-quiet es (stop c) d q h in (i.same_id, i.same_delays)
