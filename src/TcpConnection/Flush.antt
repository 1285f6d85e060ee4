-- ===== src/TcpConnection/Flush.antt =====
-- TcpConnection.cc: `handleWrite`, which empties the output buffer and then carries out a shutdown
-- that waited for it.
use vortex_net.Base.{
  ℕ, ◌-◌, ◌<◌, ◌≡◌, ◌≢◌, refl, ap, ◌∙◌, inl, inr, true, false, ◌&&◌, ◌++◌, length, take, ltb, ◌==◌,
  if◌then◌else◌, arith, append_assoc, take-append-drop, length-drop, Bool-cases, ==_iff,
}
use vortex_net.Buffer.{readable_bytes, retrieve, peek}
use vortex_net.Buffer.Inv.{IsValid, content, length-content}
use vortex_net.Buffer.Stream.{retrieve_lem}
use vortex_net.TcpConnection.{
  TcpConnection, Write, is_disconnecting, handle_write, drained, shutdown_in_loop, written,
}
use vortex_net.TcpConnection.Stream.{stream, IsOrdered}

-- The output buffer after a write of `n` bytes from it.
sent_off : TcpConnection → ℕ → TcpConnection
sent_off c n = record c {
  output_buffer = retrieve c.output_buffer n;
  wire = c.wire ++ take n (peek c.output_buffer (readable_bytes c.output_buffer));
}

stream-sent_off :
    (c : TcpConnection) (n : ℕ)
    → IsValid c.output_buffer
    → (stream (sent_off c n) ≡ stream c)
      × (readable_bytes (sent_off c n).output_buffer ≡ readable_bytes c.output_buffer - n)
      × IsValid (sent_off c n).output_buffer
unfolding sent_off
stream-sent_off c n v =
    let (ok, held) = retrieve_lem {b = c.output_buffer} n v in
    (
      append_assoc c.wire (take n (content c.output_buffer)) (content (retrieve c.output_buffer n))
          ∙ ap (λ xs. c.wire ++ (take n (content c.output_buffer) ++ xs)) held
          ∙ ap (◌++◌ c.wire) (take-append-drop n (content c.output_buffer)),
      omega (
        arith,
        length-content ok,
        length-content v,
        ap length held,
        length-drop n (content c.output_buffer),
      ),
      ok,
    )

state-sent_off : (c : TcpConnection) (n : ℕ) → (sent_off c n).state ≡ c.state
unfolding sent_off
state-sent_off c n = refl

pos_of_ne : {n : ℕ} → n ≢ 0 → 0 < n
pos_of_ne h = omega arith

idle-IsOrdered :
    (c : TcpConnection)
    → IsValid c.output_buffer
    → c.write_enabled ≡ false
    → readable_bytes c.output_buffer ≡ 0
    → IsOrdered c
idle-IsOrdered c v off empty = record {
  output_valid = v;
  asks = λ e. absurd (cc);
  quiet = λ e f. empty;
}

drained_lem :
    (c : TcpConnection)
    → IsValid c.output_buffer
    → readable_bytes c.output_buffer ≡ 0
    → IsOrdered (drained c)
      × (stream (drained c) ≡ stream c)
      × ((drained c).output_buffer ≡ c.output_buffer)
      × ((drained c).state ≡ c.state)
      × ((drained c).write_enabled ≡ false)
      × (is_disconnecting c.state ≡ true → (drained c).write_shut ≡ true)
unfolding drained shutdown_in_loop
drained_lem c v empty = elim (Bool-cases (is_disconnecting c.state)) [
  | inl e ↦ rw e (idle-IsOrdered _ v refl empty, refl, refl, refl, refl, λ f. refl)
  | inr e ↦ rw e (idle-IsOrdered _ v refl empty, refl, refl, refl, refl, λ f. absurd (cc))
]

-- What `handleWrite` does with `n` bytes written: the stream and the state stay, the buffer is
-- shorter by `n`, write interest follows, and a shutdown that waited for the buffer is carried out.
pub record Flushed (c : TcpConnection) (n : ℕ) (d : TcpConnection) : Type 0 where
  pub ordered : IsOrdered d
  pub same_stream : stream d ≡ stream c
  pub same_state : d.state ≡ c.state
  pub shorter :
      c.write_enabled ≡ true → readable_bytes d.output_buffer ≡ readable_bytes c.output_buffer - n
  pub finishes :
      c.write_enabled ≡ true
      → is_disconnecting c.state ≡ true
      → n ≡ readable_bytes c.output_buffer
      → d.write_shut ≡ true

drained-Flushed :
    {c : TcpConnection} (n : ℕ)
    → IsOrdered c
    → readable_bytes (sent_off c n).output_buffer ≡ 0
    → Flushed c n (drained (sent_off c n))
drained-Flushed {c} n o empty =
    let (e, count, v) = stream-sent_off c n o.output_valid in
    let (ordered, e', out, st, off, shut) = drained_lem (sent_off c n) v empty in
    record {
      ordered = ordered;
      same_stream = e' ∙ e;
      same_state = st ∙ state-sent_off c n;
      shorter = λ f. rw out count;
      finishes = λ f g h. shut (rw (state-sent_off c n) g);
    }

sent_off-Flushed :
    {c : TcpConnection} (n : ℕ)
    → IsOrdered c
    → c.write_enabled ≡ true
    → readable_bytes (sent_off c n).output_buffer ≢ 0
    → Flushed c n (sent_off c n)
unfolding sent_off
sent_off-Flushed {c} n o on some_left =
    let (e, count, v) = stream-sent_off c n o.output_valid in
    record {
      ordered = record {
        output_valid = v;
        asks = λ f. pos_of_ne some_left;
        quiet = λ f g. absurd (cc);
      };
      same_stream = e;
      same_state = refl;
      shorter = λ f. count;
      finishes = λ f g h. absurd (some_left (count ∙ omega arith));
    }

-- `handleWrite`, with any answer of `::write`, flushes as many bytes as were written.
pub handle_write-Flushed :
    {c : TcpConnection} (w : Write) → IsOrdered c → Flushed c (written w) (handle_write c w)
unfolding handle_write sent_off
handle_write-Flushed {c} w o = elim (Bool-cases (c.write_enabled && ltb 0 (written w))) [
  | inl e ↦ rw e (moved (ground (arith, e)))
  | inr e ↦ rw e (record {
    ordered = o;
    same_stream = refl;
    same_state = refl;
    shorter = λ f. ground (arith, e, f);
    finishes = λ f g h. absurd (ground (arith, e, f, h, o.asks f));
  })
]
  where
    n : ℕ
    n = written w

    moved :
        c.write_enabled ≡ true
        → Flushed c n (
            if readable_bytes (sent_off c n).output_buffer == 0
            then drained (sent_off c n)
            else sent_off c n)
    moved on = elim (Bool-cases (readable_bytes (sent_off c n).output_buffer == 0)) [
      | inl e ↦ rw e (drained-Flushed n o ((==_iff _ 0).0 e))
      | inr e ↦ rw e (sent_off-Flushed n o on (λ f. absurd (ground (arith, e, f))))
    ]
