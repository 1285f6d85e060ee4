-- ===== src/TcpConnection/Stream.antt =====
-- TcpConnection.cc: the outgoing byte stream. Whatever `::write` answers, the bytes given to a
-- connection reach the kernel in order and none twice, or wait in the output buffer behind those
-- before them.
use vortex_net.Base.{
  ℕ, ◌+◌, ◌-◌, ◌≤◌, ◌<◌, ◌≡◌, refl, ap, sym, ◌∙◌, ◌⊎◌, inl, inr, true, false, not, ◌&&◌, List, [],
  ◌∷◌, ◌++◌, length, take, drop, ltb, ◌==◌, arith, append-nil, append_assoc, take-append-drop,
  length-drop, length-append, drop_all, Bool-cases,
}
use vortex_net.Buffer.{Buffer, readable_bytes}
use vortex_net.Buffer.Inv.{IsValid, max_size, content, length-content}
use vortex_net.Buffer.Stream.{append_lem}
use vortex_net.TcpConnection.{
  TcpConnection, Write, wrote, would_block, peer_gone, other_error, is_disconnected, write_now,
  keep_rest, try_write, send_in_loop, written, Tried,
}

-- Everything sent and not lost: what the kernel has, then what waits.
abbrev pub stream : TcpConnection → List ℕ
stream c = c.wire ++ content c.output_buffer

-- Write interest is registered exactly while bytes wait, as long as the connection is not closed.
pub record IsOrdered (c : TcpConnection) : Type 0 where
  pub output_valid : IsValid c.output_buffer
  pub asks : c.write_enabled ≡ true → 0 < readable_bytes c.output_buffer
  pub quiet :
      c.write_enabled ≡ false → is_disconnected c.state ≡ false → readable_bytes c.output_buffer ≡ 0

-- `::write` reports at most the bytes that it was given.
abbrev pub Fits : Write → ℕ → Type 0
Fits w n = written w ≤ n

content-nil : {b : Buffer} → IsValid b → readable_bytes b ≡ 0 → content b ≡ []
content-nil {b} v h = length-zero (content b) (length-content v ∙ h)
  where
    length-zero : (xs : List ℕ) → length xs ≡ 0 → xs ≡ []
    length-zero [] e = refl
    length-zero (x ∷ xs) e = absurd (omega arith)

keep_rest_lem :
    (c : TcpConnection) (rest : List ℕ)
    → IsValid c.output_buffer
    → 0 < length rest
    → c.output_buffer.writer_index + length rest ≤ max_size
    → IsOrdered (keep_rest c rest) × (stream (keep_rest c rest) ≡ stream c ++ rest)
unfolding keep_rest
keep_rest_lem c rest v some_left fits =
    let (ok, held) = append_lem {b = c.output_buffer} rest v fits in
    (
      record {
        output_valid = ok;
        asks = λ e. omega (
          arith,
          sym (length-content ok),
          ap length held,
          length-append (content c.output_buffer) rest,
        );
        quiet = λ e. absurd (cc);
      },
      ap (◌++◌ c.wire) held ∙ sym (append_assoc c.wire (content c.output_buffer) rest),
    )

-- What the write that is tried at once leaves to do.
record TriedOk (c : TcpConnection) (bytes : List ℕ) (w : Write) (t : Tried) : Type 0 where
  ordered : IsOrdered t.conn
  same : t.conn.output_buffer ≡ c.output_buffer
  within : t.nwrote ≤ length bytes
  whole : stream t.conn ++ drop t.nwrote bytes ≡ stream c ++ bytes
  faulty : t.fault_error ≡ true → (w ≡ peer_gone) × (t.conn ≡ c)

module _ {c : TcpConnection} (o : IsOrdered c) (bytes : List ℕ) where
  untried : (w : Write) → TriedOk c bytes w (record { conn = c; nwrote = 0; fault_error = false })
  untried w = record {
    ordered = o;
    same = refl;
    within = omega arith;
    whole = refl;
    faulty = λ e. absurd (cc);
  }

  write_now-TriedOk :
      (w : Write)
      → readable_bytes c.output_buffer ≡ 0
      → Fits w (length bytes)
      → TriedOk c bytes w (write_now c bytes w)
  unfolding write_now
  write_now-TriedOk (wrote n) empty fits = record {
    ordered = record { output_valid = o.output_valid; asks = o.asks; quiet = o.quiet };
    same = refl;
    within = fits;
    whole =
        rw
          (content-nil o.output_valid empty, append-nil (c.wire ++ take n bytes), append-nil c.wire)
          (append_assoc c.wire (take n bytes) (drop n bytes)
            ∙ ap (◌++◌ c.wire) (take-append-drop n bytes));
    faulty = λ e. absurd (cc);
  }
  write_now-TriedOk would_block empty fits = untried would_block
  write_now-TriedOk peer_gone empty fits = record {
    ordered = o;
    same = refl;
    within = omega arith;
    whole = refl;
    faulty = λ e. (refl, refl);
  }
  write_now-TriedOk other_error empty fits = untried other_error

  try_write-TriedOk : (w : Write) → Fits w (length bytes) → TriedOk c bytes w (try_write c bytes w)
  unfolding try_write
  try_write-TriedOk w fits =
      elim (Bool-cases (not c.write_enabled && (readable_bytes c.output_buffer == 0))) [
        | inl e ↦ rw e (write_now-TriedOk w (ground (arith, e)) fits)
        | inr e ↦ rw e (untried w)
      ]

-- What `sendInLoop` may do with the bytes: all of them join the stream, or the peer is gone, nothing
-- is waiting, and nothing changes.
abbrev pub Sent : TcpConnection → List ℕ → Write → TcpConnection → Type 0
Sent c bytes w d = (stream d ≡ stream c ++ bytes) ⊎ ((w ≡ peer_gone) × (d ≡ c))

-- `sendInLoop` on a connection that is not closed keeps the write interest in step with the output
-- buffer, and adds exactly the bytes given to the stream, behind those before them, unless the write
-- that it tries finds the peer gone.
pub send_in_loop_lem :
    {c : TcpConnection} (bytes : List ℕ) (w : Write)
    → IsOrdered c
    → is_disconnected c.state ≡ false
    → Fits w (length bytes)
    → c.output_buffer.writer_index + length bytes ≤ max_size
    → IsOrdered (send_in_loop c bytes w) × Sent c bytes w (send_in_loop c bytes w)
unfolding send_in_loop
send_in_loop_lem {c} bytes w o up fits room =
    rw up (elim (Bool-cases (not t.fault_error && ltb 0 (length bytes - t.nwrote))) [
      | inl e ↦ rw e (kept (ground (arith, e)))
      | inr e ↦ rw e (ok.ordered, ended e)
    ])
  where
    t : Tried
    t = try_write c bytes w

    ok : TriedOk c bytes w t
    ok = try_write-TriedOk o bytes w fits

    kept :
        0 < length bytes - t.nwrote
        → IsOrdered (keep_rest t.conn (drop t.nwrote bytes))
          × Sent c bytes w (keep_rest t.conn (drop t.nwrote bytes))
    kept h =
        let left : length (drop t.nwrote bytes) ≡ length bytes - t.nwrote =
          length-drop t.nwrote bytes in
        let (o', e) =
          keep_rest_lem t.conn (drop t.nwrote bytes) ok.ordered.output_valid (omega (arith, left))
            (rw ok.same (omega (arith, left, room))) in
        (o', inl (e ∙ ok.whole))

    ended : not t.fault_error && ltb 0 (length bytes - t.nwrote) ≡ false → Sent c bytes w t.conn
    ended e = elim (Bool-cases t.fault_error) [
      | inl f ↦ inr (ok.faulty f)
      | inr f ↦ inl (
          sym (append-nil (stream t.conn))
          ∙ ap (◌++◌ (stream t.conn)) (sym (drop_all t.nwrote bytes (ground (arith, e, f))))
          ∙ ok.whole)
    ]
