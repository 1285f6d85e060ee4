-- ===== src/TlvCodec/Settled.antt =====
-- TLVCodec.cc: the loop of `onTLVmessage` ends only where it has to.
use vortex_net.Base.{
  ℕ, zero, suc, ◌+◌, ◌≤◌, ◌≡◌, refl, ◌∙◌, inl, inr, true, false, List, [], ◌∷◌, some, none, arith,
  ltb, ◌==◌, Bool-cases, Option-cases, length, take, drop, length-drop,
}
use vortex_net.TlvCodec.{
  Header, Handled, waits, header_size, protocol_magic, split_header, loop, on_tlv_message,
}
use vortex_net.TlvCodec.Frames.{split_header_size, loop_enough}

-- A round that takes a frame.
loop-step :
    (k : ℕ) (bytes after : List ℕ) (h : Header)
    → split_header bytes ≡ some (h, after)
    → (h.magic == protocol_magic) ≡ true
    → ltb (length bytes) (h.body_length + header_size) ≡ false
    → loop (suc k) bytes ≡ (record (loop k (drop h.body_length after)) {
      replies = (h.kind, take h.body_length after) ∷ (loop k (drop h.body_length after)).replies;
    })
unfolding loop
loop-step k bytes after h e m s = rw (e, loop) (rw (m, s))

-- A round that finds no header, a wrong one, or a frame that is not whole.
loop-none : (k : ℕ) (bytes : List ℕ) → split_header bytes ≡ none → loop (suc k) bytes ≡ waits bytes
unfolding loop
loop-none k bytes e = rw (e, loop)

loop-short :
    (k : ℕ) (bytes after : List ℕ) (h : Header)
    → split_header bytes ≡ some (h, after)
    → (h.magic == protocol_magic) ≡ true
    → ltb (length bytes) (h.body_length + header_size) ≡ true
    → loop (suc k) bytes ≡ waits bytes
unfolding loop
loop-short k bytes after h e m s = rw (e, loop) (rw (m, s))

loop-wrong :
    (k : ℕ) (bytes after : List ℕ) (h : Header)
    → split_header bytes ≡ some (h, after)
    → (h.magic == protocol_magic) ≡ false
    → loop (suc k) bytes ≡ record { replies = []; rest = bytes; shut = true }
unfolding loop
loop-wrong k bytes after h e m = rw (e, loop) (rw m)

-- What the loop leaves makes it wait, unless the connection was shut down.
record Settled (k : ℕ) (bytes : List ℕ) (r : Handled) : Type 0 where
  shorter : length r.rest ≤ length bytes
  waiting : r.shut ≡ false → loop k r.rest ≡ waits r.rest

loop-Settled : (k : ℕ) (bytes : List ℕ) → length bytes ≤ k → Settled k bytes (loop k bytes)
unfolding loop
loop-Settled zero bytes l = record { shorter = omega arith; waiting = λ s. refl }
loop-Settled (suc k) bytes l = elim (Option-cases (split_header bytes)) [
  | inl e ↦
      rw (loop-none k bytes e)
        (record { shorter = omega arith; waiting = λ s. loop-none k bytes e })
  | inr ((h, after), e) ↦ elim (Bool-cases (h.magic == protocol_magic)) [
    | inr m ↦
        rw (loop-wrong k bytes after h e m)
          (record { shorter = omega arith; waiting = λ s. absurd (cc (s)) })
    | inl m ↦ elim (Bool-cases (ltb (length bytes) (h.body_length + header_size))) [
      | inl s ↦
          rw (loop-short k bytes after h e m s)
            (record { shorter = omega arith; waiting = λ _. loop-short k bytes after h e m s })
      | inr s ↦
          let n : length (drop h.body_length after) + 11 ≤ length bytes =
            omega (arith, split_header_size bytes h after e, length-drop h.body_length after) in
          let t = loop-Settled k (drop h.body_length after) (omega (arith, n)) in
          rw (loop-step k bytes after h e m s) (record {
            shorter = omega (arith, n, t.shorter);
            waiting = λ z.
                loop_enough (suc k) k (loop k (drop h.body_length after)).rest
                  (omega (arith, n, t.shorter)) (omega (arith, n, t.shorter))
                ∙ t.waiting z;
          })
    ]
  ]
]

-- The loop of `onTLVmessage` ends, within as many rounds as there are bytes, where it has to: unless it has
-- shut the connection down, it takes no frame from what it leaves, which it would leave as it is. What it
-- leaves is no more than it was given.
pub on_tlv_message-rest :
    (bytes : List ℕ)
    → (on_tlv_message bytes).shut ≡ false
    → (length (on_tlv_message bytes).rest ≤ length bytes)
      × (on_tlv_message (on_tlv_message bytes).rest ≡ waits (on_tlv_message bytes).rest)
unfolding on_tlv_message
on_tlv_message-rest bytes z =
    let t = loop-Settled (length bytes) bytes (omega arith) in
    (
      t.shorter,
      loop_enough (length (loop (length bytes) bytes).rest) (length bytes)
            (loop (length bytes) bytes).rest (omega arith) t.shorter
          ∙ t.waiting z,
    )
