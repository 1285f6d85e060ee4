-- ===== src/TlvCodec/Chunks.antt =====
-- TLVCodec.cc: it does not matter how the bytes arrive.
use vortex_net.Base.{
  ℕ, zero, suc, ◌+◌, ◌≤◌, ◌≡◌, refl, sym, ◌∙◌, ap, inl, inr, true, false, List, [], ◌∷◌, ◌++◌, some,
  arith, ltb, ◌==◌, length, take, drop, Bool-cases, Option-cases, take-append_le, drop-append_le,
  length-append, length-drop,
}
use vortex_net.TlvCodec.{
  Header, split_header, Handled, loop, on_tlv_message, header_size, protocol_magic,
}
use vortex_net.TlvCodec.Frames.{split_header_size, loop_enough, answer_first}

split_header-append :
    (xs ys : List ℕ) (h : Header) (after : List ℕ)
    → split_header xs ≡ some (h, after)
    → split_header (xs ++ ys) ≡ some (h, after ++ ys)
split_header-append [] ys h after e = absurd (cc)
split_header-append (m0 ∷ []) ys h after e = absurd (cc)
split_header-append (m0 ∷ m1 ∷ []) ys h after e = absurd (cc)
split_header-append (m0 ∷ m1 ∷ m2 ∷ []) ys h after e = absurd (cc)
split_header-append (m0 ∷ m1 ∷ m2 ∷ m3 ∷ []) ys h after e = absurd (cc)
split_header-append (m0 ∷ m1 ∷ m2 ∷ m3 ∷ v ∷ []) ys h after e = absurd (cc)
split_header-append (m0 ∷ m1 ∷ m2 ∷ m3 ∷ v ∷ l0 ∷ []) ys h after e = absurd (cc)
split_header-append (m0 ∷ m1 ∷ m2 ∷ m3 ∷ v ∷ l0 ∷ l1 ∷ []) ys h after e = absurd (cc)
split_header-append (m0 ∷ m1 ∷ m2 ∷ m3 ∷ v ∷ l0 ∷ l1 ∷ l2 ∷ []) ys h after e = absurd (cc)
split_header-append (m0 ∷ m1 ∷ m2 ∷ m3 ∷ v ∷ l0 ∷ l1 ∷ l2 ∷ l3 ∷ []) ys h after e = absurd (cc)
split_header-append (m0 ∷ m1 ∷ m2 ∷ m3 ∷ v ∷ l0 ∷ l1 ∷ l2 ∷ l3 ∷ t0 ∷ []) ys h after e = absurd (cc)
split_header-append (m0 ∷ m1 ∷ m2 ∷ m3 ∷ v ∷ l0 ∷ l1 ∷ l2 ∷ l3 ∷ t0 ∷ t1 ∷ bs) ys h after e = cc

-- One round on a whole frame.
loop_step :
    (k : ℕ) (bytes : List ℕ) (h : Header) (after : List ℕ)
    → split_header bytes ≡ some (h, after)
    → (h.magic == protocol_magic) ≡ true
    → ltb (length bytes) (h.body_length + header_size) ≡ false
    → loop (suc k) bytes
      ≡ answer_first h.kind (take h.body_length after) (loop k (drop h.body_length after))
unfolding loop
loop_step k bytes h after e m t = rw (e, loop) (rw (m, t))

on_tlv_message_step :
    (bytes : List ℕ) (h : Header) (after : List ℕ)
    → split_header bytes ≡ some (h, after)
    → (h.magic == protocol_magic) ≡ true
    → ltb (length bytes) (h.body_length + header_size) ≡ false
    → on_tlv_message bytes
      ≡ answer_first h.kind (take h.body_length after) (on_tlv_message (drop h.body_length after))
unfolding on_tlv_message
on_tlv_message_step bytes h after e m t =
    loop_enough (length bytes) (suc (length bytes)) bytes (omega arith) (omega arith)
    ∙ loop_step (length bytes) bytes h after e m t
    ∙ ap (answer_first h.kind (take h.body_length after)) (
        loop_enough (length bytes) (length (drop h.body_length after)) (drop h.body_length after)
          (omega (arith, split_header_size bytes h after e, length-drop h.body_length after))
          (omega arith))

-- The answers given before, then those of the rest.
abbrev pub answer_all : List (ℕ × List ℕ) → Handled → Handled
answer_all rs m = record m { replies = rs ++ m.replies }

loop-append :
    (k : ℕ) (xs ys : List ℕ)
    → (loop k xs).shut ≡ false
    → on_tlv_message (xs ++ ys)
      ≡ answer_all (loop k xs).replies (on_tlv_message ((loop k xs).rest ++ ys))
unfolding loop
loop-append zero xs ys s = refl
loop-append (suc k) xs ys s = elim (Option-cases (split_header xs)) [
  | inl e ↦ rw (e, loop)
  | inr ((h, after), e) ↦ elim (Bool-cases (h.magic == protocol_magic)) [
    | inr m ↦ absurd (ground (arith, e, m, s))
    | inl m ↦ elim (Bool-cases (ltb (length xs) (h.body_length + header_size))) [
      | inl t ↦ rw (e, loop) (rw (m, t))
      | inr t ↦
          let n = h.body_length in
          let fits : n ≤ length after = ground (arith, t, split_header_size xs h after e) in
          let long : ltb (length (xs ++ ys)) (n + header_size) ≡ false =
            ground (arith, t, length-append xs ys) in
          let one = loop_step k xs h after e m t in
          let rest_shut : (loop k (drop n after)).shut ≡ false = sym (ap (λ x. x.shut) one) ∙ s in
          let ih = loop-append k (drop n after) ys rest_shut in
          on_tlv_message_step (xs ++ ys) h (after ++ ys) (split_header-append xs ys h after e) m
            long
          ∙ rw (take-append_le n after ys fits, drop-append_le n after ys fits)
              (ap (answer_first h.kind (take n after)) ih)
          ∙ sym (ap (λ x. answer_all x.replies (on_tlv_message (x.rest ++ ys))) one)
    ]
  ]
]

-- Bytes that arrive in two parts are handled as if they had come at once: unless the first part shut the
-- connection down, the answers to it and then those to its rest with the second part are the answers to
-- both together, and the bytes left and the shutdown are the same.
pub on_tlv_message-append :
    (xs ys : List ℕ)
    → (on_tlv_message xs).shut ≡ false
    → on_tlv_message (xs ++ ys)
      ≡ answer_all (on_tlv_message xs).replies (on_tlv_message ((on_tlv_message xs).rest ++ ys))
unfolding on_tlv_message
on_tlv_message-append xs ys s = loop-append (length xs) xs ys s
