-- ===== src/TlvCodec/Frames.antt =====
-- TLVCodec.cc: what `send` writes `onTLVmessage` reads, frame by frame, however the stream is cut.
use vortex_net.Base.{
  ℕ, zero, suc, ◌+◌, ◌/◌, ◌%◌, ◌^◌, ◌≤◌, ◌<◌, ◌≡◌, refl, ◌∙◌, ap, append_assoc, inl, inr, false,
  List, [], ◌∷◌, ◌++◌, some, arith, ltb, length, drop, Option-cases, take-append, drop-append,
  length-append, length-drop,
}
use vortex_net.TlvCodec.{
  Header, ntohl, ntohs, split_header, Handled, loop, on_tlv_message, send, header_size,
}

pub split_header_size :
    (bytes : List ℕ) (h : Header) (after : List ℕ)
    → split_header bytes ≡ some (h, after)
    → length bytes ≡ 11 + length after
split_header_size [] h after e = absurd (cc)
split_header_size (m0 ∷ []) h after e = absurd (cc)
split_header_size (m0 ∷ m1 ∷ []) h after e = absurd (cc)
split_header_size (m0 ∷ m1 ∷ m2 ∷ []) h after e = absurd (cc)
split_header_size (m0 ∷ m1 ∷ m2 ∷ m3 ∷ []) h after e = absurd (cc)
split_header_size (m0 ∷ m1 ∷ m2 ∷ m3 ∷ v ∷ []) h after e = absurd (cc)
split_header_size (m0 ∷ m1 ∷ m2 ∷ m3 ∷ v ∷ l0 ∷ []) h after e = absurd (cc)
split_header_size (m0 ∷ m1 ∷ m2 ∷ m3 ∷ v ∷ l0 ∷ l1 ∷ []) h after e = absurd (cc)
split_header_size (m0 ∷ m1 ∷ m2 ∷ m3 ∷ v ∷ l0 ∷ l1 ∷ l2 ∷ []) h after e = absurd (cc)
split_header_size (m0 ∷ m1 ∷ m2 ∷ m3 ∷ v ∷ l0 ∷ l1 ∷ l2 ∷ l3 ∷ []) h after e = absurd (cc)
split_header_size (m0 ∷ m1 ∷ m2 ∷ m3 ∷ v ∷ l0 ∷ l1 ∷ l2 ∷ l3 ∷ t0 ∷ []) h after e = absurd (cc)
split_header_size (m0 ∷ m1 ∷ m2 ∷ m3 ∷ v ∷ l0 ∷ l1 ∷ l2 ∷ l3 ∷ t0 ∷ t1 ∷ bs) h after e =
    let same : bs ≡ after = cc in
    let sizes : length bs ≡ length after = ap length same in omega (arith, sizes)

-- Any fuel that covers the bytes gives the same.
pub loop_enough :
    (k m : ℕ) (bytes : List ℕ) → length bytes ≤ k → length bytes ≤ m → loop k bytes ≡ loop m bytes
unfolding loop
loop_enough zero zero bytes h g = refl
loop_enough zero (suc m) [] h g = refl
loop_enough zero (suc m) (b ∷ bs) h g = absurd (omega arith)
loop_enough (suc k) zero [] h g = refl
loop_enough (suc k) zero (b ∷ bs) h g = absurd (omega arith)
loop_enough (suc k) (suc m) bytes h g = elim (Option-cases (split_header bytes)) [
  | inl e ↦ rw (e, loop)
  | inr ((hd, after), e) ↦
      let shorter : length (drop hd.body_length after) + 11 ≤ length bytes =
        omega (arith, split_header_size bytes hd after e, length-drop hd.body_length after) in
      let same =
        loop_enough k m (drop hd.body_length after) (omega (arith, shorter))
          (omega (arith, shorter)) in
      rw (e, loop) (rw same)
]

number_read :
    (n : ℕ) → n < 2 ^ 32 → ntohl (n / 16777216) (n / 65536 % 256) (n / 256 % 256) (n % 256) ≡ n
unfolding ntohl
number_read n h = omega arith

kind_back : (kind : ℕ) → ntohs (kind / 256) (kind % 256) ≡ kind
unfolding ntohs
kind_back kind = omega arith

-- One frame at the front of the bytes is read whole, and the rest is read as it would be alone.
loop-send :
    (k version kind : ℕ) (body tail : List ℕ)
    → length body < 2 ^ 32
    → loop (suc k) (send version kind body ++ tail)
      ≡ record (loop k tail) { replies = (kind, body) ∷ (loop k tail).replies }
unfolding loop send ntohl
loop-send k version kind body tail l =
    let whole : length body % 2 ^ 32 ≡ length body = omega arith in
    let read : ntohl (length body / 16777216) (length body / 65536 % 256) (length body / 256 % 256)
          (length body % 256)
        ≡ length body =
      number_read (length body) l in
    let kind_read : ntohs (kind / 256) (kind % 256) ≡ kind = kind_back kind in
    let there : ltb (length (send version kind body ++ tail)) (length body + header_size) ≡ false =
      ground (arith, length-append body tail) in
    rw (whole, read, kind_read, there, take-append body tail, drop-append body tail)

pub record Frame : Type 0 where
  pub version : ℕ
  pub kind : ℕ
  pub body : List ℕ

-- The frames' bytes, one after the other.
abbrev pub sent : List Frame → List ℕ
sent [] = []
sent (f ∷ fs) = send f.version f.kind f.body ++ sent fs

abbrev pub carried : List Frame → List (ℕ × List ℕ)
carried [] = []
carried (f ∷ fs) = (f.kind, f.body) ∷ carried fs

abbrev pub AllShort : List Frame → Type 0
AllShort [] = Unit
AllShort (f ∷ fs) = (length f.body < 2 ^ 32) × AllShort fs

length-send :
    (v kind : ℕ) (body tail : List ℕ)
    → length (send v kind body ++ tail) ≡ 11 + length body + length tail
unfolding send
length-send v kind body tail = omega (arith, length-append body tail)

abbrev pub answer_first : ℕ → List ℕ → Handled → Handled
answer_first kind body m = record m { replies = (kind, body) ∷ m.replies }

on_tlv_message-send :
    (v kind : ℕ) (body tail : List ℕ)
    → length body < 2 ^ 32
    → on_tlv_message (send v kind body ++ tail)
      ≡ record (on_tlv_message tail) { replies = (kind, body) ∷ (on_tlv_message tail).replies }
unfolding on_tlv_message
on_tlv_message-send v kind body tail l =
    let bytes = send v kind body ++ tail in
    let n = 10 + length body + length tail in
    loop_enough (length bytes) (suc n) bytes (omega arith)
      (omega (arith, length-send v kind body tail))
    ∙ loop-send n v kind body tail l
    ∙ ap (answer_first kind body) (loop_enough n (length tail) tail (omega arith) (omega arith))

-- Frames that `send` wrote, with bodies that fit 32 bits, are read back as they were, whatever their
-- version bytes: each is answered with its type and its body, in order, before anything that comes after
-- them, and what comes after is handled as it would be alone.
pub on_tlv_message-sent :
    (fs : List Frame) (tail : List ℕ)
    → AllShort fs
    → on_tlv_message (sent fs ++ tail)
      ≡ record (on_tlv_message tail) { replies = carried fs ++ (on_tlv_message tail).replies }
on_tlv_message-sent [] tail a = refl
on_tlv_message-sent (f ∷ fs) tail a =
    ap on_tlv_message (append_assoc (send f.version f.kind f.body) (sent fs) tail)
    ∙ on_tlv_message-send f.version f.kind f.body (sent fs ++ tail) a.0
    ∙ ap (answer_first f.kind f.body) (on_tlv_message-sent fs tail a.1)
