-- ===== src/TlvCodec/Tests.antt =====
-- Runs of the codec, and its theorem at concrete inputs.
use vortex_net.Base.{◌≤◌, false, length, ◌≡◌, refl, ap, true, [], ◌∷◌, ◌++◌, arith}
use vortex_net.TlvCodec.Settled.{on_tlv_message-rest}
use vortex_net.TlvCodec.{waits, ntohl, ntohs, loop, on_tlv_message, send}
use vortex_net.TlvCodec.Chunks.{answer_all, on_tlv_message-append}
use vortex_net.TlvCodec.Frames.{Frame, sent, carried, on_tlv_message-sent}

abbrev hello : Frame
hello = record { version = 7; kind = 258; body = 104 ∷ 105 ∷ [] }

abbrev empty_frame : Frame
empty_frame = record { version = 0; kind = 1; body = [] }

-- A frame, and the front of another, which waits.
cut :
    on_tlv_message (sent (hello ∷ []) ++ (18 ∷ 52 ∷ []))
    ≡ record { replies = (258, 104 ∷ 105 ∷ []) ∷ []; rest = 18 ∷ 52 ∷ []; shut = false }
unfolding on_tlv_message loop send ntohl ntohs
cut = refl

-- A wrong magic number shuts the connection down and takes nothing.
wrong_magic : (on_tlv_message (1 ∷ 2 ∷ 3 ∷ 4 ∷ 0 ∷ 0 ∷ 0 ∷ 0 ∷ 0 ∷ 0 ∷ 1 ∷ [])).shut ≡ true
unfolding on_tlv_message loop ntohl ntohs
wrong_magic = refl

on_tlv_message-sent_example :
    on_tlv_message (sent (hello ∷ empty_frame ∷ []) ++ (18 ∷ []))
    ≡ record (on_tlv_message (18 ∷ [])) {
      replies = carried (hello ∷ empty_frame ∷ []) ++ (on_tlv_message (18 ∷ [])).replies;
    }
on_tlv_message-sent_example =
    on_tlv_message-sent (hello ∷ empty_frame ∷ []) (18 ∷ []) (omega arith, (omega arith, tt))

-- The first frame and a half, then the other half.
on_tlv_message-append_example :
    on_tlv_message ((sent (hello ∷ []) ++ (18 ∷ 52 ∷ [])) ++ (86 ∷ 120 ∷ []))
    ≡ answer_all (on_tlv_message (sent (hello ∷ []) ++ (18 ∷ 52 ∷ []))).replies (
        on_tlv_message
          ((on_tlv_message (sent (hello ∷ []) ++ (18 ∷ 52 ∷ []))).rest ++ (86 ∷ 120 ∷ [])))
on_tlv_message-append_example =
    on_tlv_message-append (sent (hello ∷ []) ++ (18 ∷ 52 ∷ [])) (86 ∷ 120 ∷ [])
      (ap (λ x. x.shut) cut)

-- A frame, and the front of another: nothing more is taken from that.
not_shut : (on_tlv_message (sent (hello ∷ []) ++ (18 ∷ 52 ∷ []))).shut ≡ false
unfolding on_tlv_message loop send ntohl ntohs
not_shut = refl

on_tlv_message-rest_example :
    (length (on_tlv_message (sent (hello ∷ []) ++ (18 ∷ 52 ∷ []))).rest
      ≤ length (sent (hello ∷ []) ++ (18 ∷ 52 ∷ [])))
    × (on_tlv_message (on_tlv_message (sent (hello ∷ []) ++ (18 ∷ 52 ∷ []))).rest
        ≡ waits (on_tlv_message (sent (hello ∷ []) ++ (18 ∷ 52 ∷ []))).rest)
on_tlv_message-rest_example = on_tlv_message-rest (sent (hello ∷ []) ++ (18 ∷ 52 ∷ [])) not_shut
