-- ===== src/TlvCodec.antt =====
-- Codec/TLVCodec.cc and Codec/protocol.h: frames of an 11-byte packed header and a body. The buffer is the
-- list of its readable bytes; what is sent back is kept as the types and bodies handed to `send`.
pub mod Frames
pub mod Chunks
pub mod Settled
mod Tests
use vortex_net.Base.{
  ℕ, zero, suc, ◌+◌, ◌*◌, ◌/◌, ◌%◌, ◌^◌, Bool, true, false, not, List, [], ◌∷◌, ◌++◌, Option, none,
  some, ltb, ◌==◌, if◌then◌else◌, length, take, drop,
}

-- `MessageHeader`, in the host's order.
pub record Header : Type 0 where
  pub magic : ℕ
  pub version : ℕ
  pub body_length : ℕ
  pub kind : ℕ

abbrev pub header_size : ℕ
header_size = 11

-- `PROTOCOL_MAGIC`, 0x12345678.
abbrev pub protocol_magic : ℕ
protocol_magic = 305419896

-- `ntohl` and `ntohs`, of the bytes in the network's order.
unfoldable pub ntohl : ℕ → ℕ → ℕ → ℕ → ℕ
ntohl a b c d = ((a * 256 + b) * 256 + c) * 256 + d

unfoldable pub ntohs : ℕ → ℕ → ℕ
ntohs a b = a * 256 + b

-- The header at the front of the buffer, and what follows it.
abbrev pub split_header : List ℕ → Option (Header × List ℕ)
split_header (m0 ∷ m1 ∷ m2 ∷ m3 ∷ v ∷ l0 ∷ l1 ∷ l2 ∷ l3 ∷ t0 ∷ t1 ∷ rest) = some (
  record {
    magic = ntohl m0 m1 m2 m3;
    version = v;
    body_length = ntohl l0 l1 l2 l3;
    kind = ntohs t0 t1;
  },
  rest,
)
split_header _ = none

pub record Handled : Type 0 where
  pub replies : List (ℕ × List ℕ)
  pub rest : List ℕ
  pub shut : Bool

abbrev pub waits : List ℕ → Handled
waits bytes = record { replies = []; rest = bytes; shut = false }

-- The loop of `onTLVmessage`, on fuel.
unfoldable pub loop : ℕ → List ℕ → Handled
loop zero bytes = waits bytes
loop (suc k) bytes = elim (split_header bytes) [
  | none ↦ waits bytes
  | some (h, after) ↦
      let more = loop k (drop h.body_length after) in
      if not (h.magic == protocol_magic)
      then record { replies = []; rest = bytes; shut = true }
      else (if ltb (length bytes) (h.body_length + header_size)
          then waits bytes
          else record more { replies = (h.kind, take h.body_length after) ∷ more.replies })
]

-- Each round takes eleven bytes or more, so the bytes themselves are fuel enough.
unfoldable pub on_tlv_message : List ℕ → Handled
on_tlv_message bytes = loop (length bytes) bytes

-- `send`, as the bytes that it puts into its buffer; the version is whatever the stack held.
unfoldable pub send : ℕ → ℕ → List ℕ → List ℕ
send version kind body =
    let n = length body % 2 ^ 32 in
    18
    ∷ 52
    ∷ 86
    ∷ 120
    ∷ version
    ∷ n / 16777216
    ∷ n / 65536 % 256
    ∷ n / 256 % 256
    ∷ n % 256
    ∷ kind / 256
    ∷ kind % 256
    ∷ body
