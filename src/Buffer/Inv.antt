-- ===== src/Buffer/Inv.antt =====
-- Buffer.h: the invariant of the indices, and that the operations keep it.
use vortex_net.Base.{ℕ, ◌-◌, ◌^◌, ◌≤◌, ◌≡◌, refl, ap, List, [], length, slice, arith, length-slice}
use vortex_net.Buffer.{
  Buffer, readable_bytes, writeable_bytes, peek, retrieve, retrieve_all, cheap_prepend,
}

abbrev pub max_size : ℕ
max_size = 2 ^ 63 - 1

pub record IsValid (b : Buffer) : Type 0 where
  pub prepend : cheap_prepend ≤ b.reader_index
  pub order : b.reader_index ≤ b.writer_index
  pub inside : b.writer_index ≤ length b.buffer
  pub small : length b.buffer ≤ max_size

-- The bytes that a reader still has to take.
abbrev pub content : Buffer → List ℕ
content b = peek b (readable_bytes b)

pub readable_lem : {b : Buffer} → IsValid b → readable_bytes b ≡ b.writer_index - b.reader_index
readable_lem v = omega arith

pub writeable_lem : {b : Buffer} → IsValid b → writeable_bytes b ≡ length b.buffer - b.writer_index
writeable_lem v = omega arith

pub content_lem :
    {b : Buffer}
    → IsValid b
    → content b ≡ slice b.reader_index (b.writer_index - b.reader_index) b.buffer
content_lem {b} v = ap (λ n. slice b.reader_index n b.buffer) (readable_lem v)

pub length-content : {b : Buffer} → IsValid b → length (content b) ≡ readable_bytes b
length-content {b} v =
    length-slice b.reader_index (readable_bytes b) b.buffer (omega (arith, readable_lem v))

pub retrieve_all-IsValid : {b : Buffer} → IsValid b → IsValid (retrieve_all b)
unfolding retrieve_all
retrieve_all-IsValid v = omega arith

pub content-retrieve_all : (b : Buffer) → content (retrieve_all b) ≡ []
unfolding retrieve_all
content-retrieve_all b = refl

pub retrieve-IsValid : {b : Buffer} (n : ℕ) → IsValid b → IsValid (retrieve b n)
unfolding retrieve
retrieve-IsValid n v = ground (arith, readable_lem v)
