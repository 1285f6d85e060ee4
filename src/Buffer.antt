-- ===== src/Buffer.antt =====
-- utils/Buffer.h and utils/Buffer.cc: the byte buffer of a connection. The storage is the vector
-- `buffer_`, and the two indices are `size_t` values, whose wrap is written out.
pub mod Inv
pub mod Stream
pub mod ReadFd
mod Tests
use vortex_net.Base.{
  ℕ, ◌+◌, ◌-◌, ◌^◌, Bool, List, [], ◌++◌, length, take, drop, replicate, overwrite, slice, ltb, leb,
  if◌then◌else◌, add64, sub64,
}

pub record Buffer : Type 0 where
  pub buffer : List ℕ
  pub reader_index : ℕ
  pub writer_index : ℕ

abbrev pub cheap_prepend : ℕ
cheap_prepend = 8

abbrev pub initial_size : ℕ
initial_size = 1024

-- `Buffer(size_t initialSize)`: the storage is `kCheapPrepend_ + kInitiaSize_` bytes, whatever size
-- is asked for.
unfoldable pub new : ℕ → Buffer
new size = record {
  buffer = replicate (cheap_prepend + initial_size) 0;
  reader_index = cheap_prepend;
  writer_index = cheap_prepend;
}

abbrev pub readable_bytes : Buffer → ℕ
readable_bytes b = sub64 b.writer_index b.reader_index

abbrev pub writeable_bytes : Buffer → ℕ
writeable_bytes b = sub64 (length b.buffer) b.writer_index

abbrev pub prependable_bytes : Buffer → ℕ
prependable_bytes b = b.reader_index

-- The `n` bytes from `peek()` on. A read past the storage gives fewer bytes.
abbrev pub peek : Buffer → ℕ → List ℕ
peek b n = slice b.reader_index n b.buffer

unfoldable pub retrieve_all : Buffer → Buffer
retrieve_all b = record b { reader_index = cheap_prepend; writer_index = cheap_prepend }

unfoldable pub retrieve : Buffer → ℕ → Buffer
unfolding retrieve_all
retrieve b len =
    if ltb len (readable_bytes b)
    then record b { reader_index = add64 b.reader_index len }
    else retrieve_all b

-- `retrieveAllAsString(len)`.
unfoldable pub retrieve_as_string : Buffer → ℕ → List ℕ × Buffer
unfolding retrieve
retrieve_as_string b len = (peek b len, retrieve b len)

unfoldable pub retrieve_all_as_string : Buffer → List ℕ × Buffer
unfolding retrieve_as_string
retrieve_all_as_string b = retrieve_as_string b (readable_bytes b)

-- `std::vector::resize`: it cuts the vector off, or fills it up with zeros.
unfoldable pub resize : List ℕ → ℕ → List ℕ
resize xs n = take n xs ++ replicate (n - length xs) 0

-- Growing, or moving the readable bytes down to the prepend area.
unfoldable pub make_space : Buffer → ℕ → Buffer
unfolding resize
make_space b len =
    if ltb (add64 (writeable_bytes b) (prependable_bytes b)) (add64 len cheap_prepend)
    then record b { buffer = resize b.buffer (add64 b.writer_index len) }
    else record {
      buffer = overwrite b.buffer cheap_prepend (peek b (readable_bytes b));
      reader_index = cheap_prepend;
      writer_index = add64 cheap_prepend (readable_bytes b);
    }

unfoldable pub ensure_writeable_bytes : Buffer → ℕ → Buffer
ensure_writeable_bytes b len = if ltb (writeable_bytes b) len then make_space b len else b

-- Copies to `beginwrite()` and moves the write index.
unfoldable pub put : Buffer → List ℕ → Buffer
put b bytes = record b {
  buffer = overwrite b.buffer b.writer_index bytes;
  writer_index = add64 b.writer_index (length bytes);
}

-- `append(data, len)` for the `len` bytes at `data`.
unfoldable pub append : Buffer → List ℕ → Buffer
unfolding ensure_writeable_bytes put
append b bytes = put (ensure_writeable_bytes b (length bytes)) bytes

abbrev pub extrabuf_size : ℕ
extrabuf_size = 65536

-- What `::readv` comes back with: the bytes that it scattered, or -1 and `errno`.
pub data Readv : Type 0 where
  got : List ℕ → Readv
  failed : ℕ → Readv

-- `ssize_t` -1 as the `size_t` that the code stores it in.
abbrev pub minus_one : ℕ
minus_one = 2 ^ 64 - 1

pub data ReadResult : Type 0 where
  -- The buffer, the number returned, and what was stored through `saveError`.
  done : Buffer → ℕ → List ℕ → ReadResult
  -- `append` was asked for more bytes than `extrabuf` holds.
  overrun : ℕ → ReadResult

abbrev pub returned : Readv → ℕ
returned (got bytes) = length bytes
returned (failed e) = minus_one

abbrev pub scattered : Readv → List ℕ
scattered (got bytes) = bytes
scattered (failed e) = []

-- Bytes fill the buffer's tail first, then `extrabuf`. The test `n < 0` of the source is on a
-- `size_t`, so it never holds and its branch is not taken.
unfoldable pub read_fd : Buffer → Readv → ReadResult
read_fd b r =
    let writable = writeable_bytes b in
    let n = returned r in
    let filled : List ℕ = overwrite b.buffer b.writer_index (take writable (scattered r)) in
    if leb n writable
    then done (record b { buffer = filled; writer_index = add64 b.writer_index n }) n []
    else if ltb extrabuf_size (sub64 n writable)
    then overrun (sub64 n writable)
    else done
        (append (record b { buffer = filled; writer_index = length b.buffer })
          (take (sub64 n writable) (drop writable (scattered r) ++ replicate extrabuf_size 0)))
        n []
