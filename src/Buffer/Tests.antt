-- ===== src/Buffer/Tests.antt =====
-- Runs of the buffer on small storages, and its theorems at concrete inputs.
use vortex_net.Base.{◌≡◌, ◌<◌, ◌-◌, refl, [], ◌∷◌, arith, replicate}
use vortex_net.Buffer.{
  Buffer, new, append, retrieve_as_string, read_fd, got, failed, done, overrun, minus_one,
  extrabuf_size, resize, make_space, ensure_writeable_bytes, put, writeable_bytes,
}
use vortex_net.Buffer.Inv.{IsValid, content}
use vortex_net.Buffer.Stream.{append_lem, retrieve_as_string_lem}
use vortex_net.Buffer.ReadFd.{read_fd_got, read_fd_failed}

-- Two readable bytes, 7 and 8, in a storage of 12.
abbrev small : Buffer
small = record {
  buffer = 0 ∷ 0 ∷ 0 ∷ 0 ∷ 0 ∷ 0 ∷ 0 ∷ 0 ∷ 0 ∷ 7 ∷ 8 ∷ 0 ∷ [];
  reader_index = 9;
  writer_index = 11;
}

small-IsValid : IsValid small
small-IsValid = omega arith

-- The storage grows, since moving the bytes down gains one place only.
append_grows : content (append small (1 ∷ 2 ∷ 3 ∷ [])) ≡ 7 ∷ 8 ∷ 1 ∷ 2 ∷ 3 ∷ []
unfolding append ensure_writeable_bytes make_space resize put replicate
append_grows = refl

-- The bytes move down by one place.
append_shifts : (append small (1 ∷ 2 ∷ [])).reader_index ≡ 8
unfolding append ensure_writeable_bytes make_space put
append_shifts = refl

initial_size_ignored : (new 4096).buffer ≡ (new 16).buffer
unfolding new
initial_size_ignored = refl

append_lem_example :
    IsValid (append small (1 ∷ 2 ∷ 3 ∷ []))
    × (content (append small (1 ∷ 2 ∷ 3 ∷ [])) ≡ 7 ∷ 8 ∷ 1 ∷ 2 ∷ 3 ∷ [])
append_lem_example = append_lem (1 ∷ 2 ∷ 3 ∷ []) small-IsValid (omega arith)

retrieve_as_string_lem_example :
    ((retrieve_as_string small 1).0 ≡ 7 ∷ [])
    × (content (retrieve_as_string small 1).1 ≡ 8 ∷ [])
    × IsValid (retrieve_as_string small 1).1
retrieve_as_string_lem_example = retrieve_as_string_lem 1 small-IsValid (omega arith)

read_fd_got_example :
    (c : Buffer) × (read_fd small (got (1 ∷ 2 ∷ 3 ∷ [])) ≡ done c 3 [])
    × IsValid c
    × (content c ≡ 7 ∷ 8 ∷ 1 ∷ 2 ∷ 3 ∷ [])
read_fd_got_example = read_fd_got (1 ∷ 2 ∷ 3 ∷ []) small-IsValid (omega arith) (omega arith)

read_fd_failed_example :
    (read_fd small (failed 104) ≡ overrun (minus_one - writeable_bytes small))
    × (extrabuf_size < minus_one - writeable_bytes small)
read_fd_failed_example = read_fd_failed 104 small-IsValid
