-- ===== src/Buffer/ReadFd.antt =====
-- Buffer.cc: `readFd`, which reads into the free tail of the buffer and into 64 KiB on the stack.
use vortex_net.Base.{
  ℕ, ◌+◌, ◌-◌, ◌≤◌, ◌<◌, ◌≡◌, ap, ap₂, ◌∙◌, List, [], ◌++◌, length, take, drop, overwrite,
  replicate, arith, inl, inr, Bool-cases, ltb, add64, sub64, ltb→lt, not_ltb→le, lt→ltb, le→ltb,
  le→leb, lt→leb, length-take, length-drop, take-append, take_all, take-append-drop, append_assoc,
}
use vortex_net.Buffer.{
  Buffer, writeable_bytes, put, append, got, failed, done, overrun, read_fd, extrabuf_size,
  minus_one,
}
use vortex_net.Buffer.Inv.{IsValid, max_size, content, writeable_lem}
use vortex_net.Buffer.Stream.{append_lem, put-IsValid, content-put}

-- All that fits: the bytes go to the tail, as `append` would put them.
read_fd-within :
    {b : Buffer} (bytes : List ℕ)
    → IsValid b
    → length bytes ≤ writeable_bytes b
    → read_fd b (got bytes) ≡ done (put b bytes) (length bytes) []
unfolding read_fd put
read_fd-within {b} bytes v h =
    rw (take_all (writeable_bytes b) bytes h, le→leb (length bytes) (writeable_bytes b) h)

spill : Buffer → List ℕ → Buffer
spill b bytes = append (put b (take (writeable_bytes b) bytes)) (drop (writeable_bytes b) bytes)

read_fd-spilled :
    {b : Buffer} (bytes : List ℕ)
    → IsValid b
    → writeable_bytes b < length bytes
    → length bytes ≤ writeable_bytes b + extrabuf_size
    → read_fd b (got bytes) ≡ done (spill b bytes) (length bytes) []
unfolding read_fd put spill
read_fd-spilled {b} bytes v h k =
    rw
      (
        lt→leb (length bytes) (writeable_bytes b) h,
        le→ltb extrabuf_size (sub64 (length bytes) (writeable_bytes b)) (omega arith),
      )
      (ap₂
        (λ n xs.
          done (append (record b { buffer = tail_filled; writer_index = n }) xs) (length bytes) [])
        filled rest)
  where
    tail_filled : List ℕ
    tail_filled = overwrite b.buffer b.writer_index (take (writeable_bytes b) bytes)

    filled : length b.buffer ≡ add64 b.writer_index (length (take (writeable_bytes b) bytes))
    filled = omega (arith, length-take (writeable_bytes b) bytes, v.inside, v.small)

    rest :
        take
          (sub64 (length bytes) (writeable_bytes b))
          (drop (writeable_bytes b) bytes ++ replicate extrabuf_size 0)
        ≡ drop (writeable_bytes b) bytes
    rest =
        ap (λ n. take n (drop (writeable_bytes b) bytes ++ replicate extrabuf_size 0))
          (omega (arith, length-drop (writeable_bytes b) bytes))
        ∙ take-append (drop (writeable_bytes b) bytes) (replicate extrabuf_size 0)

-- The tail that is filled first, in the middle of `read_fd`.
put-front :
    {b : Buffer} (bytes : List ℕ)
    → IsValid b
    → let front = take (writeable_bytes b) bytes in
      IsValid (put b front)
      × (content (put b front) ≡ content b ++ front)
      × ((put b front).writer_index ≤ length b.buffer)
unfolding put
put-front {b} bytes v =
    (put-IsValid front v room, content-put front v room, omega (arith, v.small, room))
  where
    front : List ℕ
    front = take (writeable_bytes b) bytes

    room : b.writer_index + length front ≤ length b.buffer
    room = omega (arith, length-take (writeable_bytes b) bytes, writeable_lem v, v.inside)

spill_lem :
    {b : Buffer} (bytes : List ℕ)
    → IsValid b
    → length b.buffer + length bytes ≤ max_size
    → IsValid (spill b bytes) × (content (spill b bytes) ≡ content b ++ bytes)
unfolding spill
spill_lem {b} bytes v fits =
    let (ok, held, bound) = put-front bytes v in
    let (ok', held') = append_lem {b = put b front} back ok (omega (arith, bound, size)) in
    (
      ok',
      held'
          ∙ ap (λ xs. xs ++ back) held
          ∙ append_assoc (content b) front back
          ∙ ap (◌++◌ (content b)) (take-append-drop (writeable_bytes b) bytes),
    )
  where
    front : List ℕ
    front = take (writeable_bytes b) bytes

    back : List ℕ
    back = drop (writeable_bytes b) bytes

    size : length back ≤ length bytes
    size = omega (arith, length-drop (writeable_bytes b) bytes)

-- When `readv` scatters `bytes`, no more of them than it was given room for, `readFd` returns their
-- number, keeps the invariant, and adds exactly those bytes, in order, to the readable ones, whether
-- they fit in the buffer or spill over to the stack.
pub read_fd_got :
    {b : Buffer} (bytes : List ℕ)
    → IsValid b
    → length bytes ≤ writeable_bytes b + extrabuf_size
    → length b.buffer + length bytes ≤ max_size
    → (c : Buffer) × (read_fd b (got bytes) ≡ done c (length bytes) [])
      × IsValid c
      × (content c ≡ content b ++ bytes)
read_fd_got {b} bytes v room fits = elim (Bool-cases (ltb (writeable_bytes b) (length bytes))) [
  | inl e ↦
      let (ok, held) = spill_lem bytes v fits in
      (spill b bytes, read_fd-spilled bytes v (ltb→lt _ _ e) room, ok, held)
  | inr e ↦
      let h = not_ltb→le _ _ e in
      let k : b.writer_index + length bytes ≤ length b.buffer =
        omega (arith, writeable_lem v, v.inside) in
      (put b bytes, read_fd-within bytes v h, put-IsValid bytes v k, content-put bytes v k)
]

-- When `readv` fails, with any `errno` and for any valid buffer, the failure is not seen: nothing is
-- stored through `saveError`, and `append` is asked to copy more than the 64 KiB of `extrabuf`.
pub read_fd_failed :
    {b : Buffer} (errno : ℕ)
    → IsValid b
    → (read_fd b (failed errno) ≡ overrun (minus_one - writeable_bytes b))
      × (extrabuf_size < minus_one - writeable_bytes b)
unfolding read_fd
read_fd_failed {b} errno v = (
  rw
      (
        lt→leb minus_one (writeable_bytes b) (omega (arith, writeable_lem v, v.small)),
        lt→ltb extrabuf_size (sub64 minus_one (writeable_bytes b))
            (omega (arith, writeable_lem v, v.small)),
      )
      (ap overrun (omega (arith, writeable_lem v, v.small))),
  omega (arith, writeable_lem v, v.small),
)
