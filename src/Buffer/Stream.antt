-- ===== src/Buffer/Stream.antt =====
-- Buffer.h: a buffer is a queue of bytes. What `append`, `retrieve` and `retrieveAllAsString` do to
-- the readable bytes, whatever room `makeSpace` has to make.
use vortex_net.Base.{
  ℕ, ◌+◌, ◌-◌, ◌≤◌, ◌<◌, ◌≡◌, refl, ap, ap₂, sym, ◌∙◌, List, ◌++◌, length, take, drop, overwrite,
  replicate, slice, arith, inl, inr, Bool-cases, ltb, add64, sub64, ltb→lt, lt→ltb, le→ltb,
  not_ltb→le, length-append, length-replicate, length-overwrite, slice-append_le,
  slice-overwrite_self, slice-overwrite_before, slice-add, drop-slice, take_all, take-take,
  drop_all,
}
use vortex_net.Buffer.{
  Buffer, readable_bytes, writeable_bytes, prependable_bytes, retrieve, resize, make_space,
  ensure_writeable_bytes, put, append, cheap_prepend, retrieve_as_string,
}
use vortex_net.Buffer.Inv.{
  IsValid, max_size, content, length-content, readable_lem, writeable_lem, retrieve-IsValid,
}

resize_grow :
    (xs : List ℕ) (n : ℕ) → length xs ≤ n → resize xs n ≡ xs ++ replicate (n - length xs) 0
unfolding resize
resize_grow xs n h = rw (take_all n xs h)

length-resize : (xs : List ℕ) (n : ℕ) → length xs ≤ n → length (resize xs n) ≡ n
length-resize xs n h = rw (resize_grow xs n h) (
    omega (
      arith,
      length-append xs (replicate (n - length xs) 0),
      length-replicate (n - length xs) (let z : ℕ = 0 in z),
    ))

-- What room-making may turn `b` into: the same bytes, and room for `len` more.
pub record Roomy (b : Buffer) (len : ℕ) (c : Buffer) : Type 0 where
  pub valid : IsValid c
  pub same : content c ≡ content b
  pub room : c.writer_index + len ≤ length c.buffer
  pub bounded : c.writer_index ≤ b.writer_index

grown : Buffer → ℕ → Buffer
grown b len = record b { buffer = resize b.buffer (b.writer_index + len) }

shifted : Buffer → Buffer
shifted b = record {
  buffer = overwrite b.buffer cheap_prepend (content b);
  reader_index = cheap_prepend;
  writer_index = cheap_prepend + (b.writer_index - b.reader_index);
}

module _ {b : Buffer} (v : IsValid b) (len : ℕ) (fits : b.writer_index + len ≤ max_size) where
  make_space-grown :
      writeable_bytes b + prependable_bytes b < len + cheap_prepend → make_space b len ≡ grown b len
  unfolding make_space grown
  make_space-grown h =
      rw
        (lt→ltb (add64 (writeable_bytes b) (prependable_bytes b)) (add64 len cheap_prepend)
          (omega (arith, writeable_lem v)))
        (ap (λ n. record b { buffer = resize b.buffer n }) (omega arith))

  make_space-shifted :
      len + cheap_prepend ≤ writeable_bytes b + prependable_bytes b → make_space b len ≡ shifted b
  unfolding make_space shifted
  make_space-shifted h =
      rw
        (le→ltb (add64 (writeable_bytes b) (prependable_bytes b)) (add64 len cheap_prepend)
          (omega (arith, writeable_lem v)))
        (ap
          (λ n. record {
            buffer = overwrite b.buffer cheap_prepend (content b);
            reader_index = cheap_prepend;
            writer_index = n;
          })
          (omega (arith, readable_lem v)))

  grown-Roomy : length b.buffer ≤ b.writer_index + len → Roomy b len (grown b len)
  unfolding grown
  grown-Roomy h = record { valid = valid; same = same; room = room; bounded = omega arith }
    where
      size : length (resize b.buffer (b.writer_index + len)) ≡ b.writer_index + len
      size = length-resize b.buffer (b.writer_index + len) h

      valid : IsValid (grown b len)
      valid = record {
        prepend = v.prepend;
        order = v.order;
        inside = omega (arith, size);
        small = omega (arith, size);
      }

      same : content (grown b len) ≡ content b
      same = rw (resize_grow b.buffer (b.writer_index + len) h) (
          slice-append_le b.reader_index (readable_bytes b) b.buffer
            (replicate (b.writer_index + len - length b.buffer) 0) (omega (arith, readable_lem v)))

      room : b.writer_index + len ≤ length (resize b.buffer (b.writer_index + len))
      room = omega (arith, size)

  shifted-Roomy :
      len + cheap_prepend ≤ writeable_bytes b + prependable_bytes b → Roomy b len (shifted b)
  unfolding shifted
  shifted-Roomy h = record { valid = valid; same = same; room = room; bounded = omega arith }
    where
      size : length (overwrite b.buffer cheap_prepend (content b)) ≡ length b.buffer
      size = length-overwrite b.buffer cheap_prepend (content b)

      valid : IsValid (shifted b)
      valid = record {
        prepend = omega arith;
        order = omega arith;
        inside = omega (arith, size);
        small = omega (arith, size);
      }

      count : readable_bytes (shifted b) ≡ length (content b)
      count = omega (arith, length-content v, readable_lem v)

      same : content (shifted b) ≡ content b
      same = rw count (
          slice-overwrite_self b.buffer cheap_prepend (content b)
            (omega (arith, length-content v, readable_lem v)))

      room :
          cheap_prepend + (b.writer_index - b.reader_index) + len
          ≤ length (overwrite b.buffer cheap_prepend (content b))
      room = omega (arith, size, writeable_lem v)

  make_space-Roomy : writeable_bytes b < len → Roomy b len (make_space b len)
  make_space-Roomy h =
      elim (Bool-cases (ltb (writeable_bytes b + prependable_bytes b) (len + cheap_prepend))) [
        | inl e ↦
            rw (make_space-grown (ltb→lt _ _ e)) (grown-Roomy (omega (arith, writeable_lem v)))
        | inr e ↦ rw (make_space-shifted (ground arith)) (shifted-Roomy (ground arith))
      ]

  ensure_writeable_bytes-Roomy : Roomy b len (ensure_writeable_bytes b len)
  unfolding ensure_writeable_bytes
  ensure_writeable_bytes-Roomy = elim (Bool-cases (ltb (writeable_bytes b) len)) [
    | inl e ↦ rw e (make_space-Roomy (ltb→lt _ _ e))
    | inr e ↦ rw e (record {
      valid = v;
      same = refl;
      room = omega (arith, writeable_lem v, not_ltb→le _ _ e);
      bounded = omega arith;
    })
  ]

pub put-IsValid :
    {b : Buffer} (bytes : List ℕ)
    → IsValid b
    → b.writer_index + length bytes ≤ length b.buffer
    → IsValid (put b bytes)
unfolding put
put-IsValid {b} bytes v room = record {
  prepend = v.prepend;
  order = omega (arith, v.order, v.inside, v.small);
  inside = omega (arith, length-overwrite b.buffer b.writer_index bytes, v.small);
  small = omega (arith, length-overwrite b.buffer b.writer_index bytes, v.small);
}

pub content-put :
    {b : Buffer} (bytes : List ℕ)
    → IsValid b
    → b.writer_index + length bytes ≤ length b.buffer
    → content (put b bytes) ≡ content b ++ bytes
unfolding put
content-put {b} bytes v room =
    ap (λ n. slice b.reader_index n (overwrite b.buffer b.writer_index bytes)) count
    ∙ slice-add b.reader_index (readable_bytes b) (length bytes)
        (overwrite b.buffer b.writer_index bytes)
    ∙ ap₂ ◌++◌ before after
  where
    count : readable_bytes (put b bytes) ≡ readable_bytes b + length bytes
    count = omega (arith, v.order, v.inside, v.small)

    before :
        slice b.reader_index (readable_bytes b) (overwrite b.buffer b.writer_index bytes)
        ≡ content b
    before =
        slice-overwrite_before b.reader_index (readable_bytes b) b.buffer b.writer_index bytes
          (omega (arith, readable_lem v, v.order))

    after :
        slice
          (b.reader_index + readable_bytes b)
          (length bytes)
          (overwrite b.buffer b.writer_index bytes)
        ≡ bytes
    after =
        rw
          (let e : b.reader_index + readable_bytes b ≡ b.writer_index =
              omega (arith, readable_lem v, v.order) in
            e)
          (slice-overwrite_self b.buffer b.writer_index bytes room)

-- `append` keeps the invariant and adds exactly the bytes given at the end of the readable ones,
-- in order, if the storage can grow that far, whether the room is there, is found by moving the
-- readable bytes down, or comes from growing the storage.
pub append_lem :
    {b : Buffer} (bytes : List ℕ)
    → IsValid b
    → b.writer_index + length bytes ≤ max_size
    → IsValid (append b bytes) × (content (append b bytes) ≡ content b ++ bytes)
unfolding append
append_lem {b} bytes v fits =
    let r = ensure_writeable_bytes-Roomy v (length bytes) fits in
    (
      put-IsValid bytes r.valid r.room,
      content-put bytes r.valid r.room ∙ ap (λ xs. xs ++ bytes) r.same,
    )

retrieve-partial :
    {b : Buffer} (n : ℕ)
    → IsValid b
    → n < readable_bytes b
    → content (retrieve b n) ≡ drop n (content b)
unfolding retrieve
retrieve-partial {b} n v h = rw (lt→ltb n (readable_bytes b) h) (
    ap₂ (λ i k. slice i k b.buffer) start count
    ∙ sym (drop-slice n b.reader_index (readable_bytes b) b.buffer (omega arith)))
  where
    start : add64 b.reader_index n ≡ b.reader_index + n
    start = omega (arith, readable_lem v, v.order, v.inside, v.small)

    count : sub64 b.writer_index (add64 b.reader_index n) ≡ readable_bytes b - n
    count = omega (arith, readable_lem v, v.order, v.inside, v.small, start)

retrieve-whole :
    {b : Buffer} (n : ℕ)
    → IsValid b
    → readable_bytes b ≤ n
    → content (retrieve b n) ≡ drop n (content b)
unfolding retrieve
retrieve-whole {b} n v h =
    rw (le→ltb n (readable_bytes b) h)
      (sym (drop_all n (content b) (omega (arith, length-content v))))

-- `retrieve(n)` keeps the invariant and drops the first `n` readable bytes, all of them if there
-- are no more than `n`.
pub retrieve_lem :
    {b : Buffer} (n : ℕ)
    → IsValid b
    → IsValid (retrieve b n) × (content (retrieve b n) ≡ drop n (content b))
retrieve_lem {b} n v = (
  retrieve-IsValid n v,
  elim (Bool-cases (ltb n (readable_bytes b))) [
    | inl e ↦ retrieve-partial n v (ltb→lt _ _ e)
    | inr e ↦ retrieve-whole n v (not_ltb→le _ _ e)
  ],
)

-- `retrieveAllAsString(n)` of a buffer with at least `n` readable bytes gives the first `n` of them
-- and leaves the others.
pub retrieve_as_string_lem :
    {b : Buffer} (n : ℕ)
    → IsValid b
    → n ≤ readable_bytes b
    → ((retrieve_as_string b n).0 ≡ take n (content b))
      × (content (retrieve_as_string b n).1 ≡ drop n (content b))
      × IsValid (retrieve_as_string b n).1
unfolding retrieve_as_string
retrieve_as_string_lem {b} n v h = (
  sym (take-take n (readable_bytes b) (drop b.reader_index b.buffer) h),
  (retrieve_lem n v).1,
  retrieve-IsValid n v,
)
