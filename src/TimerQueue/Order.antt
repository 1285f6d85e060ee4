-- ===== src/TimerQueue/Order.antt =====
-- TimerQueue.cc: the set of entries stays in order, and `insert` knows when a new timer comes first.
use vortex_net.Base.{
  ℕ, ◌≡◌, refl, inl, inr, Bool, true, false, ◌||◌, List, [], ◌∷◌, some, arith, if◌then◌else◌,
  Bool-cases,
}
use vortex_net.TimerQueue.{
  Timer, Entry, TimerQueue, entry_lt, entry_eq, insert_entry, erase_entry, insert, is_earliest,
  first_time,
}

-- Every entry of the list comes after `e`.
abbrev pub Above : Entry → List Entry → Type 0
Above e [] = Unit
Above e (x ∷ xs) = (entry_lt e x ≡ true) × Above e xs

abbrev pub IsSorted : List Entry → Type 0
IsSorted [] = Unit
IsSorted (x ∷ xs) = Above x xs × IsSorted xs

pub lt_trans : (a b c : Entry) → entry_lt a b ≡ true → entry_lt b c ≡ true → entry_lt a c ≡ true
lt_trans a b c h k = ground arith

pub Above-mono : (a b : Entry) (xs : List Entry) → entry_lt a b ≡ true → Above b xs → Above a xs
Above-mono a b [] h k = tt
Above-mono a b (x ∷ xs) h k = (lt_trans a b x h k.0, Above-mono a b xs h k.1)

Above-insert_entry :
    (a e : Entry) (xs : List Entry) → entry_lt a e ≡ true → Above a xs → Above a (insert_entry e xs)
unfolding insert_entry
Above-insert_entry a e [] h k = (h, tt)
Above-insert_entry a e (x ∷ xs) h k = ground (arith, Above-insert_entry a e xs h k.1)

pub insert_entry-IsSorted :
    (e : Entry) (xs : List Entry) → IsSorted xs → IsSorted (insert_entry e xs)
unfolding insert_entry
insert_entry-IsSorted e [] s = (tt, tt)
insert_entry-IsSorted e (x ∷ xs) s = elim (Bool-cases (entry_lt e x)) [
  | inl h ↦ rw h ((h, Above-mono e x xs h s.0), s)
  | inr h ↦ elim (Bool-cases (entry_lt x e)) [
    | inl k ↦ rw (h, k) (Above-insert_entry x e xs k s.0, insert_entry-IsSorted e xs s.1)
    | inr k ↦ rw (h, k) s
  ]
]

first_time-insert_entry :
    (e : Entry) (xs : List Entry)
    → first_time (insert_entry e xs)
      ≡ (if is_earliest e.time xs then some e.time else first_time xs)
unfolding insert_entry
first_time-insert_entry e [] = refl
first_time-insert_entry e (x ∷ xs) = ground arith

-- `insert` keeps the entries in order and answers whether the new timer is the earliest: if so its
-- time is the first of the set, and if not the first time stays what it was.
pub insert_lem :
    (q : TimerQueue) (p : ℕ) (t : Timer)
    → IsSorted q.timers
    → let (q', earliest) = insert q p t in
      IsSorted q'.timers
      × (first_time q'.timers ≡ (if earliest then some t.expiration else first_time q.timers))
unfolding insert
insert_lem q p t s = (
  insert_entry-IsSorted (record { time = t.expiration; timer = p }) q.timers s,
  first_time-insert_entry (record { time = t.expiration; timer = p }) q.timers,
)

Above-erase_entry : (a e : Entry) (xs : List Entry) → Above a xs → Above a (erase_entry e xs)
unfolding erase_entry
Above-erase_entry a e [] h = tt
Above-erase_entry a e (x ∷ xs) h = ground (arith, Above-erase_entry a e xs h.1)

pub erase_entry-IsSorted : (e : Entry) (xs : List Entry) → IsSorted xs → IsSorted (erase_entry e xs)
unfolding erase_entry
erase_entry-IsSorted e [] s = tt
erase_entry-IsSorted e (x ∷ xs) s =
    ground (arith, erase_entry-IsSorted e xs s.1, Above-erase_entry x e xs s.0)

unfoldable pub has_entry : Entry → List Entry → Bool
has_entry e [] = false
has_entry e (x ∷ xs) = entry_eq x e || has_entry e xs

has_entry-Above :
    (a e : Entry) (xs : List Entry) → entry_eq a e ≡ true → Above a xs → has_entry e xs ≡ false
unfolding has_entry
has_entry-Above a e [] h k = refl
has_entry-Above a e (x ∷ xs) h k = ground (arith, has_entry-Above a e xs h k.1)

-- Erasing takes out the one entry and keeps every other.
pub has_entry-erase_entry :
    (f e : Entry) (xs : List Entry)
    → IsSorted xs
    → has_entry f (erase_entry e xs) ≡ (if entry_eq e f then false else has_entry f xs)
unfolding erase_entry has_entry
has_entry-erase_entry f e [] s = ground arith
has_entry-erase_entry f e (x ∷ xs) s =
    ground (arith, has_entry-erase_entry f e xs s.1, has_entry-Above x f xs)
