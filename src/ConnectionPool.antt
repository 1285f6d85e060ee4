-- ===== src/ConnectionPool.antt =====
-- Proxy/src/L7/ConnectionPool.h and ConnecitonPool.cc: the backends of one loop that are idle, by the text of
-- their address. A RemoteClient is a number, and the pool's state holds all that were made, idle or not.
-- `std::stoi` is an argument: the number that it reads, modulo 2^32, or none where it throws.
pub mod Idle
pub mod Loans
mod Tests
use vortex_net.Base.{
  ℕ, zero, suc, ◌%◌, Bool, true, false, List, [], ◌∷◌, ◌++◌, Option, none, some, ltb, ◌==◌, codes,
  if◌then◌else◌, length, u16_mod,
}
use vortex_net.ApiKeyAuth.{Str, str_eq}
use vortex_net.RemoteClient.{RemoteClient, set_busy, unbind, clear_pending_buffer, force_close}
use vortex_net.RemoteClient as Remote

pub record ConnectionPool : Type 0 where
  pub clients : ℕ → RemoteClient
  pub next : ℕ
  -- `idle_map_`; a key that it does not hold counts as one with an empty vector.
  pub idle_map : Str → List ℕ

abbrev pub max_conns : ℕ
max_conns = 10

unfoldable pub set_client : (ℕ → RemoteClient) → ℕ → RemoteClient → ℕ → RemoteClient
set_client f r v j = if r == j then v else f j

unfoldable pub set_idle : (Str → List ℕ) → Str → List ℕ → Str → List ℕ
set_idle f key v j = if str_eq key j then v else f j

abbrev pub with_client : ConnectionPool → ℕ → RemoteClient → ConnectionPool
with_client p r v = record p { clients = set_client p.clients r v }

-- The back of a vector, and the vector without it.
unfoldable pub pop_back : List ℕ → Option (List ℕ × ℕ)
pop_back [] = none
pop_back (x ∷ xs) = elim (pop_back xs) [
  | none ↦ some ([], x)
  | some (front, y) ↦ some (x ∷ front, y)
]

-- The text before and behind the last colon.
unfoldable pub rfind_colon : Str → Option (Str × Str)
rfind_colon [] = none
rfind_colon (c ∷ s) = elim (rfind_colon s) [
  | none ↦ if c == 58 then some ([], s) else none
  | some (ip, port) ↦ some (c ∷ ip, port)
]

-- The IP and the port that are read off a target, or none where `std::stoi` throws.
unfoldable pub split_target : (Str → Option ℕ) → Str → Option (Str × ℕ)
split_target stoi target = elim (rfind_colon target) [
  | none ↦ some (codes "127.0.0.1", 0)
  | some (ip, port) ↦ elim (stoi port) [ none ↦ none | some n ↦ some (ip, n % u16_mod) ]
]

abbrev pub take_idle : ConnectionPool → Str → List ℕ → ℕ → ConnectionPool
take_idle p target front r = record p {
  clients = set_client p.clients r (set_busy (p.clients r) true);
  idle_map = set_idle p.idle_map target front;
}

abbrev pub make_client : ConnectionPool → Str → ℕ → ConnectionPool
make_client p ip port = record p {
  clients = set_client p.clients p.next (set_busy (Remote.new ip port) true);
  next = suc p.next;
}

-- `borrowConnection`.
unfoldable pub borrow_connection :
    (Str → Option ℕ) → ConnectionPool → Str → Option (ℕ × ConnectionPool)
borrow_connection stoi p target = elim (pop_back (p.idle_map target)) [
  | some (front, r) ↦ some (r, take_idle p target front r)
  | none ↦ elim (split_target stoi target) [
    | none ↦ none
    | some (ip, port) ↦ some (p.next, make_client p ip port)
  ]
]

-- `returnConnection`.
unfoldable pub return_connection : ConnectionPool → Str → ℕ → ConnectionPool
return_connection p target r =
    let free = clear_pending_buffer (set_busy (unbind (p.clients r)) false) in
    if ltb (length (p.idle_map target)) max_conns
    then record p {
      clients = set_client p.clients r free;
      idle_map = set_idle p.idle_map target (p.idle_map target ++ r ∷ []);
    }
    else record p { clients = set_client p.clients r (force_close free) }

-- `std::erase`.
unfoldable pub erase : ℕ → List ℕ → List ℕ
erase r [] = []
erase r (x ∷ xs) = let rest = erase r xs in if r == x then rest else x ∷ rest

-- The error callback that a new client is given.
unfoldable pub on_error : ConnectionPool → Str → ℕ → ConnectionPool
on_error p target r = record p {
  idle_map = set_idle p.idle_map target (erase r (p.idle_map target));
}
