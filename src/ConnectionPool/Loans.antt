-- ===== src/ConnectionPool/Loans.antt =====
-- ConnecitonPool.cc: a backend that is handed out is handed to one client only.
use vortex_net.Base.{
  ℕ, ◌+◌, ◌≤◌, ◌<◌, ◌≡◌, refl, sym, subst, ◌∙◌, ap, ◌⊎◌, inl, inr, true, false, List, [], ◌∷◌, ◌++◌,
  Option, some, arith, ltb, ◌==◌, ==_iff, Bool-cases, Option-cases, if◌then◌else◌, length,
  length-append,
}
use vortex_net.ApiKeyAuth.{Str, str_eq}
use vortex_net.ApiKeyAuth.Keys.{eq_of_str_eq}
use vortex_net.RemoteClient.{RemoteClient, set_busy, unbind, clear_pending_buffer, force_close}
use vortex_net.Connector.Descriptors.{count}
use vortex_net.ConnectionPool.{
  ConnectionPool, max_conns, set_client, set_idle, with_client, pop_back, split_target, take_idle,
  make_client, borrow_connection, return_connection, on_error,
}
use vortex_net.ConnectionPool.Idle.{
  Inv, count-append, pop_back-append, shrink-Inv, on_error-Inv, with_client-Inv, take_idle-Inv,
  make_client-Inv, unused,
}

busy_absent :
    (p : ConnectionPool) (r : ℕ)
    → Inv p
    → (p.clients r).is_busy ≡ true
    → (t : Str) → count r (p.idle_map t) ≡ 0
busy_absent p r i b t = elim (Bool-cases (ltb 0 (count r (p.idle_map t)))) [
  | inr z ↦ ground (arith, z)
  | inl z ↦ absurd (cc (b, (i.free t r (ground (arith, z))).0))
]

module _ (p : ConnectionPool) (k : Str) (r : ℕ) (i : Inv p) (made : r < p.next)
    (busy : (p.clients r).is_busy ≡ true) where
  abbrev back : Str → List ℕ
  back = set_idle p.idle_map k (p.idle_map k ++ r ∷ [])

  same_key : (t : Str) → str_eq k t ≡ true → p.idle_map t ≡ p.idle_map k
  same_key t e = ap p.idle_map (sym (eq_of_str_eq k t e))

  -- Nothing but r is added, and r only under its key.
  back-other : (t : Str) (x : ℕ) → (r == x) ≡ false → count x (back t) ≡ count x (p.idle_map t)
  unfolding set_idle
  back-other t x n = elim (Bool-cases (str_eq k t)) [
    | inr e ↦ rw e
    | inl e ↦ rw (e, same_key t e) (ground (arith, count-append x (p.idle_map k) (r ∷ []), n))
  ]

  back-here : (t : Str) → count r (back t) ≡ (if str_eq k t then 1 else 0)
  unfolding set_idle
  back-here t = elim (Bool-cases (str_eq k t)) [
    | inr e ↦ rw e (busy_absent p r i busy t)
    | inl e ↦
        rw e (ground (arith, count-append r (p.idle_map k) (r ∷ []), busy_absent p r i busy k))
  ]

  key_of : (t : Str) → 0 < count r (back t) → k ≡ t
  key_of t h = elim (Bool-cases (str_eq k t)) [
    | inl e ↦ eq_of_str_eq k t e
    | inr e ↦ absurd (omega (arith, h, rw e at (back-here t)))
  ]

  freed :
      (v : RemoteClient)
      → v.is_busy ≡ false
      → (x : ℕ) → (p.clients x).is_busy ≡ false
      → (set_client p.clients r v x).is_busy ≡ false
  unfolding set_client
  freed v free x b = elim (Bool-cases (r == x)) [ inl e ↦ rw e free | inr e ↦ rw e b ]

  back-Bound : length (p.idle_map k) < max_conns → (t : Str) → length (back t) ≤ max_conns
  unfolding set_idle
  back-Bound room t = elim (Bool-cases (str_eq k t)) [
    | inr e ↦ rw e (i.bound t)
    | inl e ↦ rw e (omega (arith, room, length-append (p.idle_map k) (r ∷ [])))
  ]

  back_once : (t : Str) → count r (back t) ≤ 1
  back_once t = elim (Bool-cases (str_eq k t)) [
    | inl e ↦ omega (arith, rw e at (back-here t))
    | inr e ↦ omega (arith, rw e at (back-here t))
  ]

  back-Inv :
      (v : RemoteClient)
      → v.is_busy ≡ false
      → length (p.idle_map k) < max_conns
      → Inv (record p { clients = set_client p.clients r v; idle_map = back })
  unfolding set_client
  back-Inv v free room = record {
    bound = back-Bound room;
    free = λ t x h. elim (Bool-cases (r == x)) [
      | inl e ↦ let s : r ≡ x = (==_iff r x).0 e in (rw e free, subst (λ y. y < p.next) s made)
      | inr e ↦ let (b, l) = i.free t x (rw (back-other t x e) at h) in (freed v free x b, l)
    ];
    once = λ t x. elim (Bool-cases (r == x)) [
      | inl e ↦ subst (λ y. count y (back t) ≤ 1) ((==_iff r x).0 e) (back_once t)
      | inr e ↦ rw (back-other t x e) (i.once t x)
    ];
    apart = λ t u x h l. elim (Bool-cases (r == x)) [
      | inl e ↦
          let s : x ≡ r = sym ((==_iff r x).0 e) in
          sym (key_of t (subst (λ y. 0 < count y (back t)) s h))
          ∙ key_of u (subst (λ y. 0 < count y (back u)) s l)
      | inr e ↦ i.apart t u x (rw (back-other t x e) at h) (rw (back-other u x e) at l)
    ];
  }

  return_connection-Inv : Inv (return_connection p k r)
  unfolding return_connection
  return_connection-Inv = elim (Bool-cases (ltb (length (p.idle_map k)) max_conns)) [
    | inl e ↦ rw e (
        back-Inv (clear_pending_buffer (set_busy (unbind (p.clients r)) false)) refl
          (ground (arith, e)))
    | inr e ↦ rw e (
        shrink-Inv p
          (with_client p r
            (force_close (clear_pending_buffer (set_busy (unbind (p.clients r)) false))))
          i (λ t x. omega arith) (λ t. omega arith)
          (λ t x h b.
            freed (force_close (clear_pending_buffer (set_busy (unbind (p.clients r)) false))) refl
              x b)
          (omega arith))
  ]

-- What a pool can come to. Any client may change, if it stays as busy as it is; a client that is given
-- back is busy, which `RemoteClient::onMessage` asks.
pub data Reach : ConnectionPool → Type 0 where
  fresh :
      (clients : ℕ → RemoteClient)
      → Reach (record { clients = clients; next = 0; idle_map = λ t. [] })
  borrows :
      {p q : ConnectionPool}
      → Reach p
      → (stoi : Str → Option ℕ) (t : Str) (r : ℕ) → borrow_connection stoi p t ≡ some (r, q)
      → Reach q
  returns :
      {p : ConnectionPool}
      → Reach p
      → (t : Str) (r : ℕ) → r < p.next
      → (p.clients r).is_busy ≡ true
      → Reach (return_connection p t r)
  fails : {p : ConnectionPool} → Reach p → (t : Str) (r : ℕ) → Reach (on_error p t r)
  changes :
      {p : ConnectionPool}
      → Reach p
      → (r : ℕ) (v : RemoteClient) → v.is_busy ≡ (p.clients r).is_busy
      → Reach (with_client p r v)

-- The backend r was handed out of p, and is the client's alone in q.
pub record Lent (p q : ConnectionPool) (r : ℕ) : Type 0 where
  pub unclaimed : (r ≡ p.next) ⊎ ((p.clients r).is_busy ≡ false)
  pub busy : (q.clients r).is_busy ≡ true
  pub away : (t : Str) → count r (q.idle_map t) ≡ 0

abbrev Outcome : ConnectionPool → ℕ × ConnectionPool → Type 0
Outcome p (r, q) = Inv q × Lent p q r

take_idle-Outcome :
    (p : ConnectionPool) (t : Str) (front : List ℕ) (r : ℕ)
    → Inv p
    → pop_back (p.idle_map t) ≡ some (front, r)
    → Outcome p (r, take_idle p t front r)
unfolding set_client
take_idle-Outcome p t front r i f =
    let e = pop_back-append (p.idle_map t) front r f in
    let (inv, away) = take_idle-Inv p t front r i e in
    let here : count r (p.idle_map t) ≡ count r front + count r (r ∷ []) =
      ap (count r) e ∙ count-append r front (r ∷ []) in
    (
      inv,
      record {
        unclaimed = inr (i.free t r (ground (arith, here))).0;
        busy = rw ((==_iff r r).1 refl) refl;
        away = away;
      },
    )

make_client-Outcome :
    (p : ConnectionPool) (ip : Str) (port : ℕ) → Inv p → Outcome p (p.next, make_client p ip port)
unfolding set_client
make_client-Outcome p ip port i = (
  make_client-Inv p ip port i,
  record {
    unclaimed = inl refl;
    busy = rw ((==_iff p.next p.next).1 refl) refl;
    away = unused p i;
  },
)

borrow_connection-Outcome :
    (stoi : Str → Option ℕ) (p : ConnectionPool) (t : Str) (o : ℕ × ConnectionPool)
    → Inv p
    → borrow_connection stoi p t ≡ some o
    → Outcome p o
unfolding borrow_connection
borrow_connection-Outcome stoi p t o i e = elim (Option-cases (pop_back (p.idle_map t))) [
  | inr ((front, r), f) ↦
      let s : some (r, take_idle p t front r) ≡ some o = rw (f, borrow_connection) at e in
      subst (Outcome p) (cc (s)) (take_idle-Outcome p t front r i f)
  | inl f ↦ elim (Option-cases (split_target stoi t)) [
    | inl g ↦ absurd (cc (rw (f, g, borrow_connection) at e))
    | inr ((ip, port), g) ↦
        let s : some (p.next, make_client p ip port) ≡ some o = rw (f, g, borrow_connection) at e in
        subst (Outcome p) (cc (s)) (make_client-Outcome p ip port i)
  ]
]

Reach-Inv : {p : ConnectionPool} → Reach p → Inv p
Reach-Inv (fresh clients) = record {
  bound = λ t. omega arith;
  free = λ t r h. absurd (omega arith);
  once = λ t r. omega arith;
  apart = λ t u r h k. absurd (omega arith);
}
Reach-Inv (borrows {p} {q} c stoi t r e) =
    (borrow_connection-Outcome stoi p t (r, q) (Reach-Inv c) e).0
Reach-Inv (returns {p} c t r made busy) = return_connection-Inv p t r (Reach-Inv c) made busy
Reach-Inv (fails {p} c t r) = on_error-Inv p t r (Reach-Inv c)
Reach-Inv (changes {p} c r v e) = with_client-Inv p r v e (Reach-Inv c)

-- In whatever state a pool can come to, if a busy backend is all that is ever given back: at most ten
-- backends are idle under an address, and a backend that is handed out is new or was not busy, is busy from
-- then on, and is idle nowhere any more, so that no other client can be handed it.
pub Reach-Lent :
    (stoi : Str → Option ℕ) (p q : ConnectionPool) (t : Str) (r : ℕ)
    → Reach p
    → borrow_connection stoi p t ≡ some (r, q)
    → ((u : Str) → length (p.idle_map u) ≤ max_conns) × Lent p q r
Reach-Lent stoi p q t r c e =
    ((Reach-Inv c).bound, (borrow_connection-Outcome stoi p t (r, q) (Reach-Inv c) e).1)
