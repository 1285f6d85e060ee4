-- ===== src/ConnectionPool/Idle.antt =====
-- ConnecitonPool.cc: which backends are idle.
use vortex_net.Base.{
  ℕ, ◌+◌, ◌≤◌, ◌<◌, ◌≡◌, refl, sym, subst, ◌∙◌, ap, inl, inr, false, List, [], ◌∷◌, ◌++◌, none,
  some, arith, ltb, ◌==◌, ==_iff, Bool-cases, Option-cases, length, length-append,
}
use vortex_net.ApiKeyAuth.{Str, str_eq}
use vortex_net.ApiKeyAuth.Keys.{str_eq_self, eq_of_str_eq}
use vortex_net.RemoteClient.{RemoteClient}
use vortex_net.Connector.Descriptors.{count}
use vortex_net.ConnectionPool.{
  ConnectionPool, max_conns, set_client, set_idle, with_client, pop_back, take_idle, make_client,
  erase, on_error,
}

-- A backend is idle at most once, under one address only, and then it is not busy; at most `max_conns`
-- are idle under an address.
pub record Inv (p : ConnectionPool) : Type 0 where
  pub bound : (t : Str) → length (p.idle_map t) ≤ max_conns
  pub free :
      (t : Str) (r : ℕ)
      → 0 < count r (p.idle_map t)
      → ((p.clients r).is_busy ≡ false) × (r < p.next)
  pub once : (t : Str) (r : ℕ) → count r (p.idle_map t) ≤ 1
  pub apart : (t u : Str) (r : ℕ) → 0 < count r (p.idle_map t) → 0 < count r (p.idle_map u) → t ≡ u

pub count-append : (x : ℕ) (xs ys : List ℕ) → count x (xs ++ ys) ≡ count x xs + count x ys
count-append x [] ys = omega arith
count-append x (y ∷ xs) ys = ground (arith, count-append x xs ys)

pop_back-nil : (xs : List ℕ) → pop_back xs ≡ none → xs ≡ []
unfolding pop_back
pop_back-nil [] e = refl
pop_back-nil (y ∷ ys) e = elim (Option-cases (pop_back ys)) [
  | inl n ↦ absurd (cc (rw n at e))
  | inr (q, s) ↦ absurd (cc (rw s at e))
]

pub pop_back-append :
    (xs front : List ℕ) (r : ℕ) → pop_back xs ≡ some (front, r) → xs ≡ front ++ r ∷ []
unfolding pop_back
pop_back-append [] front r e = absurd (cc)
pop_back-append (y ∷ ys) front r e = elim (Option-cases (pop_back ys)) [
  | inl n ↦ rw (pop_back-nil ys n) (cc (rw n at e))
  | inr ((front', z), s) ↦ rw (pop_back-append ys front' z s) (cc (rw s at e))
]

count-erase : (x r : ℕ) (xs : List ℕ) → count x (erase r xs) ≤ count x xs
unfolding erase
count-erase x r [] = omega arith
count-erase x r (y ∷ ys) = ground (arith, count-erase x r ys)

length-erase : (r : ℕ) (xs : List ℕ) → length (erase r xs) ≤ length xs
unfolding erase
length-erase r [] = omega arith
length-erase r (y ∷ ys) = ground (arith, length-erase r ys)

pub shrink-Inv :
    (p q : ConnectionPool)
    → Inv p
    → ((t : Str) (x : ℕ) → count x (q.idle_map t) ≤ count x (p.idle_map t))
    → ((t : Str) → length (q.idle_map t) ≤ length (p.idle_map t))
    → ((t : Str) (x : ℕ)
        → 0 < count x (q.idle_map t)
        → (p.clients x).is_busy ≡ false
        → (q.clients x).is_busy ≡ false)
    → p.next ≤ q.next
    → Inv q
shrink-Inv p q i c l b n = record {
  bound = λ t. omega (arith, i.bound t, l t);
  free = λ t r h.
      let (z, s) = i.free t r (omega (arith, h, c t r)) in (b t r h z, omega (arith, s, n));
  once = λ t r. omega (arith, i.once t r, c t r);
  apart = λ t u r h k. i.apart t u r (omega (arith, h, c t r)) (omega (arith, k, c u r));
}

set_idle-Shrinks :
    (f : Str → List ℕ) (k : Str) (v : List ℕ)
    → ((x : ℕ) → count x v ≤ count x (f k))
    → length v ≤ length (f k)
    → (t : Str)
    → ((x : ℕ) → count x (set_idle f k v t) ≤ count x (f t))
      × (length (set_idle f k v t) ≤ length (f t))
unfolding set_idle
set_idle-Shrinks f k v c l t = elim (Bool-cases (str_eq k t)) [
  | inr e ↦ rw e (λ x. omega arith, omega arith)
  | inl e ↦ let s = eq_of_str_eq k t e in rw (e, sym s) (c, l)
]

pub on_error-Inv : (p : ConnectionPool) (t : Str) (r : ℕ) → Inv p → Inv (on_error p t r)
unfolding on_error
on_error-Inv p t r i =
    let s =
      set_idle-Shrinks p.idle_map t (erase r (p.idle_map t)) (λ x. count-erase x r (p.idle_map t))
        (length-erase r (p.idle_map t)) in
    shrink-Inv p (on_error p t r) i (λ u x. (s u).0 x) (λ u. (s u).1) (λ u x h b. b) (omega arith)

pub with_client-Inv :
    (p : ConnectionPool) (r : ℕ) (v : RemoteClient)
    → v.is_busy ≡ (p.clients r).is_busy
    → Inv p
    → Inv (with_client p r v)
unfolding set_client
with_client-Inv p r v same i =
    shrink-Inv p (with_client p r v) i (λ u x. omega arith) (λ u. omega arith) free (omega arith)
  where
    free :
        (t : Str) (x : ℕ)
        → 0 < count x (p.idle_map t)
        → (p.clients x).is_busy ≡ false
        → (set_client p.clients r v x).is_busy ≡ false
    free t x h b = elim (Bool-cases (r == x)) [
      | inr e ↦ rw e b
      | inl e ↦ let s = (==_iff r x).0 e in rw e (same ∙ ap (λ y. (p.clients y).is_busy) s ∙ b)
    ]

-- A backend that was at the back of its vector is idle nowhere once it is taken.
gone :
    (p : ConnectionPool) (k : Str) (front : List ℕ) (r : ℕ)
    → Inv p
    → count r (p.idle_map k) ≡ count r front + 1
    → (t : Str) → count r (set_idle p.idle_map k front t) ≡ 0
unfolding set_idle
gone p k front r i here t = elim (Bool-cases (str_eq k t)) [
  | inl s ↦ rw s (omega (arith, here, i.once k r))
  | inr s ↦ rw s (elim (Bool-cases (ltb 0 (count r (p.idle_map t)))) [
    | inr z ↦ ground (arith, z)
    | inl z ↦
        let same : k ≡ t = i.apart k t r (omega (arith, here)) (ground (arith, z)) in
        absurd (cc (s, str_eq_self k, same))
  ])
]

pub take_idle-Inv :
    (p : ConnectionPool) (k : Str) (front : List ℕ) (r : ℕ)
    → Inv p
    → p.idle_map k ≡ front ++ r ∷ []
    → Inv (take_idle p k front r) × ((t : Str) → count r ((take_idle p k front r).idle_map t) ≡ 0)
unfolding set_client
take_idle-Inv p k front r i e =
    let q = take_idle p k front r in
    let counts : (x : ℕ) → count x (p.idle_map k) ≡ count x front + count x (r ∷ []) =
      λ x. ap (count x) e ∙ count-append x front (r ∷ []) in
    let shorter : length front ≤ length (p.idle_map k) =
      rw e (omega (arith, length-append front (r ∷ []))) in
    let s = set_idle-Shrinks p.idle_map k front (λ x. omega (arith, counts x)) shorter in
    let away = gone p k front r i (ground (arith, counts r)) in
    (shrink-Inv p q i (λ t x. (s t).0 x) (λ t. (s t).1) (free away) (omega arith), away)
  where
    free :
        ((t : Str) → count r (set_idle p.idle_map k front t) ≡ 0)
        → (t : Str) (x : ℕ) → 0 < count x (set_idle p.idle_map k front t)
        → (p.clients x).is_busy ≡ false
        → ((take_idle p k front r).clients x).is_busy ≡ false
    free away t x h b = elim (Bool-cases (r == x)) [
      | inr n ↦ rw n b
      | inl n ↦
          let same : r ≡ x = (==_iff r x).0 n in
          absurd (
            omega
              (arith, h, subst (λ y. count y (set_idle p.idle_map k front t) ≡ 0) same (away t)))
    ]

-- A new backend's number is idle nowhere.
pub unused : (p : ConnectionPool) → Inv p → (t : Str) → count p.next (p.idle_map t) ≡ 0
unused p i t = elim (Bool-cases (ltb 0 (count p.next (p.idle_map t)))) [
  | inr z ↦ ground (arith, z)
  | inl z ↦ absurd (omega (arith, (i.free t p.next (ground (arith, z))).1))
]

pub make_client-Inv :
    (p : ConnectionPool) (ip : Str) (port : ℕ) → Inv p → Inv (make_client p ip port)
unfolding set_client
make_client-Inv p ip port i =
    shrink-Inv p (make_client p ip port) i (λ u x. omega arith) (λ u. omega arith) free
      (omega arith)
  where
    free :
        (t : Str) (x : ℕ)
        → 0 < count x (p.idle_map t)
        → (p.clients x).is_busy ≡ false
        → ((make_client p ip port).clients x).is_busy ≡ false
    free t x h b = elim (Bool-cases (p.next == x)) [
      | inr n ↦ rw n b
      | inl n ↦
          let same : p.next ≡ x = (==_iff p.next x).0 n in
          absurd (omega (arith, h, subst (λ y. count y (p.idle_map t) ≡ 0) same (unused p i t)))
    ]
