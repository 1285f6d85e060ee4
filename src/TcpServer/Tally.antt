-- ===== src/TcpServer/Tally.antt =====
-- TcpServer.cc: every connection is established once, and destroyed once when it is gone.
use vortex_net.Base.{
  ℕ, suc, ◌+◌, ◌≤◌, ◌<◌, ◌≡◌, refl, sym, subst, ◌∙◌, inl, inr, Bool, true, false, List, [], ◌∷◌,
  Option, none, some, arith, ◌==◌, ==_iff, Bool-cases, if◌then◌else◌,
}
use vortex_net.EventLoopThreadPool.{EventLoopThreadPool}
use vortex_net.TcpServer.{
  Connection, Functor, establish, destroy, TcpServer, new, start, new_connection, handle_read,
  erase, remove_connection_in_loop, destroy_all, destruct,
}

-- How many connections of that number are in the map, and how many functors establish or destroy one.
abbrev pub live : ℕ → List Connection → ℕ
live x [] = 0
live x (c ∷ cs) = if x == c.id then suc (live x cs) else live x cs

abbrev pub established : ℕ → List Functor → ℕ
established x [] = 0
established x (establish c ∷ fs) = if x == c.id then suc (established x fs) else established x fs
established x (destroy c ∷ fs) = established x fs

abbrev pub destroyed : ℕ → List Functor → ℕ
destroyed x [] = 0
destroyed x (establish c ∷ fs) = destroyed x fs
destroyed x (destroy c ∷ fs) = if x == c.id then suc (destroyed x fs) else destroyed x fs

-- What a server can come to: sockets are accepted, and a connection that is in the map is removed, once, when it
-- is closed.
pub data Reach : TcpServer → Type 0 where
  begins : (pool : EventLoopThreadPool) → Reach (new pool)
  starts : {s : TcpServer} → Reach s → (given : List ℕ) → Reach (start s given)
  accepts :
      {s : TcpServer}
      → Reach s
      → (has_callback : Bool) (fd : Option ℕ) → Reach (handle_read has_callback s fd)
  removes :
      {s : TcpServer}
      → Reach s
      → (conn : Connection) → 0 < live conn.id s.connections
      → Reach (remove_connection_in_loop s conn)

pub record Inv (s : TcpServer) : Type 0 where
  pub tally : (x : ℕ) → established x s.functors ≡ live x s.connections + destroyed x s.functors
  pub once : (x : ℕ) → established x s.functors ≤ 1
  pub numbered : (x : ℕ) → s.next_conn_id ≤ x → established x s.functors ≡ 0

live-erase_same : (x : ℕ) (cs : List Connection) → live x (erase x cs) ≡ 0
unfolding erase
live-erase_same x [] = refl
live-erase_same x (c ∷ cs) = ground (arith, live-erase_same x cs)

live-erase_other :
    (x y : ℕ) (cs : List Connection) → (x == y) ≡ false → live x (erase y cs) ≡ live x cs
unfolding erase
live-erase_other x y [] e = refl
live-erase_other x y (c ∷ cs) e = ground (arith, live-erase_other x y cs e, e)

new_connection-Inv : (s : TcpServer) (fd : ℕ) → Inv s → Inv (new_connection s fd)
unfolding new_connection
new_connection-Inv s fd i = record {
  tally = λ x. ground (arith, i.tally x);
  once = λ x. ground (arith, i.once x, i.numbered x);
  numbered = λ x h. ground (arith, i.numbered x, h);
}

remove-Inv :
    (s : TcpServer) (conn : Connection)
    → 0 < live conn.id s.connections
    → Inv s
    → Inv (remove_connection_in_loop s conn)
unfolding remove_connection_in_loop
remove-Inv s conn h i = record {
  tally = λ x. elim (Bool-cases (x == conn.id)) [
    | inr e ↦ ground (arith, i.tally x, live-erase_other x conn.id s.connections e, e)
    | inl e ↦
        let same : conn.id ≡ x = sym ((==_iff x conn.id).0 e) in
        let here : 0 < live x s.connections = subst (λ y. 0 < live y s.connections) same h in
        let gone : live x (erase conn.id s.connections) ≡ 0 =
          subst (λ y. live x (erase y s.connections) ≡ 0) (sym same)
            (live-erase_same x s.connections) in
        ground (arith, i.tally x, i.once x, here, gone, e)
  ];
  once = i.once;
  numbered = i.numbered;
}

Reach-Inv : {s : TcpServer} → Reach s → Inv s
unfolding start handle_read
Reach-Inv (begins pool) = record {
  tally = λ x. omega arith;
  once = λ x. omega arith;
  numbered = λ x h. refl;
}
Reach-Inv (starts {s} r given) =
    let i = Reach-Inv r in record { tally = i.tally; once = i.once; numbered = i.numbered }
Reach-Inv (accepts {s} r b none) = Reach-Inv r
Reach-Inv (accepts {s} r true (some fd)) = new_connection-Inv s fd (Reach-Inv r)
Reach-Inv (accepts {s} r false (some fd)) =
    let i = Reach-Inv r in record { tally = i.tally; once = i.once; numbered = i.numbered }
Reach-Inv (removes {s} r conn h) = remove-Inv s conn h (Reach-Inv r)

destroyed-destroy_all :
    (x : ℕ) (cs : List Connection) (fs : List Functor)
    → (destroyed x (destroy_all cs fs) ≡ live x cs + destroyed x fs)
      × (established x (destroy_all cs fs) ≡ established x fs)
unfolding destroy_all
destroyed-destroy_all x [] fs = (omega arith, refl)
destroyed-destroy_all x (c ∷ cs) fs =
    let (d, e) = destroyed-destroy_all x cs (destroy c ∷ fs) in (ground (arith, d), e)

-- In whatever state a server can come to, if a connection that is removed is in the map: no number is
-- established twice; a connection that was established is either in the map, once, and not destroyed, or
-- destroyed, once, and no longer there; and when the server goes each connection is destroyed exactly as often
-- as it was established.
pub Reach-Tally :
    (s : TcpServer)
    → Reach s
    → (x : ℕ)
    → (established x s.functors ≤ 1)
      × (established x s.functors ≡ live x s.connections + destroyed x s.functors)
      × (destroyed x (destruct s).functors ≡ established x (destruct s).functors)
unfolding destruct
Reach-Tally s r x =
    let i = Reach-Inv r in
    let (d, e) = destroyed-destroy_all x s.connections s.functors in
    (i.once x, i.tally x, d ∙ sym (i.tally x) ∙ sym e)
