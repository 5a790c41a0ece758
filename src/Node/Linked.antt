-- ===== src/Node/Linked.antt =====
-- What links the objects of a node: handles, connections, the lists of peers, and the store.
use peerboot_cpp.Prelude.{
  ℕ, zero, suc, ◌+◌, ◌<◌, ◌≡◌, ◌≢◌, refl, ap, sym, ◌∙◌, ◌⊎◌, inl, inr, Bool, true, false, Option,
  none, some, List, [], ◌∷◌, ◌++◌, arith, get_elem?, set, observe-set, length, All, All-map,
}
use peerboot_cpp.Text.{Str}
use peerboot_cpp.Store.WellFormed.{IsWellFormed}
use peerboot_cpp.World.{World, Client, Direction, PeerWithId, incoming, outgoing, handle}
use peerboot_cpp.PeboNet.Sends.{stream_handle}

abbrev pub is_outgoing : Direction → Bool
is_outgoing incoming = false
is_outgoing (outgoing host port) = true

-- The handle of a connection's stream, if it has one.
abbrev pub stream_of : Option Client → Option ℕ
stream_of none = none
stream_of (some c) = stream_handle c.stream

abbrev pub stream_at : List Client → ℕ → Option ℕ
stream_at cs i = stream_of (get_elem? cs i)

-- The address and the kind of a connection.
abbrev pub link_of : Option Client → Option (Str × Bool)
link_of none = none
link_of (some c) = some (c.node_addr, is_outgoing c.direction)

-- An entry of a list of peers stands for a connection with its address, of the list's kind.
abbrev pub Links : Bool → List Client → PeerWithId → Type 0
Links out cs p = link_of (get_elem? cs p.peer) ≡ some (p.node_addr, out)

-- The handles of the connections were made by the program, and no two connections share one; the
-- entries of the lists of peers stand for connections; the store is well-formed.
pub record IsLinked (w : World) : Type 0 where
  pub fresh : (i h : ℕ) → stream_at w.clients i ≡ some h → h < w.next_handle
  pub apart : (i j h : ℕ) → stream_at w.clients i ≡ some h → stream_at w.clients j ≡ some h → i ≡ j
  pub outs : All (Links true w.clients) w.net.peers_out
  pub ins : All (Links false w.clients) w.net.peers_in
  pub filed : IsWellFormed w.net.store

-- Reading a connection after another was written in its place.
link-set :
    (cs : List Client) (i j : ℕ) (c c' : Client)
    → get_elem? cs i ≡ some c
    → link_of (some c') ≡ link_of (some c)
    → link_of (get_elem? (set cs i c') j) ≡ link_of (get_elem? cs j)
link-set cs i j c c' h e = observe-set link_of cs i j c' c h e

stream_at-set :
    (cs : List Client) (i j h : ℕ) (c' : Client)
    → stream_at (set cs i c') j ≡ some h
    → ((j ≡ i) × (stream_handle c'.stream ≡ some h)) ⊎ ((j ≢ i) × (stream_at cs j ≡ some h))
stream_at-set [] i j h c' e = cc
stream_at-set (x ∷ cs) zero zero h c' e = inl (refl, e)
stream_at-set (x ∷ cs) zero (suc j) h c' e = inr ((λ p. cc), e)
stream_at-set (x ∷ cs) (suc i) zero h c' e = inr ((λ p. cc), e)
stream_at-set (x ∷ cs) (suc i) (suc j) h c' e = elim (stream_at-set cs i j h c' e) [
  | inl (p, s) ↦ inl (ap suc p, s)
  | inr (n, s) ↦ inr ((λ p. n (omega arith)), s)
]

stream_at-append :
    (cs : List Client) (j h : ℕ) (c : Client)
    → stream_at (cs ++ c ∷ []) j ≡ some h
    → ((j ≡ length cs) × (stream_handle c.stream ≡ some h))
      ⊎ ((j < length cs) × (stream_at cs j ≡ some h))
stream_at-append [] zero h c e = inl (refl, e)
stream_at-append [] (suc j) h c e = cc
stream_at-append (x ∷ cs) zero h c e = inr (omega arith, e)
stream_at-append (x ∷ cs) (suc j) h c e = elim (stream_at-append cs j h c e) [
  | inl (p, s) ↦ inl (ap suc p, s)
  | inr (lt, s) ↦ inr (omega arith, s)
]

link-append :
    (cs : List Client) (j : ℕ) (c : Client) (l : Str × Bool)
    → link_of (get_elem? cs j) ≡ some l
    → link_of (get_elem? (cs ++ c ∷ []) j) ≡ some l
link-append [] j c l e = cc
link-append (x ∷ cs) zero c l e = e
link-append (x ∷ cs) (suc j) c l e = link-append cs j c l e

pub link_last :
    (cs : List Client) (c : Client)
    → link_of (get_elem? (cs ++ c ∷ []) (length cs)) ≡ link_of (some c)
link_last [] c = refl
link_last (x ∷ cs) c = link_last cs c

-- A connection that keeps its address and its kind, and gains no handle.
pub put_IsLinked :
    (w : World) (i : ℕ) (c c' : Client)
    → get_elem? w.clients i ≡ some c
    → link_of (some c') ≡ link_of (some c)
    → ((h : ℕ) → stream_handle c'.stream ≡ some h → stream_handle c.stream ≡ some h)
    → IsLinked w
    → IsLinked (record w { clients = set w.clients i c' })
put_IsLinked w i c c' here same less l = record {
  fresh = λ j h e. l.fresh j h (before j h e);
  apart = λ j k h e f. l.apart j k h (before j h e) (before k h f);
  outs = All-map _ _ w.net.peers_out (λ p e. link-set w.clients i p.peer c c' here same ∙ e) l.outs;
  ins = All-map _ _ w.net.peers_in (λ p e. link-set w.clients i p.peer c c' here same ∙ e) l.ins;
  filed = l.filed;
}
  where
    before : (j h : ℕ) → stream_at (set w.clients i c') j ≡ some h → stream_at w.clients j ≡ some h
    before j h e = elim (stream_at-set w.clients i j h c' e) [
      | inl (p, s) ↦ rw (p, here) (less h s)
      | inr (n, s) ↦ s
    ]

-- A connection that gets a new handle.
pub put-fresh_IsLinked :
    (w : World) (i : ℕ) (c c' : Client)
    → get_elem? w.clients i ≡ some c
    → link_of (some c') ≡ link_of (some c)
    → c'.stream ≡ handle w.next_handle
    → IsLinked w
    → IsLinked (record w { clients = set w.clients i c'; next_handle = w.next_handle + 1 })
put-fresh_IsLinked w i c c' here same own l = record {
  fresh = λ j h e. elim (split j h e) [
    | inl (p, q) ↦ omega arith
    | inr (n, s) ↦ omega (arith, l.fresh j h s)
  ];
  apart = λ j k h e f. together j k h (split j h e) (split k h f);
  outs = All-map _ _ w.net.peers_out (λ p e. link-set w.clients i p.peer c c' here same ∙ e) l.outs;
  ins = All-map _ _ w.net.peers_in (λ p e. link-set w.clients i p.peer c c' here same ∙ e) l.ins;
  filed = l.filed;
}
  where
    split :
        (j h : ℕ)
        → stream_at (set w.clients i c') j ≡ some h
        → ((j ≡ i) × (h ≡ w.next_handle)) ⊎ ((j ≢ i) × (stream_at w.clients j ≡ some h))
    split j h e = elim (stream_at-set w.clients i j h c' e) [
      | inl (p, s) ↦ inl (p, ground (arith, own))
      | inr r ↦ inr r
    ]

    together :
        (j k h : ℕ)
        → ((j ≡ i) × (h ≡ w.next_handle)) ⊎ ((j ≢ i) × (stream_at w.clients j ≡ some h))
        → ((k ≡ i) × (h ≡ w.next_handle)) ⊎ ((k ≢ i) × (stream_at w.clients k ≡ some h))
        → j ≡ k
    together j k h (inl (p, q)) (inl (r, s)) = p ∙ sym r
    together j k h (inl (p, q)) (inr (n, s)) = absurd (omega (arith, l.fresh k h s))
    together j k h (inr (n, s)) (inl (p, q)) = absurd (omega (arith, l.fresh j h s))
    together j k h (inr (n, s)) (inr (m, t)) = l.apart j k h s t

-- A new connection, whose handle, if it has one, belongs to no other.
pub append_IsLinked :
    (w : World) (c : Client)
    → ((h : ℕ)
        → stream_handle c.stream ≡ some h
        → (h < w.next_handle) × ((j : ℕ) → stream_at w.clients j ≢ some h))
    → IsLinked w
    → IsLinked (record w { clients = w.clients ++ c ∷ [] })
append_IsLinked w c own l = record {
  fresh = λ j h e. elim (stream_at-append w.clients j h c e) [
    | inl (p, s) ↦ (own h s).0
    | inr (lt, s) ↦ l.fresh j h s
  ];
  apart = λ j k h e f.
      together j k h (stream_at-append w.clients j h c e) (stream_at-append w.clients k h c f);
  outs = All-map _ _ w.net.peers_out (λ p e. link-append w.clients p.peer c _ e) l.outs;
  ins = All-map _ _ w.net.peers_in (λ p e. link-append w.clients p.peer c _ e) l.ins;
  filed = l.filed;
}
  where
    together :
        (j k h : ℕ)
        → ((j ≡ length w.clients) × (stream_handle c.stream ≡ some h))
          ⊎ ((j < length w.clients) × (stream_at w.clients j ≡ some h))
        → ((k ≡ length w.clients) × (stream_handle c.stream ≡ some h))
          ⊎ ((k < length w.clients) × (stream_at w.clients k ≡ some h))
        → j ≡ k
    together j k h (inl (p, q)) (inl (r, s)) = p ∙ sym r
    together j k h (inl (p, q)) (inr (n, s)) = absurd ((own h q).1 k s)
    together j k h (inr (n, s)) (inl (p, q)) = absurd ((own h q).1 j s)
    together j k h (inr (n, s)) (inr (m, t)) = l.apart j k h s t
