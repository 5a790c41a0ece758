-- ===== src/PeboNet/Flood.antt =====
-- What becomes of a flood of updates (src/peerboot/pebo_net.cpp).
use peerboot_cpp.Prelude.{
  ℕ, ◌≡◌, refl, ap, sym, subst, ◌∙◌, Bool, true, false, Option, some, List, [], ◌∷◌, arith,
}
use peerboot_cpp.Text.{Str}
use peerboot_cpp.TimeStamp.{now}
use peerboot_cpp.Store.{StoredPeer, find_peer}
use peerboot_cpp.Store.Lookup.{updated, reported, find_and_update_lem}
use peerboot_cpp.World.{World, Env}
use peerboot_cpp.Machine.{M, pure, ◌>>◌}
use peerboot_cpp.Machine.Keeps.{if_Keeps, done_Keeps, bind-eq-some}
use peerboot_cpp.Message.{PeerUpdateMessage}
use peerboot_cpp.NetClient.Frame.{Frame, Frame-refl}
use peerboot_cpp.PeboNet.{forward, peer_update_from_pebo_peer}
use peerboot_cpp.PeboNet.Updates.{
  is_known, stored, store_after, find_peer-stored, peer_update_cases,
}
use peerboot_cpp.PeboNet.Frame.{forward-Frame}

-- The network of the world after an update is that of `stored`.
pub peer_update-Frame :
    (env : Env) (id : ℕ) (m : PeerUpdateMessage) (w w' : World)
    → peer_update_from_pebo_peer env id m w ≡ some (tt, w')
    → Frame (stored env m w) w'
peer_update-Frame env id m w w' h =
    let v = stored env m w in
    if_Keeps Frame (is_known m.is_removed (find_peer w.net.store m.service m.endpoint)) (pure tt)
      (forward env id m) v (λ _. done_Keeps Frame v v tt (Frame-refl v))
      (λ _. forward-Frame env id m v) tt w' (sym (peer_update_cases env id m w) ∙ h)

-- The node has the peer with the removal flag `b`.
abbrev pub Knows : World → Str → Str → Bool → Type 0
Knows w s e b = is_known b (find_peer w.net.store s e) ≡ true

updated-is_known :
    (t : ℕ) (s e : Str) (b : Bool) (seen : ℕ) (o : Option StoredPeer)
    → is_known b (some (updated t (reported s e b seen) o)) ≡ true
updated-is_known t s e true seen o = ground arith
updated-is_known t s e false seen o = ground arith

store_after-Knows :
    (env : Env) (m : PeerUpdateMessage) (w : World) (s e : Str)
    → Knows w s e m.is_removed
    → is_known m.is_removed (find_peer (store_after env m w) s e) ≡ true
store_after-Knows env m w s e k =
    let t = now (env.seconds w.trace) in
    ground (
      arith,
      (find_and_update_lem t w.net.store m.service m.endpoint m.is_removed m.last_seen s e).1,
      updated-is_known t m.service m.endpoint m.is_removed m.last_seen
          (find_peer w.net.store m.service m.endpoint),
      k,
    )

module _ (env : Env) (id : ℕ) (m : PeerUpdateMessage) (w w' : World)
    (done : peer_update_from_pebo_peer env id m w ≡ some (tt, w')) where
  -- After an update the node knows the peer.
  pub peer_update-Knows : Knows w' m.service m.endpoint m.is_removed
  peer_update-Knows =
      ap (λ n. is_known m.is_removed (find_peer n.store m.service m.endpoint))
        (peer_update-Frame env id m w w' done).net
      ∙ ap (is_known m.is_removed) (find_peer-stored env m w)
      ∙ updated-is_known (now (env.seconds w.trace)) m.service m.endpoint m.is_removed m.last_seen
          (find_peer w.net.store m.service m.endpoint)

  -- An update with the same flag, about whatever peer, does not make it forget one.
  peer_update_keeps-Knows : (s e : Str) → Knows w s e m.is_removed → Knows w' s e m.is_removed
  peer_update_keeps-Knows s e k =
      ap (λ n. is_known m.is_removed (find_peer n.store s e))
        (peer_update-Frame env id m w w' done).net
      ∙ store_after-Knows env m w s e k

-- What a known peer's update does to the world.
pub known-silent :
    (env : Env) (id : ℕ) (m : PeerUpdateMessage) (w : World)
    → Knows w m.service m.endpoint m.is_removed
    → peer_update_from_pebo_peer env id m w ≡ some (tt, stored env m w)
known-silent env id m w k = peer_update_cases env id m w ∙ rw k

-- A sequence of updates, each from some connection.
abbrev pub deliver : Env → List (ℕ × PeerUpdateMessage) → M (Unit {0})
deliver env [] = pure tt
deliver env ((id, m) ∷ ms) = peer_update_from_pebo_peer env id m >> deliver env ms

-- Every update has the removal flag `b`; those that come over the wire have the flag `false`.
abbrev pub HaveFlag : Bool → List (ℕ × PeerUpdateMessage) → Type 0
HaveFlag b [] = Unit
HaveFlag b ((id, m) ∷ ms) = (m.is_removed ≡ b) × HaveFlag b ms

deliver-Knows :
    (env : Env) (ms : List (ℕ × PeerUpdateMessage)) (w w' : World) (s e : Str) (b : Bool)
    → HaveFlag b ms
    → deliver env ms w ≡ some (tt, w')
    → Knows w s e b
    → Knows w' s e b
deliver-Knows env [] w w' s e b f h k = let p : w ≡ w' = cc in rw (← p) k
deliver-Knows env ((id, m) ∷ ms) w w' s e b f h k =
    let (_, v, first, later) =
      bind-eq-some (peer_update_from_pebo_peer env id m) (λ _. deliver env ms) w w' tt h in
    deliver-Knows env ms v w' s e b f.1 later (
      subst (Knows v s e) f.0
        (peer_update_keeps-Knows env id m w v first s e (subst (Knows w s e) (sym f.0) k)))

-- Once a node has processed an update about a peer, and then any sequence of updates with the same
-- removal flag, a further update about that peer with that flag, from whichever connection and with
-- whatever time, succeeds and has no effect outside the node: no message, no call of the client.
pub flood_ends :
    (env : Env) (id id' : ℕ) (m m' : PeerUpdateMessage) (between : List (ℕ × PeerUpdateMessage))
    (w w₁ w₂ : World)
    → peer_update_from_pebo_peer env id m w ≡ some (tt, w₁)
    → deliver env between w₁ ≡ some (tt, w₂)
    → HaveFlag m.is_removed between
    → m'.service ≡ m.service
    → m'.endpoint ≡ m.endpoint
    → m'.is_removed ≡ m.is_removed
    → (w₃ : World) × (peer_update_from_pebo_peer env id' m' w₂ ≡ some (tt, w₃))
      × (w₃.trace ≡ w₂.trace)
      × (w₃.clients ≡ w₂.clients)
flood_ends env id id' m m' between w w₁ w₂ first then' flags es ee er =
    let k =
      deliver-Knows env between w₁ w₂ m.service m.endpoint m.is_removed flags then'
        (peer_update-Knows env id m w w₁ first) in
    (stored env m' w₂, known-silent env id' m' w₂ (rw (es, ee, er) k), refl, refl)
