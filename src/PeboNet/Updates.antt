-- ===== src/PeboNet/Updates.antt =====
-- What an update from a peer does (PeboNet::peerUpdateFromPeboPeer).
use peerboot_cpp.Prelude.{
  ℕ, ◌≡◌, refl, ap, ◌∙◌, Bool, true, false, not, Option, none, some, [], ◌∷◌, ◌++◌, arith,
  get_elem?, if◌then◌else◌, bool_ne,
}
use mathlib.Core.List.{append_assoc}
use peerboot_cpp.Text.Order.{str_eq_refl}
use peerboot_cpp.TimeStamp.{now}
use peerboot_cpp.Store.{Store, StoredPeer, find_peer, find_and_update}
use peerboot_cpp.Store.Lookup.{verdict, updated, reported, find_and_update_lem}
use peerboot_cpp.World.{World, Env, Client, notified}
use peerboot_cpp.Machine.{pure, continue}
use peerboot_cpp.Message.{PeerUpdateMessage, update}
use peerboot_cpp.Types.{PeerInfo}
use peerboot_cpp.PeboNet.{
  info, was_known, forward, peer_update_from_pebo_peer, do_client_callback, do_broadcast_msg,
}
use peerboot_cpp.PeboNet.Sends.{WritesSucceed, AllUsable, recipients, writes, opened, framed}
use peerboot_cpp.PeboNet.Broadcast.{do_broadcast_msg_lem}

-- The peer is stored with the removal flag that is reported.
abbrev pub is_known : Bool → Option StoredPeer → Bool
is_known is_removed none = false
is_known is_removed (some old) = not (bool_ne old.is_removed is_removed)

was_known-verdict : (b : Bool) (o : Option StoredPeer) → was_known (verdict b o) ≡ is_known b o
was_known-verdict b none = refl
was_known-verdict b (some old) = ground arith

-- The store after the update, and the world with it.
abbrev pub store_after : Env → PeerUpdateMessage → World → Store
store_after env m w =
    (find_and_update (now (env.seconds w.trace)) w.net.store m.service m.endpoint m.is_removed
      m.last_seen).0

abbrev pub stored : Env → PeerUpdateMessage → World → World
stored env m w = record w { net = record w.net { store = store_after env m w } }

pub peer_update_cases :
    (env : Env) (id : ℕ) (m : PeerUpdateMessage) (w : World)
    → peer_update_from_pebo_peer env id m w
      ≡ (if is_known m.is_removed (find_peer w.net.store m.service m.endpoint)
            then pure tt
            else forward env id m)
          (stored env m w)
unfolding peer_update_from_pebo_peer
peer_update_cases env id m w =
    ap (λ b. (if b then pure tt else forward env id m) (stored env m w))
      (ap was_known
          (find_and_update_lem (now (env.seconds w.trace)) w.net.store m.service m.endpoint
            m.is_removed m.last_seen m.service m.endpoint).0
        ∙ was_known-verdict m.is_removed (find_peer w.net.store m.service m.endpoint))

-- The entry that the update leaves.
abbrev pub entry_after : Env → PeerUpdateMessage → World → StoredPeer
entry_after env m w =
    updated (now (env.seconds w.trace)) (reported m.service m.endpoint m.is_removed m.last_seen)
      (find_peer w.net.store m.service m.endpoint)

pub find_peer-stored :
    (env : Env) (m : PeerUpdateMessage) (w : World)
    → find_peer (store_after env m w) m.service m.endpoint ≡ some (entry_after env m w)
find_peer-stored env m w =
    (find_and_update_lem (now (env.seconds w.trace)) w.net.store m.service m.endpoint m.is_removed
      m.last_seen m.service m.endpoint).1
    ∙ simp str_eq_refl

-- An update about a peer that the store has with the reported removal flag is absorbed: nothing is
-- written to any connection, the client is not called, no connection changes; the stored entry gets
-- the reported time and keeps the time at which it was added.
peer_update_known :
    (env : Env) (id : ℕ) (m : PeerUpdateMessage) (w : World) (old : StoredPeer)
    → find_peer w.net.store m.service m.endpoint ≡ some old
    → old.is_removed ≡ m.is_removed
    → (w' : World) × (peer_update_from_pebo_peer env id m w ≡ some (tt, w'))
      × (w'.trace ≡ w.trace)
      × (w'.clients ≡ w.clients)
      × (find_peer w'.net.store m.service m.endpoint
          ≡ some (record (reported m.service m.endpoint m.is_removed m.last_seen) {
            added_time = old.added_time;
          }))
peer_update_known env id m w old h e = (
  stored env m w,
  peer_update_cases env id m w ∙ rw (h, is_known) (ground arith),
  refl,
  refl,
  find_peer-stored env m w ∙ rw h (ground arith),
)

-- Telling the client is one act.
abbrev pub told : PeerInfo → World → World
told peer w = record w { trace = w.trace ++ notified w.shell.peer peer ∷ [] }

pub forward-told :
    (env : Env) (id : ℕ) (m : PeerUpdateMessage) (w : World) (c : Client)
    → get_elem? w.clients id ≡ some c
    → w.net.has_notify_cb ≡ true
    → w.shell.has_callback ≡ true
    → forward env id m w
      ≡ continue (do_broadcast_msg env (update m) c.node_addr (told (info m) w)) (λ _. pure tt)
unfolding forward do_client_callback
forward-told env id m w c here cb calls = ground (arith, here, cb, calls)

-- News, of an unknown peer or with the other removal flag, is stored; then the client is called once
-- with it, and then the message is written once to each outgoing peer whose connection is open, but
-- those with the sender's address, in order, and nothing else happens outside. (The client has a
-- callback, each recipient's connection is open, or closing or closed, and the writes succeed.)
pub peer_update_news :
    (env : Env) (id : ℕ) (m : PeerUpdateMessage) (w : World) (c : Client)
    → is_known m.is_removed (find_peer w.net.store m.service m.endpoint) ≡ false
    → get_elem? w.clients id ≡ some c
    → w.net.has_notify_cb ≡ true
    → w.shell.has_callback ≡ true
    → WritesSucceed env
    → AllUsable w.clients (recipients c.node_addr w.net.peers_out)
    → (w' : World) × (peer_update_from_pebo_peer env id m w ≡ some (tt, w'))
      × (w'.trace
          ≡ w.trace
            ++ notified w.shell.peer (info m)
              ∷ writes
                  (opened w.clients)
                  (framed (update m))
                  (recipients c.node_addr w.net.peers_out))
      × (find_peer w'.net.store m.service m.endpoint ≡ some (entry_after env m w))
peer_update_news env id m w c news here cb calls ok o =
    let v = stored env m w in
    let (w', sent, s) = do_broadcast_msg_lem env (update m) c.node_addr (told (info m) v) ok o in
    (
      w',
      peer_update_cases env id m w ∙ rw news (forward-told env id m v c here cb calls ∙ rw sent),
      s.trace ∙ append_assoc w.trace _ _,
      ap (λ n. find_peer n.store m.service m.endpoint) s.frame.net ∙ find_peer-stored env m w,
    )
