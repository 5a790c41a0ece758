-- ===== src/Sample/Hears.antt =====
-- From the bytes that arrive at the demo program's node to the entry in its table.
use peerboot_cpp.Prelude.{
  ℕ, suc, ◌^◌, ◌<◌, ◌≡◌, refl, ap, ◌∙◌, Option, Option-cases, inl, inr, some, List, [], ◌∷◌, ◌++◌,
}
use peerboot_cpp.Prelude.Int.{pos}
use peerboot_cpp.Text.{Str}
use peerboot_cpp.Text.Cut.{Without}
use peerboot_cpp.SortedMap.{find}
use peerboot_cpp.SortedMap.Laws.{find-insert_self}
use peerboot_cpp.Wire.RoundTrip.{IsPrintable}
use peerboot_cpp.World.{
  World, Env, Client, PeerWithId, Act, wrote, read_started, closed_handle, connect_requested, bound,
  listened, accepted_on, notified,
}
use peerboot_cpp.Message.{PeerUpdateMessage, update, message_text}
use peerboot_cpp.PeboNet.Sends.{WritesSucceed, framed, writes, opened, recipients}
use peerboot_cpp.NetClient.Receive.{on_read}
use peerboot_cpp.Node.Relay.{Waits, greeting, relayed, on_read_relays}
use peerboot_cpp.Sample.Peers.{Peers, no_peers, add, register}
use peerboot_cpp.Sample.Demo.{heard}

heard-append :
    (peers : Peers) (xs ys : List Act) → heard peers (xs ++ ys) ≡ heard (heard peers xs) ys
unfolding heard
heard-append peers [] ys = refl
heard-append peers (notified self peer ∷ xs) ys = heard-append (register peer peers) xs ys
heard-append peers (wrote id h bytes ∷ xs) ys = heard-append peers xs ys
heard-append peers (read_started h ∷ xs) ys = heard-append peers xs ys
heard-append peers (closed_handle h ∷ xs) ys = heard-append peers xs ys
heard-append peers (connect_requested h host port ∷ xs) ys = heard-append peers xs ys
heard-append peers (bound h port ∷ xs) ys = heard-append peers xs ys
heard-append peers (listened h port ∷ xs) ys = heard-append peers xs ys
heard-append peers (accepted_on h ∷ xs) ys = heard-append peers xs ys

-- Writes call nobody.
heard-writes :
    (peers : Peers) (f : ℕ → Option ℕ) (bytes : Str) (to : List PeerWithId)
    → heard peers (writes f bytes to) ≡ peers
unfolding heard
heard-writes peers f bytes [] = refl
heard-writes peers f bytes (p ∷ to) = elim (Option-cases (f p.peer)) [
  | inl e ↦ rw (e, writes) (heard-writes peers f bytes to)
  | inr (h, e) ↦ rw (e, writes) (heard-writes peers f bytes to)
]

heard-relayed :
    (peers : Peers) (w : World) (origin : Str) (m : PeerUpdateMessage)
    → heard peers (relayed w origin m) ≡ add (greeting m) peers
unfolding heard
heard-relayed peers w origin m =
    heard-writes (add (greeting m) peers) (opened w.clients) (framed (update m))
      (recipients origin w.net.peers_out)

-- When the framed text of a printable update about a peer that the node does not have as present, with
-- a time below 2 ^ 31, arrives at an accepted connection of a node in order whose writes succeed, onRead
-- succeeds, and then the demo program's table has the peer under its endpoint, as it was sent and as not
-- removed. (The client has a callback; the receive buffer is empty; a zero byte stands right
-- behind the bytes that arrived in the read buffer, and the names have none.)
pub on_read-heard :
    (env : Env) (id h hr n : ℕ) (w : World) (c : Client) (m : PeerUpdateMessage) (junk : Str)
    → WritesSucceed env
    → Waits id h w c m.service m.endpoint
    → IsPrintable (update m)
    → m.last_seen < 2 ^ 31
    → Without 0 (message_text (update m))
    → (w' : World) × (on_read env id hr (pos (suc n)) (some (framed (update m) ++ 0 ∷ junk)) w
        ≡ some (tt, w'))
      × (find m.endpoint (heard no_peers w'.trace) ≡ some (greeting m))
unfolding add
on_read-heard env id h hr n w c m junk ok r printable small zeros =
    let (w', done, acts, _) = on_read_relays env id h hr n w c m junk ok r printable small zeros in
    (
      w',
      done,
      ap (λ t. find m.endpoint (heard no_peers t)) acts
          ∙ ap (find m.endpoint) (
              heard-append no_peers w.trace (relayed w c.node_addr m)
              ∙ heard-relayed (heard no_peers w.trace) w c.node_addr m)
          ∙ find-insert_self m.endpoint (greeting m) (heard no_peers w.trace),
    )
