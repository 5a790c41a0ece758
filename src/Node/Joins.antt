-- ===== src/Node/Joins.antt =====
-- A node that another one joins: from the connection that libuv reports (NetHandler::onNewConnection) to
-- the first message over it (NetClientBase::onRead).
use peerboot_cpp.Prelude.{
  ℕ, suc, ◌^◌, ◌<◌, ◌≡◌, refl, ap, sym, ◌∙◌, true, false, some, List, [], ◌∷◌, ◌++◌, get_elem?,
  get_elem?-append_last, get_elem?-append_left, length, All-map, Option-cases, inl, inr,
}
use peerboot_cpp.Prelude.Int.{pos, is_negative}
use peerboot_cpp.Text.{Str}
use peerboot_cpp.Text.Cut.{Without}
use peerboot_cpp.World.{World, Env, Client, receiving, accepted_on}
use peerboot_cpp.Message.{PeerUpdateMessage, update, message_text}
use peerboot_cpp.Wire.RoundTrip.{IsPrintable}
use peerboot_cpp.NetClient.{net_client_in}
use peerboot_cpp.NetClient.Receive.{on_read}
use peerboot_cpp.NetClient.Receive.Ready.{Ready}
use peerboot_cpp.PeboNet.Sends.{WritesSucceed, AllUsable, is_usable, usable, framed, open_handle}
use peerboot_cpp.PeboNet.Flood.{Knows}
use peerboot_cpp.NetHandler.{on_new_connection}
use peerboot_cpp.NetHandler.Accept.{remote_address, welcomed, on_new_connection-welcomed}
use peerboot_cpp.Node.Relay.{relayed, on_read_relays}

usable-append :
    (cs : List Client) (c : Client) (i : ℕ) → usable cs i ≡ true → usable (cs ++ c ∷ []) i ≡ true
usable-append cs c i h = elim (Option-cases (get_elem? cs i)) [
  | inl e ↦ cc (ap is_usable e, h)
  | inr (x, e) ↦ ap is_usable (get_elem?-append_left cs (c ∷ []) i x e ∙ sym e) ∙ h
]

-- A node whose network is set up: it has its callbacks, and its outgoing connections are open, or
-- closing or closed.
pub record IsUp (w : World) : Type 0 where
  pub has_pebo_net : w.shell.has_pebo_net ≡ true
  pub calls : w.shell.has_callback ≡ true
  pub notifies : w.net.has_notify_cb ≡ true
  pub peers : AllUsable w.clients w.net.peers_out

-- The new connection is open, on its own handle.
welcomed-Ready :
    (env : Env) (w : World) → IsUp w → Ready (length w.clients) w.next_handle (welcomed env w)
unfolding net_client_in
welcomed-Ready env w up =
    let c : Client = record (net_client_in w.next_handle (remote_address env w)) {
      state = receiving;
    } in
    record {
      own = ap open_handle (get_elem?-append_last w.clients c);
      peers = All-map _ _ w.net.peers_out (λ p. usable-append w.clients c p.peer) up.peers;
      notifies = up.notifies;
    }

-- When a connection is reported to a node whose network is set up, accepted and read, it is filed as one
-- more incoming peer with its remote address, and nothing else changes; and when then the framed text of
-- a printable update about a peer that the node does not have as present, with a time below 2 ^ 31, is the
-- first to arrive over it, onRead succeeds: the client is called once with the peer, then the bytes that
-- arrived are written once to each outgoing peer whose connection is open, but those with the remote
-- address, in order, and the node has the peer. (The shell has its network and the client a callback, the
-- outgoing connections are open, or closing or closed, writes succeed, a zero byte stands right behind the
-- bytes that arrived in the read buffer, and the names have none.)
pub on_new_connection_relays :
    (env : Env) (s hr n : ℕ) (w : World) (m : PeerUpdateMessage) (junk : Str)
    → WritesSucceed env
    → IsUp w
    → is_negative (env.uv_accept w.trace w.next_handle) ≡ false
    → is_negative (env.uv_read_start (w.trace ++ accepted_on w.next_handle ∷ []) w.next_handle)
      ≡ false
    → (Knows w m.service m.endpoint false → ⊥)
    → IsPrintable (update m)
    → m.last_seen < 2 ^ 31
    → Without 0 (message_text (update m))
    → (on_new_connection env (pos s) w ≡ some (tt, welcomed env w))
      × ((w' : World) × (on_read env
              (length w.clients)
              hr
              (pos (suc n))
              (some (framed (update m) ++ 0 ∷ junk))
              (welcomed env w)
            ≡ some (tt, w'))
          × (w'.trace ≡ (welcomed env w).trace ++ relayed (welcomed env w) (remote_address env w) m)
          × Knows w' m.service m.endpoint false)
unfolding net_client_in
on_new_connection_relays env s hr n w m junk ok up taken read news printable small zeros =
    let c : Client = record (net_client_in w.next_handle (remote_address env w)) {
      state = receiving;
    } in
    (
      on_new_connection-welcomed env s w up.has_pebo_net taken read,
      on_read_relays env (length w.clients) w.next_handle hr n (welcomed env w) c m junk ok
          (record {
            ready = welcomed-Ready env w up;
            here = get_elem?-append_last w.clients c;
            accepts = refl;
            empty = refl;
            calls = up.calls;
            news = news;
          })
          printable small zeros,
    )
