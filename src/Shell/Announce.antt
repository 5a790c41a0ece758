-- ===== src/Shell/Announce.antt =====
-- What a shell tells the network when it starts.
use peerboot_cpp.Prelude.{◌≡◌, ap, sym, subst, ◌∙◌, true, false, some, List, arith, All-map}
use peerboot_cpp.Text.{Str}
use peerboot_cpp.TimeStamp.{now}
use peerboot_cpp.Types.{PeerInfo, err_ok}
use peerboot_cpp.Store.{find_peer, find_and_update}
use peerboot_cpp.Message.{Message, update, query, message_text, peer_update_message, query_message}
use peerboot_cpp.World.{World, Env, PeerWithId}
use peerboot_cpp.PeboNet.{local_node_addr, broadcast, query_remote}
use peerboot_cpp.PeboNet.Sends.{AllUsable, recipients, framed}
use peerboot_cpp.PeboNet.Attempts.{Attempts, do_broadcast_msg-Attempts}
use peerboot_cpp.Shell.{start, broadcast_refresh, do_net_query}
use peerboot_cpp.Store.Lookup.{updated, reported, find_and_update_lem}
use peerboot_cpp.Text.Order.{str_eq_refl}

-- The outgoing peers that a message of the node itself goes to.
abbrev pub audience : World → List PeerWithId
audience w = recipients local_node_addr w.net.peers_out

-- The messages, whenever they are made.
abbrev pub announcement : PeerInfo → Message
announcement peer = update (record {
  created_time = 0;
  service = peer.service;
  endpoint = peer.endpoint;
  last_seen = peer.last_seen;
  is_removed = peer.is_removed;
})

abbrev pub question : Str → Message
question service = query (record { created_time = 0; service = service })

-- Each outgoing peer's connection is open, or closing or closed.
abbrev pub AllReachable : World → Type 0
AllReachable w = AllUsable w.clients (audience w)

-- The message goes to the audience, whatever the writes answer.
abbrev pub TellsAll : World → World → Message → Type 0
TellsAll w w' msg = Attempts w w' (framed msg) (audience w)

pub broadcast_announces :
    (env : Env) (peer : PeerInfo) (w : World)
    → AllReachable w
    → (w' : World) × (broadcast env peer w ≡ some (err_ok, w')) × TellsAll w w' (announcement peer)
unfolding broadcast peer_update_message message_text
broadcast_announces env peer w o =
    do_broadcast_msg-Attempts env
      (peer_update_message (now (env.seconds w.trace)) peer.service peer.endpoint peer.last_seen
        peer.is_removed 0)
      local_node_addr w o

query_remote_asks :
    (env : Env) (service : Str) (w : World)
    → AllReachable w
    → (w' : World) × (query_remote env service w ≡ some (err_ok, w'))
      × TellsAll w w' (question service)
unfolding query_remote query_message message_text
query_remote_asks env service w o =
    do_broadcast_msg-Attempts env (query_message (now (env.seconds w.trace)) service 0)
      local_node_addr w o

-- After a broadcast the audience is the same, and still open, or closing or closed.
AllReachable-after :
    (w v : World) (msg : Message) → TellsAll w v msg → AllReachable w → AllReachable v
AllReachable-after w v msg t o =
    subst (AllUsable v.clients) (ap (λ n. recipients local_node_addr n.peers_out) (sym t.frame.net))
      (All-map _ _ (audience w) (λ p e. t.usables p.peer ∙ e) o)

-- First the announcement, then the question.
announce_then_ask :
    (env : Env) (peer : PeerInfo) (service : Str) (w : World)
    → AllReachable w
    → (v w' : World) × (broadcast env peer w ≡ some (err_ok, v))
      × TellsAll w v (announcement peer)
      × (query_remote env service v ≡ some (err_ok, w'))
      × TellsAll v w' (question service)
announce_then_ask env peer service w o =
    let (v, told, t) = broadcast_announces env peer w o in
    let (w', asked, t') =
      query_remote_asks env service v (AllReachable-after w v (announcement peer) t o) in
    (v, w', told, t, asked, t')

-- The client's peer at a start.
abbrev pub starting : Env → Str → Str → World → PeerInfo
starting env service endpoint w = record {
  service = service;
  endpoint = endpoint;
  last_seen = now (env.seconds w.trace);
  is_removed = false;
}

abbrev pub started : Env → Str → Str → World → World
started env service endpoint w =
    let t = now (env.seconds w.trace) in
    record w {
      shell = record w.shell { peer = starting env service endpoint w };
      net = record w.net { store = (find_and_update t w.net.store service endpoint false t).0 };
    }

-- The steps of a start, one after the other.
start_steps :
    (env : Env) (service endpoint : Str) (w v w' : World)
    → w.shell.has_pebo_net ≡ true
    → broadcast env (starting env service endpoint w) (started env service endpoint w)
      ≡ some (err_ok, v)
    → v.shell ≡ (started env service endpoint w).shell
    → query_remote env service v ≡ some (err_ok, w')
    → start env service endpoint w ≡ some (err_ok, w')
unfolding start broadcast_refresh do_net_query
start_steps env service endpoint w v w' here told kept asked =
    ground (arith, here, told, ap (λ x. x.has_pebo_net) kept, asked)

-- Starting a shell that has its network succeeds, whatever libuv answers to the writes. It keeps the
-- client's peer and stores it; announces it, by the broadcast in which every outgoing peer whose
-- connection is open is written to; and then asks for the service, by the broadcast in which every
-- outgoing peer whose connection is open after the first one is written to. It does nothing else; no other
-- part of the shell changes, and the peer is in the store afterwards. (Each outgoing peer's connection is
-- open, or closing or closed.)
pub start_lem :
    (env : Env) (service endpoint : Str) (w : World)
    → w.shell.has_pebo_net ≡ true
    → AllReachable w
    → (v w' : World) × (start env service endpoint w ≡ some (err_ok, w'))
      × (broadcast env (starting env service endpoint w) (started env service endpoint w)
          ≡ some (err_ok, v))
      × TellsAll (started env service endpoint w) v (announcement (starting env service endpoint w))
      × (query_remote env service v ≡ some (err_ok, w'))
      × TellsAll v w' (question service)
      × (w'.shell ≡ record w.shell { peer = starting env service endpoint w })
      × (find_peer w'.net.store service endpoint
          ≡ some (
              updated
                (now (env.seconds w.trace))
                (reported service endpoint false (now (env.seconds w.trace)))
                (find_peer w.net.store service endpoint)))
start_lem env service endpoint w here o =
    let t = now (env.seconds w.trace) in
    let (v, w', told, tells, asked, asks) =
      announce_then_ask env (starting env service endpoint w) service
        (started env service endpoint w) o in
    (
      v,
      w',
      start_steps env service endpoint w v w' here told tells.frame.shell asked,
      told,
      tells,
      asked,
      asks,
      asks.frame.shell ∙ tells.frame.shell,
      ap (λ n. find_peer n.store service endpoint) (asks.frame.net ∙ tells.frame.net)
          ∙ (find_and_update_lem t w.net.store service endpoint false t service endpoint).1
          ∙ simp str_eq_refl,
    )
