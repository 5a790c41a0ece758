-- ===== src/Tests/NetworkExamples.antt =====
-- Two nodes that are connected both ways: the properties of the network at a concrete input.
use mathlib.Core.List.{Memᴰ}
use peerboot_cpp.Prelude.{
  true, All, ℕ, zero, suc, ◌+◌, ◌≤◌, ◌≡◌, refl, ap, subst, false, Option, none, some, List, [], ◌∷◌,
  ◌++◌, arith, get_elem?, map, length, All-get_elem?,
}
use peerboot_cpp.Text.{codes, str_eq, split_at}
use peerboot_cpp.Store.{find_peer, find_and_update}
use peerboot_cpp.SortedMap.{find}
use peerboot_cpp.TimeStamp.{now}
use peerboot_cpp.World.{World, Env, Client, Act, incoming, undefined, wild}
use peerboot_cpp.PeboNet.{broadcast}
use peerboot_cpp.PeboNet.Sends.{recipients, framed}
use peerboot_cpp.PeboNet.Talks.{talks}
use peerboot_cpp.Node.Path.{announced}
use peerboot_cpp.Network.{
  Net, Packet, Wiring, Read, announce, deliver, Deliveries, rests, goes_on, completes, finish,
  completes, finish,
}
use peerboot_cpp.Network.Flooding.{Moves, here, along}
use peerboot_cpp.Network.View.{Talks, view, InOrder, Accepts}
use peerboot_cpp.Network.Graph.{AllInOrder, Receives, Travels, links, flooding, Steady, has_peer}
use peerboot_cpp.Network.Simulates.{deliver-Moves}
use peerboot_cpp.Network.Told.{told_of, due}
use peerboot_cpp.Network.Flooding.Ends.{link_count}
use peerboot_cpp.Node.Relay.{greeting}
use peerboot_cpp.PeboNet.Flood.{Knows}
use peerboot_cpp.Network.Announcement.{idle, announce-starts}
use peerboot_cpp.Network.Outcome.{
  IsClosed, announcement_ends, announcement_tells, announcement_reaches,
}
use peerboot_cpp.NetClient.{on_write}
use peerboot_cpp.NetClient.Receive.{on_read}
use peerboot_cpp.Message.{message_text, update}
use peerboot_cpp.Text.Decimal.{to_string, stoi}
use peerboot_cpp.Text.Tokens.{tokens}
use peerboot_cpp.Tests.Samples.{calm, asker, neighbour, node, known_peer, new_update}
use peerboot_cpp.Tests.NodeExamples.{toward, zero_free, new-IsPrintable, news}

-- The first has the peer that it announces; the second does not.
abbrev origin : World
origin = record node {
  net = record node.net {
    store = (codes "s", (codes "e2", record known_peer { endpoint = codes "e2" }) ∷ []) ∷ [];
  };
}

abbrev pair : List World
pair = origin ∷ node ∷ []

-- The outgoing connection of each leads to the accepted one of the other.
abbrev wire : Wiring
wire zero (suc zero) = some (1, 0)
wire (suc zero) (suc zero) = some (0, 0)
wire _ _ = none

abbrev envs : ℕ → Env
envs j = calm

abbrev net_of : Option Net → Net
net_of none = idle []
net_of (some s) = s

abbrev started : Net
started = net_of (announce envs wire 0 news (idle pair))

abbrev first : Read
first = record { at = 0; hr = 1; nread = 18; junk = 7 ∷ [] }

-- The write completes before the message arrives.
abbrev written : Net
written = net_of (finish envs wire 0 0 started)

abbrev passed : Net
passed = net_of (deliver envs wire first written)

abbrev rested : Net
rested = net_of (deliver envs wire first passed)

started-eq : announce envs wire 0 news (idle pair) ≡ some started
unfolding broadcast str_eq
started-eq = refl

written-eq : finish envs wire 0 0 started ≡ some written
unfolding broadcast str_eq on_write message_text to_string
written-eq = refl

passed-eq : deliver envs wire first written ≡ some passed
unfolding broadcast str_eq on_write on_read message_text to_string split_at tokens find_and_update
    find_peer find stoi
passed-eq = refl

rested-eq : deliver envs wire first passed ≡ some rested
unfolding broadcast str_eq on_write on_read message_text to_string split_at tokens find_and_update
    find_peer find stoi
rested-eq = refl

rested-flying : rested.flying ≡ []
unfolding broadcast str_eq on_write on_read message_text to_string split_at tokens find_and_update
    find_peer find stoi
rested-flying = refl

pair-Deliveries : Deliveries envs wire started 2 rested
pair-Deliveries = goes_on first (goes_on first (completes 0 0 rests written-eq) passed-eq) rested-eq

-- Both nodes look the same but for what they store.
apart :
    (id : ℕ) (c : Client)
    → (view node).cores id ≡ some c
    → c.direction ≡ incoming
    → recipients c.node_addr node.net.peers_out ≡ node.net.peers_out
unfolding str_eq
apart zero c e d =
    let bare : Client = record asker { state = undefined; stream = wild } in
    let p : bare ≡ c = cc e in
    subst (λ x. recipients x.node_addr node.net.peers_out ≡ node.net.peers_out) p refl
apart (suc zero) c e d =
    let bare : Client = record neighbour { state = undefined; stream = wild } in
    let p : bare ≡ c = cc e in absurd (cc (ap (λ x. x.direction) p, d))
apart (suc (suc id)) c e d = absurd (cc e)

one-InOrder : InOrder (view node)
unfolding str_eq
one-InOrder = record {
  peers = (refl, tt);
  notifies = refl;
  calls = refl;
  others = apart;
  far = refl;
}

node-Accepts : Accepts (view node) 0
node-Accepts = record {
  client = record asker { state = undefined; stream = wild };
  handle = 1;
  here = refl;
  accepted = refl;
  empty = refl;
  own = refl;
}

pair-leads : (j id k conn : ℕ) → wire j id ≡ some (k, conn) → Receives (map view pair) k conn
pair-leads zero zero k conn e = absurd (cc e)
pair-leads zero (suc zero) k conn e =
    let target : ℕ × ℕ = (1, 0) in
    let p : target ≡ (k, conn) = cc e in
    subst (λ x. Receives (map view pair) x.0 x.1) p (view node, refl, node-Accepts)
pair-leads zero (suc (suc id)) k conn e = absurd (cc e)
pair-leads (suc zero) zero k conn e = absurd (cc e)
pair-leads (suc zero) (suc zero) k conn e =
    let target : ℕ × ℕ = (0, 0) in
    let p : target ≡ (k, conn) = cc e in
    subst (λ x. Receives (map view pair) x.0 x.1) p (view origin, refl, node-Accepts)
pair-leads (suc zero) (suc (suc id)) k conn e = absurd (cc e)
pair-leads (suc (suc j)) id k conn e = absurd (cc e)

pair-AllInOrder : AllInOrder wire (map view pair)
pair-AllInOrder = record {
  nodes = λ j v e. All-get_elem? InOrder (map view pair) j v e (one-InOrder, (one-InOrder, tt));
  wired = λ j v p k conn _ _ e. pair-leads j p.peer k conn e;
}

node-Talks : Talks node
node-Talks zero h p listed own =
    let q : toward ≡ p = cc listed in
    subst (λ x. talks (get_elem? node.clients x.peer) ≡ true) q refl
node-Talks (suc i) h p listed own = absurd (cc listed)

pair-Talks : All Talks pair
pair-Talks = (node-Talks, (node-Talks, tt))

news-Travels : Travels (announced calm origin news)
unfolding now
news-Travels = record { printable = new-IsPrintable; small = omega arith; zeros = zero_free }

origin-Knows : Knows origin (codes "s") (codes "e2") false
unfolding find_peer find str_eq
origin-Knows = refl

abbrev world_at : Option World → World
world_at none = node
world_at (some w) = w

abbrev passed_node : World
passed_node = world_at (get_elem? passed.nodes 1)

passed_node-eq : get_elem? passed.nodes 1 ≡ some passed_node
unfolding broadcast str_eq on_write on_read message_text to_string split_at tokens find_and_update
    find_peer find stoi
passed_node-eq = refl

-- The packet that the announcement sends
abbrev letter : Packet
letter = record { node = 1; conn = 0; bytes = framed (update new_update) }

started-letter : get_elem? started.flying 0 ≡ some letter
unfolding broadcast str_eq message_text to_string
started-letter = refl

started-Steady : Steady (announced calm origin news) (map view pair) started
started-Steady =
    let (s, done, _, steady, _) =
      announce-starts envs wire pair 0 origin news (λ k t h b. refl) pair-AllInOrder pair-Talks
        refl in
    let same : s ≡ started = cc (done, started-eq) in
    subst (Steady (announced calm origin news) (map view pair)) same steady

announcement_ends_example :
    (2 + length rested.flying ≤ link_count (links wire (map view pair)) 0 2)
    × ((k : ℕ) × (u : Net) × Deliveries envs wire rested k u × (u.flying ≡ []))
announcement_ends_example =
    announcement_ends envs wire pair 0 origin news started 2 rested (λ k t h b. refl)
      (λ k t h. refl) pair-Talks pair-AllInOrder news-Travels refl origin-Knows started-eq
      pair-Deliveries

announcement_tells_example :
    (acts : List Act) × (passed_node.trace ≡ node.trace ++ acts)
    × (told_of acts
        ≡ due
            (greeting (announced calm origin news))
            (has_peer (announced calm origin news) node)
            (has_peer (announced calm origin news) passed_node))
announcement_tells_example =
    announcement_tells envs wire pair 0 origin news started 1 passed (λ k t h b. refl)
      (λ k t h. refl) pair-Talks pair-AllInOrder news-Travels refl origin-Knows started-eq
      (goes_on first (completes 0 0 rests written-eq) passed-eq) 1 node passed_node refl
      passed_node-eq

-- No node but the first has the peer.
alone : IsClosed (links wire (map view pair)) 0 (map (has_peer (announced calm origin news)) pair)
unfolding find_peer find str_eq
alone zero l other h m = absurd (other refl)
alone (suc zero) l other h m = absurd (cc h)
alone (suc (suc k)) l other h m = absurd (cc h)

announcement_reaches_example :
    (v : World) × (get_elem? rested.nodes 1 ≡ some v) × Knows v (codes "s") (codes "e2") false
announcement_reaches_example =
    announcement_reaches envs wire pair 0 origin news started 2 rested (λ k t h b. refl)
      (λ k t h. refl) pair-Talks pair-AllInOrder news-Travels refl origin-Knows started-eq
      pair-Deliveries 1 alone rested-flying (along here (Memᴰ.head refl))

deliver-Moves_example :
    (s' : Net) × (deliver envs wire first started ≡ some s')
    × Moves
        (links wire (map view pair))
        (flooding (announced calm origin news) started)
        (flooding (announced calm origin news) s')
    × Steady (announced calm origin news) (map view pair) s'
deliver-Moves_example =
    deliver-Moves wire (announced calm origin news) (map view pair) pair-AllInOrder envs started
      first letter (λ k t h b. refl) news-Travels started-Steady started-letter
