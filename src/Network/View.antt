-- ===== src/Network/View.antt =====
-- What hearing of a peer leaves as it is in a node.
use peerboot_cpp.Prelude.{
  ℕ, ◌≡◌, fun_ext, ap, sym, ◌∙◌, Bool, true, Option, some, List, [], get_elem?, set, observe-set,
  All,
}
use peerboot_cpp.World.{World, Client, PeerWithId, Act, incoming}
use peerboot_cpp.PeboNet.{local_node_addr}
use peerboot_cpp.PeboNet.Sends.{opened, open_handle, usable, is_usable, recipients, Sends}
use peerboot_cpp.PeboNet.Talks.{talks}
use peerboot_cpp.NetClient.Frame.{core}

-- Of each connection: the handle if it is open, whether it is usable, and all but its state and its
-- stream. Of the network and the shell: the outgoing peers, and whether the callbacks are there.
pub record View : Type 0 where
  pub opens : ℕ → Option ℕ
  pub usables : ℕ → Bool
  pub cores : ℕ → Option Client
  pub peers_out : List PeerWithId
  pub notifies : Bool
  pub calls : Bool

abbrev pub view : World → View
view w = record {
  opens = opened w.clients;
  usables = usable w.clients;
  cores = λ j. core (get_elem? w.clients j);
  peers_out = w.net.peers_out;
  notifies = w.net.has_notify_cb;
  calls = w.shell.has_callback;
}

-- A node in order: the callbacks are there, the outgoing connections are open, or closing or closed, and
-- no outgoing peer has the address of an accepted connection, or the one that stands for the node itself.
pub record InOrder (v : View) : Type 0 where
  pub peers : All (λ p. v.usables p.peer ≡ true) v.peers_out
  pub notifies : v.notifies ≡ true
  pub calls : v.calls ≡ true
  pub others :
      (id : ℕ) (c : Client)
      → v.cores id ≡ some c
      → c.direction ≡ incoming
      → recipients c.node_addr v.peers_out ≡ v.peers_out
  pub far : recipients local_node_addr v.peers_out ≡ v.peers_out

-- An accepted connection that is open, with nothing in its buffer.
pub record Accepts (v : View) (id : ℕ) : Type 0 where
  pub client : Client
  pub handle : ℕ
  pub here : v.cores id ≡ some client
  pub accepted : client.direction ≡ incoming
  pub empty : client.receive_buffer ≡ []
  pub own : v.opens id ≡ some handle

pub Sends-view : (w w' : World) (acts : List Act) → Sends w w' acts → view w' ≡ view w
Sends-view w w' acts s = λ i. record {
  opens = fun_ext s.opens i;
  usables = fun_ext s.usables i;
  cores = fun_ext s.frame.cores i;
  peers_out = (s.frame.net i).peers_out;
  notifies = (s.frame.net i).has_notify_cb;
  calls = (s.frame.shell i).has_callback;
}

pub set-view :
    (w : World) (id : ℕ) (c c' : Client)
    → get_elem? w.clients id ≡ some c
    → core (some c') ≡ core (some c)
    → open_handle (some c') ≡ open_handle (some c)
    → is_usable (some c') ≡ is_usable (some c)
    → view (record w { clients = set w.clients id c' }) ≡ view w
set-view w id c c' here same o u = λ i. record {
  opens = fun_ext (λ j. observe-set open_handle w.clients id j c' c here o) i;
  usables = fun_ext (λ j. observe-set is_usable w.clients id j c' c here u) i;
  cores = fun_ext (λ j. observe-set core w.clients id j c' c here same) i;
  peers_out = w.net.peers_out;
  notifies = w.net.has_notify_cb;
  calls = w.shell.has_callback;
}

-- Each open outgoing connection goes on reading once a write has completed.
abbrev pub Talks : World → Type 0
Talks w =
    (i h : ℕ) (p : PeerWithId)
    → get_elem? w.net.peers_out i ≡ some p
    → opened w.clients p.peer ≡ some h
    → talks (get_elem? w.clients p.peer) ≡ true

pub Talks-keeps :
    (w w' : World)
    → view w' ≡ view w
    → ((j : ℕ) → talks (get_elem? w.clients j) ≡ true → talks (get_elem? w'.clients j) ≡ true)
    → Talks w
    → Talks w'
Talks-keeps w w' same keeps t i h p listed own = keeps p.peer (
    t i h p (ap (λ v. get_elem? v.peers_out i) (sym same) ∙ listed)
      (ap (λ v. v.opens p.peer) (sym same) ∙ own))
