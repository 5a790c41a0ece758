-- ===== src/PeboNet/Dial.antt =====
-- Adding outgoing peers and connecting to them succeeds, whatever libuv answers.
use peerboot_cpp.Prelude.{
  ℕ, zero, suc, ◌+◌, ◌≡◌, refl, ap, sym, subst, ◌∙◌, Bool, true, false, not, Option, none, some,
  List, [], ◌∷◌, ◌++◌, arith, get_elem?, get_elem?-append_last, get_elem?-append_left, set,
  get_elem?-set_self, observe-set, length, All, All-map, All-append, Bool-cases, Option-cases, inl,
  inr,
}
use peerboot_cpp.Prelude.Int.{ℤ, pos, is_zero, int_eq}
use peerboot_cpp.Text.{Str, codes}
use peerboot_cpp.World.{
  World, Env, Client, Direction, PeerWithId, Act, connecting, handle, incoming, outgoing,
  connect_requested,
}
use peerboot_cpp.Machine.{continue}
use peerboot_cpp.NetClient.{net_client_out, is_under_way, connect}
use peerboot_cpp.PeboNet.{
  or_default, add_out_peer, add_peer, connect_all, try_out_connections, add_local_peers,
  listen_started,
}
use peerboot_cpp.PeboNet.Sends.{AllUsable, usable, is_usable}

-- The memory of a new connection does not look like a connection that is under way.
abbrev pub RawIdle : Env → Type 0
RawIdle env = (t : List Act) → is_under_way (env.raw_state t) ≡ false

-- An outgoing connection that `connect` opens
abbrev pub is_dialable : Option Client → Bool
is_dialable none = false
is_dialable (some c) = elim c.direction [
  | incoming ↦ false
  | outgoing host port ↦ not (is_under_way c.state)
]

abbrev pub AllDialable : List Client → List PeerWithId → Type 0
AllDialable cs = All (λ p. is_dialable (get_elem? cs p.peer) ≡ true)

dialable-append :
    (cs : List Client) (c : Client) (i : ℕ)
    → is_dialable (get_elem? cs i) ≡ true
    → is_dialable (get_elem? (cs ++ c ∷ []) i) ≡ true
dialable-append cs c i h = elim (Option-cases (get_elem? cs i)) [
  | inl e ↦ cc (ap is_dialable e, h)
  | inr (x, e) ↦ ap is_dialable (get_elem?-append_left cs (c ∷ []) i x e ∙ sym e) ∙ h
]

-- A world from which only the network and the connections differ, all of whose outgoing peers can be
-- connected to
pub record Dials (w w' : World) : Type 0 where
  pub shell : w'.shell ≡ w.shell
  pub dialable : AllDialable w'.clients w'.net.peers_out

Dials-trans : (u v w : World) → Dials u v → Dials v w → Dials u w
Dials-trans u v w f g = record { shell = g.shell ∙ f.shell; dialable = g.dialable }

abbrev pub AddsTo : World → Option (Unit {0} × World) → Type 0
AddsTo w o = (w' : World) × (o ≡ some (tt, w')) × Dials w w'

module _ (env : Env) (idle : RawIdle env) where
  pub add_peer-AddsTo :
      (host : Str) (port : ℤ) (w : World)
      → AllDialable w.clients w.net.peers_out
      → AddsTo w (add_peer env host port w)
  unfolding add_peer add_out_peer net_client_out
  add_peer-AddsTo host port w h =
      let c = net_client_out (env.raw_state w.trace) host (or_default port) in
      (
        _,
        refl,
        record {
          shell = refl;
          dialable =
              All-append _ w.net.peers_out
                (record { node_addr = c.node_addr; peer = length w.clients } ∷ [])
                (All-map _ _ w.net.peers_out (λ p. dialable-append w.clients c p.peer) h)
                (ap is_dialable (get_elem?-append_last w.clients c) ∙ ap not (idle w.trace), tt);
        },
      )

  add_local_peers-AddsTo :
      (port : ℤ) (rounds i : ℕ) (w : World)
      → AllDialable w.clients w.net.peers_out
      → AddsTo w (add_local_peers env port rounds i w)
  unfolding add_local_peers
  add_local_peers-AddsTo port zero i w h = (w, refl, record { shell = refl; dialable = h })
  add_local_peers-AddsTo port (suc rounds) i w h =
      elim (Bool-cases (int_eq port (pos (5000 + i)))) [
        | inl same ↦ rw same (add_local_peers-AddsTo port rounds (i + 1) w h)
        | inr other ↦
            let (v, one, d) = add_peer-AddsTo (codes "127.0.0.1") (pos (5000 + i)) w h in
            let (w', rest, d') = add_local_peers-AddsTo port rounds (i + 1) v d.dialable in
            (
              w',
              rw other
                  (ap (λ o. continue o (λ _. add_local_peers env port rounds (i + 1))) one ∙ rest),
              Dials-trans w v w' d d',
            )
      ]

-- What connecting keeps: all but the connections and what lies outside, and what can be used.
record Connects (w w' : World) : Type 0 where
  shell : w'.shell ≡ w.shell
  net : w'.net ≡ w.net
  dialables : (j : ℕ) → is_dialable (get_elem? w'.clients j) ≡ is_dialable (get_elem? w.clients j)
  usables : (j : ℕ) → usable w.clients j ≡ true → usable w'.clients j ≡ true

usable-set_more :
    (cs : List Client) (id j : ℕ) (c' : Client)
    → is_usable (some c') ≡ true
    → usable cs j ≡ true
    → usable (set cs id c') j ≡ true
usable-set_more [] id j c' u h = h
usable-set_more (x ∷ cs) zero zero c' u h = u
usable-set_more (x ∷ cs) zero (suc j) c' u h = h
usable-set_more (x ∷ cs) (suc id) zero c' u h = h
usable-set_more (x ∷ cs) (suc id) (suc j) c' u h = usable-set_more cs id j c' u h

-- Connecting gives a dialable connection a handle, and succeeds.
put-Connects :
    (w : World) (id h : ℕ) (c : Client) (acts : List Act)
    → get_elem? w.clients id ≡ some c
    → (host : Str) (port : ℤ) → c.direction ≡ outgoing host port
    → is_under_way c.state ≡ false
    → Connects w (record w {
      clients = set w.clients id (record c { state = connecting; stream = handle h });
      trace = acts;
      next_handle = h + 1;
    })
put-Connects w id h c acts here host port dir idle =
    let c' : Client = record c { state = connecting; stream = handle h } in
    record {
      shell = refl;
      net = refl;
      dialables = λ j. observe-set is_dialable w.clients id j c' c here (ground (arith, dir, idle));
      usables = λ j u. usable-set_more w.clients id j c' refl u;
    }

dialable-eq-true :
    (o : Option Client)
    → is_dialable o ≡ true
    → (c : Client) × (host : Str) × (port : ℤ) × (o ≡ some c)
      × (c.direction ≡ outgoing host port)
      × (is_under_way c.state ≡ false)
dialable-eq-true none h = cc
dialable-eq-true (some c) h = go c.direction refl
  where
    go :
        (d : Direction)
        → c.direction ≡ d
        → (c' : Client) × (host : Str) × (port : ℤ) × (some c ≡ some c')
          × (c'.direction ≡ outgoing host port)
          × (is_under_way c'.state ≡ false)
    go incoming e = ground (arith, e, h)
    go (outgoing host port) e = (c, host, port, refl, e, ground (arith, h, e))

connect-Connects :
    (env : Env) (id : ℕ) (w : World)
    → is_dialable (get_elem? w.clients id) ≡ true
    → (res : ℤ) × (w' : World) × (connect env id w ≡ some (res, w'))
      × Connects w w'
      × (usable w'.clients id ≡ true)
unfolding connect
connect-Connects env id w d =
    let (c, host, port, here, dir, idle) = dialable-eq-true (get_elem? w.clients id) d in
    let h = w.next_handle in
    let c' : Client = record c { state = connecting; stream = handle h } in
    let used : usable (set w.clients id c') id ≡ true =
      ap is_usable (get_elem?-set_self w.clients id c' c here) in
    elim (Bool-cases (is_zero (env.uv_ip4_addr host port))) [
      | inl known ↦ (
        env.uv_tcp_connect w.trace h,
        record w {
          clients = set w.clients id c';
          trace = w.trace ++ connect_requested h host port ∷ [];
          next_handle = h + 1;
        },
        ground (arith, here, dir, idle, known),
        put-Connects w id h c _ here host port dir idle,
        used,
      )
      | inr unknown ↦ (
        env.uv_ip4_addr host port,
        record w { clients = set w.clients id c'; next_handle = h + 1 },
        ground (arith, here, dir, idle, unknown),
        put-Connects w id h c w.trace here host port dir idle,
        used,
      )
    ]

connect_all-Connects :
    (env : Env) (peers : List PeerWithId) (w : World)
    → AllDialable w.clients peers
    → (w' : World) × (connect_all env peers w ≡ some (tt, w'))
      × Connects w w'
      × AllUsable w'.clients peers
unfolding connect_all
connect_all-Connects env [] w h =
    (w, refl, record { shell = refl; net = refl; dialables = λ j. refl; usables = λ j u. u }, tt)
connect_all-Connects env (p ∷ peers) w h =
    let (res, v, one, f, used) = connect-Connects env p.peer w h.0 in
    let (w', rest, g, all) =
      connect_all-Connects env peers v (All-map _ _ peers (λ q d. f.dialables q.peer ∙ d) h.1) in
    (
      w',
      ap (λ o. continue o (λ _. connect_all env peers)) one ∙ rest,
      record {
        shell = g.shell ∙ f.shell;
        net = g.net ∙ f.net;
        dialables = λ j. g.dialables j ∙ f.dialables j;
        usables = λ j u. g.usables j (f.usables j u);
      },
      (g.usables p.peer used, all),
    )

-- Once the handler listens, all outgoing peers are connected to, and messages can be sent to them.
pub listen_started_lem :
    (env : Env) (port : ℤ) (w : World)
    → RawIdle env
    → AllDialable w.clients w.net.peers_out
    → (w' : World) × (listen_started env port w ≡ some (tt, w'))
      × (w'.shell ≡ w.shell)
      × AllUsable w'.clients w'.net.peers_out
unfolding listen_started try_out_connections
listen_started_lem env port w idle h =
    let (v, added, d) = add_local_peers-AddsTo env idle port 3 0 w h in
    let (w', done, f, all) = connect_all-Connects env v.net.peers_out v d.dialable in
    (
      w',
      ap (λ o. continue o (λ _. try_out_connections env)) added ∙ done,
      f.shell ∙ d.shell,
      subst (λ n. AllUsable w'.clients n.peers_out) (sym f.net) all,
    )
