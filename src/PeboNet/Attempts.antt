-- ===== src/PeboNet/Attempts.antt =====
-- What a broadcast does when writes may fail (NetClientBase::sendMessage, PeboNet::doBroadcastMsg).
use mathlib.Core.List.{Memᴰ, append_assoc, append-nil}
use mathlib.Core.List.Memᴰ
use peerboot_cpp.Prelude.{
  ℕ, ◌≡◌, ◌≢◌, refl, ap, sym, subst, ◌∙◌, true, some, none, List, [], ◌∷◌, ◌++◌, arith, get_elem?,
  set, get_elem?-set_ne, Bool-cases, Nat-cases, inl, inr, All-map, All,
}
use peerboot_cpp.Prelude.Int.{ℤ, pos, is_zero}
use peerboot_cpp.Text.{Str, str_eq}
use peerboot_cpp.Types.{err_ok}
use peerboot_cpp.World.{World, Env, Client, PeerWithId, Act, sending, closing, closed, null, wrote}
use peerboot_cpp.PeboNet.Trial.{tried_world, sent_ok, sent_closes, sent_closing}
use peerboot_cpp.Message.{Message}
use peerboot_cpp.NetClient.{send_message}
use peerboot_cpp.NetClient.Frame.{Frame, Frame-refl, Frame-trans, core, put-Frame, act-Frame}
use peerboot_cpp.PeboNet.{send_to_all, do_broadcast_msg}
use peerboot_cpp.PeboNet.Sends.{
  AllUsable, framed, is_usable, open_handle, open_handle-eq-some, opened, opened-client, recipients,
  usable, usable-set,
}
use peerboot_cpp.PeboNet.Broadcast.{usable-cases}

-- The connection is not one of the peers'.
abbrev pub NotAmong : ℕ → List PeerWithId → Type 0
NotAmong j = All (λ p. p.peer ≢ j)

-- Some acts later: the network, the shell and what connections received are the same, and so are the
-- usable connections; every connection of the peers that was open has had the bytes written to it.
pub record Attempts (w w' : World) (bytes : Str) (peers : List PeerWithId) : Type 0 where
  pub acts : List Act
  pub trace : w'.trace ≡ w.trace ++ acts
  pub frame : Frame w w'
  pub usables : (j : ℕ) → usable w'.clients j ≡ usable w.clients j
  pub elsewhere : (j : ℕ) → NotAmong j peers → get_elem? w'.clients j ≡ get_elem? w.clients j
  pub tried :
      (p : PeerWithId) (h : ℕ)
      → Memᴰ p peers
      → opened w.clients p.peer ≡ some h
      → Memᴰ (wrote p.peer h bytes) acts

-- Sending to one peer
module _ (env : Env) (p : PeerWithId) (msg : Message) (w : World) where
  attempted :
      (h : ℕ) (c c' : Client) (acts : List Act)
      → get_elem? w.clients p.peer ≡ some c
      → core (some c') ≡ core (some c)
      → is_usable (some c') ≡ is_usable (some c)
      → opened w.clients p.peer ≡ some h
      → Memᴰ (wrote p.peer h (framed msg)) acts
      → Attempts w (tried_world w p.peer c' acts) (framed msg) (p ∷ [])
  attempted h c c' acts here same u own tried = record {
    acts = acts;
    trace = refl;
    frame =
        Frame-trans w (record w { clients = set w.clients p.peer c' }) _
          (put-Frame w p.peer c here c' same) (act-Frame _ _);
    usables = λ j. usable-set w.clients p.peer j c c' here u;
    elsewhere = λ j n. get_elem?-set_ne w.clients p.peer j c' n.0;
    tried = λ q h' m own'.
        let e : q ≡ p = Memᴰ.eq_of_singleton m in
        subst (λ a. Memᴰ a acts) (cc (ap (λ x. x.peer) e, own, own')) tried;
  }

  idle_attempt : opened w.clients p.peer ≡ none → Attempts w w (framed msg) (p ∷ [])
  idle_attempt shut = record {
    acts = [];
    trace = sym (append-nil w.trace);
    frame = Frame-refl w;
    usables = λ j. refl;
    elsewhere = λ j n. refl;
    tried = λ q h' m own'.
        let e : q ≡ p = Memᴰ.eq_of_singleton m in absurd (cc (ap (λ x. x.peer) e, shut, own'));
  }

  send_message-Attempts :
      usable w.clients p.peer ≡ true
      → (z : ℤ) × (w' : World) × (send_message env p.peer msg w ≡ some (z, w'))
        × Attempts w w' (framed msg) (p ∷ [])
  send_message-Attempts u = elim (usable-cases env p.peer msg w u) [
    | inr (shut, dropped) ↦ (pos 0, w, dropped, idle_attempt shut)
    | inl (h, own) ↦
        let (c, here, opens) = opened-client w p.peer h own in
        let (live, on) = open_handle-eq-some c h opens in
        let usable_now : is_usable (some c) ≡ true = ground (arith, live, on) in
        elim (Bool-cases (is_zero (env.uv_write w.trace h (framed msg)))) [
          | inl ok ↦ (
            pos 0,
            _,
            sent_ok env p.peer h msg w c here live on ok,
            attempted h c (record c { state = sending }) _ here refl
                (ground (arith, on, usable_now)) own (Memᴰ.head refl),
          )
          | inr failed ↦
              elim (Bool-cases
                (env.uv_is_closing (w.trace ++ wrote p.peer h (framed msg) ∷ []) h)) [
                  | inl busy ↦ (
                    env.uv_write w.trace h (framed msg),
                    _,
                    sent_closing env p.peer h msg w c here live on failed busy,
                    attempted h c (record c { state = closed; stream = null }) _ here refl
                        (sym usable_now) own (Memᴰ.head refl),
                  )
                  | inr free ↦ (
                    env.uv_write w.trace h (framed msg),
                    _,
                    sent_closes env p.peer h msg w c here live on failed free,
                    attempted h c (record c { state = closing; stream = null }) _ here refl
                        (sym usable_now) own (Memᴰ.head refl),
                  )
                ]
        ]
  ]

-- First to one peer, then to the rest. A connection that stands for both has been written to already.
Attempts-cons :
    (u v w : World) (bytes : Str) (p : PeerWithId) (peers : List PeerWithId)
    → Attempts u v bytes (p ∷ [])
    → Attempts v w bytes peers
    → Attempts u w bytes (p ∷ peers)
Attempts-cons u v w bytes p peers f g = record {
  acts = f.acts ++ g.acts;
  trace = g.trace ∙ ap (λ t. t ++ g.acts) f.trace ∙ append_assoc u.trace f.acts g.acts;
  frame = Frame-trans u v w f.frame g.frame;
  usables = λ j. g.usables j ∙ f.usables j;
  elsewhere = λ j n. g.elsewhere j n.1 ∙ f.elsewhere j (n.0, tt);
  tried = λ q h m own. elim (Nat-cases p.peer q.peer) [
    | inl same ↦ Memᴰ.append_left g.acts (
        subst (λ i. Memᴰ (wrote i h bytes) f.acts) same
          (f.tried p h (Memᴰ.head refl) (ap (opened u.clients) same ∙ own)))
    | inr other ↦ elim (Memᴰ.cases_cons m) [
      | inl e ↦ absurd (other (ap (λ x. x.peer) (sym e)))
      | inr later ↦
          Memᴰ.append_right f.acts
            (g.tried q h later (ap open_handle (f.elsewhere q.peer (other, tt)) ∙ own))
    ]
  ];
}

Attempts-refl : (w : World) (bytes : Str) → Attempts w w bytes []
Attempts-refl w bytes = record {
  acts = [];
  trace = sym (append-nil w.trace);
  frame = Frame-refl w;
  usables = λ j. refl;
  elsewhere = λ j n. refl;
  tried = λ q h m own. absurd (Memᴰ.not-nil m);
}

send_to_all-Attempts :
    (env : Env) (msg : Message) (origin : Str) (peers : List PeerWithId) (w : World)
    → AllUsable w.clients (recipients origin peers)
    → (w' : World) × (send_to_all env msg origin peers w ≡ some (tt, w'))
      × Attempts w w' (framed msg) (recipients origin peers)
unfolding send_to_all
send_to_all-Attempts env msg origin [] w o = (w, refl, Attempts-refl w (framed msg))
send_to_all-Attempts env msg origin (p ∷ peers) w o =
    elim (Bool-cases (str_eq p.node_addr origin)) [
      | inl same ↦ rw same (send_to_all-Attempts env msg origin peers w (rw same at o))
      | inr other ↦
          let (u, o') = rw other at o in
          let (z, v, sent, f) = send_message-Attempts env p msg w u in
          let (w', done, g) =
            send_to_all-Attempts env msg origin peers v
              (All-map _ _ (recipients origin peers) (λ q e. f.usables q.peer ∙ e) o') in
          rw other
            (w', rw sent done, Attempts-cons w v w' (framed msg) p (recipients origin peers) f g)
    ]

-- Whatever libuv answers to the writes, a broadcast to recipients whose connections are open, or closing
-- or closed, returns err_ok, and every one of them whose connection was open has had the framed message written
-- to it, also after a write to another has failed and its connection was closed. The network, its store, the
-- shell and the buffers stay, and so do the connections that are not among the recipients'; the recipients'
-- connections are open, or closing or closed, afterwards.
pub do_broadcast_msg-Attempts :
    (env : Env) (msg : Message) (origin : Str) (w : World)
    → AllUsable w.clients (recipients origin w.net.peers_out)
    → (w' : World) × (do_broadcast_msg env msg origin w ≡ some (err_ok, w'))
      × Attempts w w' (framed msg) (recipients origin w.net.peers_out)
unfolding do_broadcast_msg
do_broadcast_msg-Attempts env msg origin w o =
    let (w', done, a) = send_to_all-Attempts env msg origin w.net.peers_out w o in (w', rw done, a)
