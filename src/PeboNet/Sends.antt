-- ===== src/PeboNet/Sends.antt =====
-- What can be seen of sending messages over connections, and which connections can be sent over.
use mathlib.Core.List.{append_assoc, append-nil}
use peerboot_cpp.Prelude.{
  ◌≢◌, get_elem?-set_ne, ℕ, ◌≡◌, refl, ap, sym, ◌∙◌, fun_ext, true, false, not, Option, none, some,
  List, [], ◌∷◌, ◌++◌, arith, All, All-map, select, get_elem?, set, observe-set, Bool, ◌||◌,
  Option-cases, inl, inr, if◌then◌else◌,
}
use peerboot_cpp.Prelude.Int.{pos, is_zero}
use peerboot_cpp.Text.{Str, str_eq}
use peerboot_cpp.World.{
  World, Env, Client, PeerWithId, Stream, Act, sending, wild, null, handle, wrote, read_started,
  closed_handle, connect_requested, bound, listened, accepted_on, notified,
}
use peerboot_cpp.PeboNet.Talks.{talks, talks-set, talks_in-sending}
use peerboot_cpp.Message.{Message, message_text}
use peerboot_cpp.NetClient.{send_message, is_shut}
use peerboot_cpp.NetClient.Frame.{Frame, Frame-refl, Frame-trans, send_message-Frame}

-- The handle of a connection that is open: not closing or closed, and with a stream.
abbrev pub stream_handle : Stream → Option ℕ
stream_handle wild = none
stream_handle null = none
stream_handle (handle h) = some h

abbrev pub open_handle : Option Client → Option ℕ
open_handle none = none
open_handle (some c) = if is_shut c.state then none else stream_handle c.stream

abbrev pub opened : List Client → ℕ → Option ℕ
opened cs id = open_handle (get_elem? cs id)

-- Every write succeeds.
abbrev pub WritesSucceed : Env → Type 0
WritesSucceed env = (t : List Act) (h : ℕ) (bytes : Str) → is_zero (env.uv_write t h bytes) ≡ true

-- The text of a message with its terminator
abbrev pub framed : Message → Str
framed msg = message_text msg ++ b'\n' ∷ []

pub opened-set :
    (cs : List Client) (id j : ℕ) (c c' : Client)
    → get_elem? cs id ≡ some c
    → open_handle (some c') ≡ open_handle (some c)
    → opened (set cs id c') j ≡ opened cs j
opened-set cs id j c c' h e = observe-set open_handle cs id j c' c h e

-- A message can be sent over an open connection; one that is closing or closed drops it. What is left
-- out is a connection that was never connected, or lost its stream otherwise.
abbrev pub has_handle : Stream → Bool
has_handle wild = false
has_handle null = false
has_handle (handle h) = true

abbrev pub is_usable : Option Client → Bool
is_usable none = false
is_usable (some c) = is_shut c.state || has_handle c.stream

abbrev pub usable : List Client → ℕ → Bool
usable cs id = is_usable (get_elem? cs id)

pub usable-set :
    (cs : List Client) (id j : ℕ) (c c' : Client)
    → get_elem? cs id ≡ some c
    → is_usable (some c') ≡ is_usable (some c)
    → usable (set cs id c') j ≡ usable cs j
usable-set cs id j c c' h e = observe-set is_usable cs id j c' c h e

-- None of the acts is a write by the connection `j`.
abbrev pub NotBy : ℕ → List Act → Type 0
NotBy j [] = Unit
NotBy j (wrote id h bytes ∷ acts) = (id ≢ j) × NotBy j acts
NotBy j (_ ∷ acts) = NotBy j acts

NotBy-append : (j : ℕ) (xs ys : List Act) → NotBy j (xs ++ ys) → NotBy j xs × NotBy j ys
NotBy-append j [] ys n = (tt, n)
NotBy-append j (wrote id h bytes ∷ xs) ys n = let (a, b) = NotBy-append j xs ys n.1 in ((n.0, a), b)
NotBy-append j (read_started h ∷ xs) ys n = NotBy-append j xs ys n
NotBy-append j (closed_handle h ∷ xs) ys n = NotBy-append j xs ys n
NotBy-append j (connect_requested h host port ∷ xs) ys n = NotBy-append j xs ys n
NotBy-append j (bound h port ∷ xs) ys n = NotBy-append j xs ys n
NotBy-append j (listened h port ∷ xs) ys n = NotBy-append j xs ys n
NotBy-append j (accepted_on h ∷ xs) ys n = NotBy-append j xs ys n
NotBy-append j (notified self peer ∷ xs) ys n = NotBy-append j xs ys n

-- The acts, and nothing else that can be seen from outside; the same connections are open, and the
-- same are usable.
pub record Sends (w w' : World) (acts : List Act) : Type 0 where
  pub trace : w'.trace ≡ w.trace ++ acts
  pub frame : Frame w w'
  pub opens : (j : ℕ) → opened w'.clients j ≡ opened w.clients j
  pub usables : (j : ℕ) → usable w'.clients j ≡ usable w.clients j
  pub others : (j : ℕ) → NotBy j acts → get_elem? w'.clients j ≡ get_elem? w.clients j
  pub talk : (j : ℕ) → talks (get_elem? w.clients j) ≡ true → talks (get_elem? w'.clients j) ≡ true

pub Sends-refl : (w : World) → Sends w w []
Sends-refl w = record {
  trace = sym (append-nil w.trace);
  frame = Frame-refl w;
  opens = λ j. refl;
  usables = λ j. refl;
  others = λ j n. refl;
  talk = λ j e. e;
}

pub Sends-trans :
    (u v w : World) (xs ys : List Act) → Sends u v xs → Sends v w ys → Sends u w (xs ++ ys)
Sends-trans u v w xs ys f g = record {
  trace = g.trace ∙ ap (λ t. t ++ ys) f.trace ∙ append_assoc u.trace xs ys;
  frame = Frame-trans u v w f.frame g.frame;
  opens = λ j. g.opens j ∙ f.opens j;
  usables = λ j. g.usables j ∙ f.usables j;
  others = λ j n. let (a, b) = NotBy-append j xs ys n in g.others j b ∙ f.others j a;
  talk = λ j e. g.talk j (f.talk j e);
}

pub opened-client :
    (w : World) (id h : ℕ)
    → opened w.clients id ≡ some h
    → (c : Client) × (get_elem? w.clients id ≡ some c) × (open_handle (some c) ≡ some h)
opened-client w id h own = elim (Option-cases (get_elem? w.clients id)) [
  | inl gone ↦ absurd (cc (ap open_handle gone, own))
  | inr (c, here) ↦ (c, here, sym (ap open_handle here) ∙ own)
]

pub open_handle-eq-some :
    (c : Client) (h : ℕ)
    → open_handle (some c) ≡ some h
    → (is_shut c.state ≡ false) × (c.stream ≡ handle h)
open_handle-eq-some c h e = ground arith

pub send_message-Sends :
    (env : Env) (id h : ℕ) (msg : Message) (w : World)
    → WritesSucceed env
    → opened w.clients id ≡ some h
    → (w' : World) × (send_message env id msg w ≡ some (pos 0, w'))
      × Sends w w' (wrote id h (framed msg) ∷ [])
unfolding send_message
send_message-Sends env id h msg w ok o = elim (Option-cases (get_elem? w.clients id)) [
  | inl e ↦ ground arith
  | inr (c, e) ↦
      let (live, on) = open_handle-eq-some c h (rw e at o) in
      let c' : Client = record c { state = sending } in
      let w' : World = record w {
        clients = set w.clients id c';
        trace = w.trace ++ wrote id h (framed msg) ∷ [];
      } in
      let done : send_message env id msg w ≡ some (pos 0, w') =
        ground (arith, e, live, on, ok w.trace h (framed msg)) in
      (
        w',
        done,
        record {
          trace = refl;
          frame = send_message-Frame env id msg w (pos 0) w' done;
          opens = λ j. opened-set w.clients id j c c' e (ground (arith, live));
          usables = λ j. usable-set w.clients id j c c' e (ground (arith, live, on));
          others = λ j n. get_elem?-set_ne w.clients id j c' n.0;
          talk = λ j. talks-set w.clients id j c c' e (talks_in-sending c.direction c.state);
        },
      )
]

-- The acts of sending the bytes to the peers in turn, over their handles.
abbrev pub writes : (ℕ → Option ℕ) → Str → List PeerWithId → List Act
writes f bytes [] = []
writes f bytes (p ∷ peers) = elim (f p.peer) [
  | none ↦ writes f bytes peers
  | some h ↦ wrote p.peer h bytes ∷ writes f bytes peers
]

-- The peers with another address than the one that the message came from, in order.
abbrev pub recipients : Str → List PeerWithId → List PeerWithId
recipients origin = select (λ p. not (str_eq p.node_addr origin))

-- Every peer's connection is open, or closing or closed.
abbrev pub AllUsable : List Client → List PeerWithId → Type 0
AllUsable cs = All (λ p. usable cs p.peer ≡ true)

pub writes-cong :
    (f g : ℕ → Option ℕ) (bytes : Str) (peers : List PeerWithId)
    → ((j : ℕ) → f j ≡ g j)
    → writes f bytes peers ≡ writes g bytes peers
writes-cong f g bytes peers h = rw (fun_ext h)

-- Openness and the acts to expect are the same after a send.
pub AllUsable-Sends :
    (w v : World) (acts : List Act) (peers : List PeerWithId)
    → Sends w v acts
    → AllUsable w.clients peers
    → AllUsable v.clients peers
AllUsable-Sends w v acts peers s = All-map _ _ peers (λ p e. s.usables p.peer ∙ e)

pub Sends-writes :
    (w v w' : World) (p : PeerWithId) (h : ℕ) (bytes : Str) (peers : List PeerWithId)
    → opened w.clients p.peer ≡ some h
    → Sends w v (wrote p.peer h bytes ∷ [])
    → Sends v w' (writes (opened v.clients) bytes peers)
    → Sends w w' (writes (opened w.clients) bytes (p ∷ peers))
Sends-writes w v w' p h bytes peers e f g =
    rw (e, writes, ← writes-cong (opened v.clients) (opened w.clients) bytes peers f.opens)
      (Sends-trans w v w' _ _ f g)
