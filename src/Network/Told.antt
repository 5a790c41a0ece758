-- ===== src/Network/Told.antt =====
-- What the clients of the nodes are told while an announcement travels.
use mathlib.Core.List.{append_assoc, append-nil}
use peerboot_cpp.Prelude.{
  ℕ, ◌≡◌, refl, ap, ap₂, subst, sym, ◌∙◌, Bool, true, false, some, Option, List, [], ◌∷◌, ◌++◌,
  get_elem?, set, Bool-cases, Option-cases, Nat-cases, inl, inr, get_elem?-set_ne,
  get_elem?-set_self,
}
use peerboot_cpp.Text.{Str}
use peerboot_cpp.Types.{PeerInfo}
use peerboot_cpp.World.{
  World, PeerWithId, Act, wrote, read_started, closed_handle, connect_requested, bound, listened,
  accepted_on, notified,
}
use peerboot_cpp.Message.{PeerUpdateMessage, update}
use peerboot_cpp.PeboNet.Sends.{writes, framed, opened}
use peerboot_cpp.Network.Graph.{has_peer, has_peer_in}
use peerboot_cpp.Node.Relay.{greeting}
use peerboot_cpp.Network.Hears.{Heard, passed_on}

-- The peers that the client is told of, in order
abbrev pub told_of : List Act → List PeerInfo
told_of [] = []
told_of (notified self peer ∷ acts) = peer ∷ told_of acts
told_of (_ ∷ acts) = told_of acts

told_of-append : (xs ys : List Act) → told_of (xs ++ ys) ≡ told_of xs ++ told_of ys
told_of-append [] ys = refl
told_of-append (notified self peer ∷ xs) ys = ap (◌∷◌ peer) (told_of-append xs ys)
told_of-append (wrote id h bytes ∷ xs) ys = told_of-append xs ys
told_of-append (read_started h ∷ xs) ys = told_of-append xs ys
told_of-append (closed_handle h ∷ xs) ys = told_of-append xs ys
told_of-append (connect_requested h host port ∷ xs) ys = told_of-append xs ys
told_of-append (bound h port ∷ xs) ys = told_of-append xs ys
told_of-append (listened h port ∷ xs) ys = told_of-append xs ys
told_of-append (accepted_on h ∷ xs) ys = told_of-append xs ys

told_of-writes :
    (f : ℕ → Option ℕ) (bytes : Str) (to : List PeerWithId) → told_of (writes f bytes to) ≡ []
told_of-writes f bytes [] = refl
told_of-writes f bytes (p ∷ to) = elim (Option-cases (f p.peer)) [
  | inl e ↦ rw (e, writes) (told_of-writes f bytes to)
  | inr (h, e) ↦ rw (e, writes) (told_of-writes f bytes to)
]

-- What a client is to be told: of the peer, if the node has got it in between.
abbrev pub due : PeerInfo → Bool → Bool → List PeerInfo
due peer true after = []
due peer false true = peer ∷ []
due peer false false = []

-- Between the two worlds the client has been told just that, and the node has not lost the peer.
pub record Told (m : PeerUpdateMessage) (w v : World) : Type 0 where
  pub acts : List Act
  pub trace : v.trace ≡ w.trace ++ acts
  pub hears : told_of acts ≡ due (greeting m) (has_peer m w) (has_peer m v)
  pub keeps : has_peer m w ≡ true → has_peer m v ≡ true

pub due_same : (peer : PeerInfo) (b : Bool) → due peer b b ≡ []
due_same peer true = refl
due_same peer false = refl

due-append :
    (peer : PeerInfo) (a b c : Bool)
    → (a ≡ true → b ≡ true)
    → (b ≡ true → c ≡ true)
    → due peer a b ++ due peer b c ≡ due peer a c
due-append peer true true c k l = refl
due-append peer true false c k l = absurd (cc (k refl))
due-append peer false true true k l = refl
due-append peer false true false k l = absurd (cc (l refl))
due-append peer false false c k l = refl

Told-trans : (m : PeerUpdateMessage) (u v w : World) → Told m u v → Told m v w → Told m u w
Told-trans m u v w f g = record {
  acts = f.acts ++ g.acts;
  trace = g.trace ∙ ap (λ t. t ++ g.acts) f.trace ∙ append_assoc u.trace f.acts g.acts;
  hears =
      told_of-append f.acts g.acts
      ∙ ap₂ (λ x y. x ++ y) f.hears g.hears
      ∙ due-append (greeting m) (has_peer m u) (has_peer m v) (has_peer m w) f.keeps g.keeps;
  keeps = λ e. g.keeps (f.keeps e);
}

-- Writing tells nobody.
pub writes-Told :
    (m : PeerUpdateMessage) (w v : World) (f : ℕ → Option ℕ) (bytes : Str) (to : List PeerWithId)
    → v.trace ≡ w.trace ++ writes f bytes to
    → v.net ≡ w.net
    → Told m w v
writes-Told m w v f bytes to trace net =
    let same : has_peer m v ≡ has_peer m w = ap (has_peer_in m) net in
    record {
      acts = writes f bytes to;
      trace = trace;
      hears =
          told_of-writes f bytes to
          ∙ sym (ap (due (greeting m) (has_peer m w)) same ∙ due_same (greeting m) (has_peer m w));
      keeps = λ e. same ∙ e;
    }

pub Heard-Told : (m : PeerUpdateMessage) (w v : World) → Heard w v m → Told m w v
Heard-Told m w v h = record {
  acts = passed_on w m;
  trace = h.trace;
  hears = elim (Bool-cases (has_peer m w)) [
    | inl known ↦ rw (known, due) refl
    | inr news ↦
        rw (news, h.knows, due)
          (ap (◌∷◌ (greeting m))
            (told_of-writes (opened w.clients) (framed (update m)) w.net.peers_out))
  ];
  keeps = λ e. h.knows;
}

-- So it is for each of the nodes.
abbrev pub AllTold : PeerUpdateMessage → List World → List World → Type 0
AllTold m nodes nodes' =
    (k : ℕ) (w : World)
    → get_elem? nodes k ≡ some w
    → (v : World) × (get_elem? nodes' k ≡ some v) × Told m w v

Told-refl : (m : PeerUpdateMessage) (w : World) → Told m w w
Told-refl m w = record {
  acts = [];
  trace = sym (append-nil w.trace);
  hears = sym (due_same (greeting m) (has_peer m w));
  keeps = λ e. e;
}

pub AllTold-refl : (m : PeerUpdateMessage) (nodes : List World) → AllTold m nodes nodes
AllTold-refl m nodes k w e = (w, e, Told-refl m w)

-- Whatever has been told, one node more has been told something.
pub AllTold-set :
    (m : PeerUpdateMessage) (nodes nodes' : List World) (j : ℕ) (u v : World)
    → AllTold m nodes nodes'
    → get_elem? nodes' j ≡ some u
    → Told m u v
    → AllTold m nodes (set nodes' j v)
AllTold-set m nodes nodes' j u v all here told k w e =
    let (x, there, so_far) = all k w e in
    elim (Nat-cases j k) [
      | inl same ↦
          let p : u ≡ x = cc (same, here, there) in
          (
            v,
            subst (λ i. get_elem? (set nodes' j v) i ≡ some v) same
                (get_elem?-set_self nodes' j v u here),
            Told-trans m w x v so_far (subst (λ y. Told m y v) p told),
          )
      | inr other ↦ (x, get_elem?-set_ne nodes' j k v other ∙ there, so_far)
    ]
