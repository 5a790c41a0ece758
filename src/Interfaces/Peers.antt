-- ===== src/Interfaces/Peers.antt =====
-- A query is answered through the interface of the peer that asked (PeboNet::doQuery).
use peerboot_cpp.Prelude.{ℕ, ◌≡◌, refl, List, [], ◌∷◌}
use peerboot_cpp.Store.{StoredPeer}
use peerboot_cpp.World.{Env}
use peerboot_cpp.Machine.{M, pure, ◌>>=◌, ◌>>◌}
use peerboot_cpp.Message.{peer_update_message}
use peerboot_cpp.PeboNet.{clock, send_answers}
use peerboot_cpp.Interfaces.{IPeboPeer}
use peerboot_cpp.Interfaces.Classes.{net_client_peer}

-- To any peer
abbrev send_answers_to : Env → IPeboPeer → List StoredPeer → M (Unit {0})
send_answers_to env peer [] = pure tt
send_answers_to env peer (p ∷ rest) = do
  t ← clock env
  peer.send_message (peer_update_message t p.service p.endpoint p.last_seen p.is_removed 0)
  send_answers_to env peer rest

send_answers-send_answers_to :
    (env : Env) (id : ℕ) (answers : List StoredPeer)
    → send_answers env id answers ≡ send_answers_to env (net_client_peer env id) answers
unfolding send_answers
send_answers-send_answers_to env id [] = refl
send_answers-send_answers_to env id (p ∷ rest) = rw (send_answers-send_answers_to env id rest) refl
