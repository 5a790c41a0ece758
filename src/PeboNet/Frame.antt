-- ===== src/PeboNet/Frame.antt =====
-- What broadcasts, answers and calls of the client leave alone.
use peerboot_cpp.Prelude.{ℕ, List, [], ◌∷◌}
use peerboot_cpp.Text.{Str, str_eq}
use peerboot_cpp.Store.{StoredPeer}
use peerboot_cpp.World.{World, Env, PeerWithId}
use peerboot_cpp.Machine.{pure}
use peerboot_cpp.Machine.Keeps.{Keeps, assert-Keeps, if_Keeps, bind_Keeps, done_Keeps, client-Keeps}
use peerboot_cpp.Message.{Message, PeerUpdateMessage, update}
use peerboot_cpp.NetClient.{send_message}
use peerboot_cpp.NetClient.Frame.{Frame, Frame-refl, Frame-trans, act-Frame, send_message-Frame}
use peerboot_cpp.Types.{PeerInfo, err_ok}
use peerboot_cpp.PeboNet.{
  info, forward, do_client_callback, send_to_all, do_broadcast_msg, send_answers, do_query,
}

done-Frame : {A : Type 0} (a : A) (w : World) → Keeps Frame (pure a) w
done-Frame a w = done_Keeps Frame w w a (Frame-refl w)

pub send_to_all-Frame :
    (env : Env) (msg : Message) (origin : Str) (peers : List PeerWithId) (w : World)
    → Keeps Frame (send_to_all env msg origin peers) w
unfolding send_to_all
send_to_all-Frame env msg origin [] w = done-Frame tt w
send_to_all-Frame env msg origin (p ∷ peers) w =
    if_Keeps Frame (str_eq p.node_addr origin) (send_to_all env msg origin peers) _ w
      (λ _. send_to_all-Frame env msg origin peers w)
      (λ _.
        bind_Keeps Frame Frame-trans (send_message env p.peer msg) _ w
          (send_message-Frame env p.peer msg w) (λ _ v _. send_to_all-Frame env msg origin peers v))

pub do_broadcast_msg-Frame :
    (env : Env) (msg : Message) (origin : Str) (w : World)
    → Keeps Frame (do_broadcast_msg env msg origin) w
unfolding do_broadcast_msg
do_broadcast_msg-Frame env msg origin w =
    bind_Keeps Frame Frame-trans (send_to_all env msg origin w.net.peers_out) (λ _. pure err_ok) w
      (send_to_all-Frame env msg origin w.net.peers_out w) (λ _ v _. done-Frame err_ok v)

pub do_client_callback-Frame :
    (peer : PeerInfo) (w : World) → Keeps Frame (do_client_callback peer) w
unfolding do_client_callback
do_client_callback-Frame peer w = assert-Keeps Frame w.net.has_notify_cb _ w λ _.
    if_Keeps Frame w.shell.has_callback _ (pure tt) w (λ _. done_Keeps Frame w _ tt (act-Frame w _))
      (λ _. done-Frame tt w)

pub forward-Frame :
    (env : Env) (id : ℕ) (m : PeerUpdateMessage) (w : World) → Keeps Frame (forward env id m) w
unfolding forward
forward-Frame env id m w =
    bind_Keeps Frame Frame-trans (do_client_callback (info m)) _ w
      (do_client_callback-Frame (info m) w)
      λ _ v _. client-Keeps Frame id _ v λ c _.
        bind_Keeps Frame Frame-trans (do_broadcast_msg env (update m) c.node_addr) (λ _. pure tt) v
          (do_broadcast_msg-Frame env (update m) c.node_addr v) (λ _ u _. done-Frame tt u)

pub send_answers-Frame :
    (env : Env) (id : ℕ) (peers : List StoredPeer) (w : World)
    → Keeps Frame (send_answers env id peers) w
unfolding send_answers
send_answers-Frame env id [] w = done-Frame tt w
send_answers-Frame env id (p ∷ peers) w =
    bind_Keeps Frame Frame-trans (send_message env id _) _ w (send_message-Frame env id _ w)
      (λ _ v _. send_answers-Frame env id peers v)

pub do_query-Frame :
    (env : Env) (id : ℕ) (service : Str) (w : World) → Keeps Frame (do_query env id service) w
unfolding do_query
do_query-Frame env id service w =
    bind_Keeps Frame Frame-trans (send_answers env id _) (λ _. pure err_ok) w
      (send_answers-Frame env id _ w) (λ _ v _. done-Frame err_ok v)
