-- ===== src/NetClient/Receive/Linked.antt =====
-- The methods on received bytes, and the links of the node.
use peerboot_cpp.Prelude.{
  ℕ, zero, suc, ◌+◌, refl, false, Option, some, none, ◌++◌, if◌then◌else◌, length, Option-cases,
  inl, inr,
}
use peerboot_cpp.Prelude.Int.{ℤ, is_zero, is_negative}
use peerboot_cpp.Text.{Str, split_at}
use peerboot_cpp.Message.{peer_update_message, query_message}
use peerboot_cpp.Wire.{
  Line, too_few_tokens, wrong_prefix, unparseable, peer_line, query_line, interpret,
}
use peerboot_cpp.World.{Env, received, closed_handle}
use peerboot_cpp.Machine.{pure, act, or_fault, ◌>>◌}
use peerboot_cpp.Machine.Keeps.{client-Keeps}
use peerboot_cpp.Node.Safe.{
  Kept, Safe, bind-Safe, pure-Safe, fault-Safe, if-Safe, act-Safe, put_client-Keeps, set_state-Safe,
}
use peerboot_cpp.NetClient.{set_state, process}
use peerboot_cpp.NetClient.Linked.{process-Safe}
use peerboot_cpp.PeboNet.{clock}
use peerboot_cpp.PeboNet.Linked.{clock-Safe, msg_from_pebo_peer-Safe}
use peerboot_cpp.NetClient.Receive.{
  handle_line, process_lines, do_process_received_buffer, c_string, append_received, on_read,
}

handle_line-Safe : (env : Env) (id : ℕ) (l : Line) → Safe (handle_line env id l)
unfolding handle_line
handle_line-Safe env id (peer_line s e t) =
    bind-Safe (set_state id received) _ (set_state-Safe id received) λ _.
      bind-Safe (clock env) _ (clock-Safe env)
        λ now. msg_from_pebo_peer-Safe env id (peer_update_message now s e t false 0)
handle_line-Safe env id (query_line s) =
    bind-Safe (set_state id received) _ (set_state-Safe id received) λ _.
      bind-Safe (clock env) _ (clock-Safe env)
        λ now. msg_from_pebo_peer-Safe env id (query_message now s 0)
handle_line-Safe env id too_few_tokens = pure-Safe tt
handle_line-Safe env id wrong_prefix = pure-Safe tt
handle_line-Safe env id unparseable = pure-Safe tt

process_lines-Safe : (env : Env) (fuel id : ℕ) → Safe (process_lines env fuel id)
unfolding process_lines
process_lines-Safe env zero id w = fault-Safe w
process_lines-Safe env (suc fuel) id w = client-Keeps Kept id _ w λ c here.
    elim (Option-cases (split_at b'\n' c.receive_buffer)) [
      | inl e ↦ rw e (pure-Safe tt w)
      | inr ((line, rest), e) ↦ rw e (
          put_client-Keeps id c (record c { receive_buffer = rest }) _ w here refl (λ h k. k)
            (bind-Safe (handle_line env id (interpret line)) _
              (handle_line-Safe env id (interpret line)) (λ _. process_lines-Safe env fuel id)))
    ]

do_process_received_buffer-Safe : (env : Env) (id : ℕ) → Safe (do_process_received_buffer env id)
unfolding do_process_received_buffer
do_process_received_buffer-Safe env id w =
    client-Keeps Kept id _ w (λ c _. process_lines-Safe env (length c.receive_buffer + 1) id w)

append_received-Safe : (env : Env) (id : ℕ) (base : Option Str) → Safe (append_received env id base)
unfolding append_received
append_received-Safe env id none = pure-Safe tt
append_received-Safe env id (some base) =
    bind-Safe (or_fault (c_string base)) _ (string_or_fault (c_string base)) λ s w.
      client-Keeps Kept id _ w λ c here.
        put_client-Keeps id c (record c { receive_buffer = c.receive_buffer ++ s }) _ w here refl
          (λ h k. k) (do_process_received_buffer-Safe env id)
  where
    string_or_fault : (o : Option Str) → Safe (or_fault o)
    string_or_fault none = fault-Safe
    string_or_fault (some s) = pure-Safe s

pub on_read-Safe :
    (env : Env) (id h : ℕ) (nread : ℤ) (base : Option Str) → Safe (on_read env id h nread base)
unfolding on_read
on_read-Safe env id h nread base =
    if-Safe (is_negative nread) (act (closed_handle h))
      (if is_zero nread then pure tt else (append_received env id base >> process env id))
      (act-Safe (closed_handle h))
      (if-Safe (is_zero nread) (pure tt) (append_received env id base >> process env id)
        (pure-Safe tt)
        (bind-Safe (append_received env id base) _ (append_received-Safe env id base)
          (λ _. process-Safe env id)))
