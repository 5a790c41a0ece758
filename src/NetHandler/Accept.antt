-- ===== src/NetHandler/Accept.antt =====
-- What becomes of a connection that is accepted.
use peerboot_cpp.Prelude.{
  ℕ, ◌+◌, ◌≡◌, refl, true, false, some, List, [], ◌∷◌, ◌++◌, arith, get_elem?-append_last, set,
  length,
}
use peerboot_cpp.Prelude.Int.{pos, is_negative}
use peerboot_cpp.Text.{Str}
use peerboot_cpp.World.{World, Env, receiving, accepted_on, read_started}
use peerboot_cpp.NetClient.{net_client_in, do_read}
use peerboot_cpp.PeboNet.{in_connection_received, add_in_peer}
use peerboot_cpp.NetHandler.{get_remote_address, accept, on_new_connection}

-- Replacing the element behind a list
set-append {ℓ} :
    {A : Type ℓ} (xs : List A) (x y : A) → set (xs ++ x ∷ []) (length xs) y ≡ xs ++ y ∷ []
set-append [] x y = refl
set-append (z ∷ xs) x y = ground (arith, set-append xs x y)

-- The address of the remote end, as the node reads it when it accepts.
abbrev pub remote_address : Env → World → Str
remote_address env w =
    get_remote_address
      (env.uv_tcp_getpeername (w.trace ++ accepted_on w.next_handle ∷ []) w.next_handle)

-- The world with the new connection, which is being read.
abbrev pub welcomed : Env → World → World
welcomed env w =
    let h = w.next_handle in
    let addr = remote_address env w in
    record w {
      clients = w.clients ++ record (net_client_in h addr) { state = receiving } ∷ [];
      net = record w.net {
        peers_in = w.net.peers_in ++ record { node_addr = addr; peer = length w.clients } ∷ [];
      };
      trace = (w.trace ++ accepted_on h ∷ []) ++ read_started h ∷ [];
      next_handle = h + 1;
    }

-- The steps of accepting a connection and starting to read it
pub on_new_connection-welcomed :
    (env : Env) (n : ℕ) (w : World)
    → w.shell.has_pebo_net ≡ true
    → is_negative (env.uv_accept w.trace w.next_handle) ≡ false
    → is_negative (env.uv_read_start (w.trace ++ accepted_on w.next_handle ∷ []) w.next_handle)
      ≡ false
    → on_new_connection env (pos n) w ≡ some (tt, welcomed env w)
unfolding on_new_connection accept in_connection_received add_in_peer do_read net_client_in
on_new_connection-welcomed env n w here taken read =
    let h = w.next_handle in
    let addr = get_remote_address (env.uv_tcp_getpeername (w.trace ++ accepted_on h ∷ []) h) in
    let c = net_client_in h addr in
    ground (
      arith,
      here,
      taken,
      read,
      get_elem?-append_last w.clients c,
      set-append w.clients c (record c { state = receiving }),
    )
