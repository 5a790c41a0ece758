-- ===== src/NetClient/Completion.antt =====
-- An outgoing connection that is told that a write of its has completed (NetClientBase::onWrite and
-- NetClientOut::process): it goes on reading.
use peerboot_cpp.Prelude.{ℕ, ◌≡◌, true, false, some, [], ◌∷◌, ◌++◌, arith, get_elem?, set, List}
use peerboot_cpp.Prelude.Int.{pos, is_negative}
use peerboot_cpp.World.{World, Env, Client, Act, receiving, read_started}
use peerboot_cpp.NetClient.{on_write}
use peerboot_cpp.PeboNet.Sends.{open_handle, open_handle-eq-some}
use peerboot_cpp.PeboNet.Talks.{talks}

-- Every read can be started, also on a stream that is being read already, as libuv allows it up to
-- 1.37; from 1.38 on it answers UV_EALREADY there.
abbrev pub ReadsStart : Env → Type 0
ReadsStart env = (t : List Act) (h : ℕ) → is_negative (env.uv_read_start t h) ≡ false

abbrev pub reading : World → ℕ → ℕ → Client → World
reading w id h c = record w {
  clients = set w.clients id (record c { state = receiving });
  trace = w.trace ++ read_started h ∷ [];
}

pub on_write_reads :
    (env : Env) (id h : ℕ) (w : World) (c : Client)
    → ReadsStart env
    → get_elem? w.clients id ≡ some c
    → open_handle (some c) ≡ some h
    → talks (some c) ≡ true
    → on_write env id (pos 0) w ≡ some (tt, reading w id h c)
unfolding on_write
on_write_reads env id h w c ok here own talking =
    let (live, on) = open_handle-eq-some c h own in ground (arith, here, on, talking, ok w.trace h)
