-- ===== src/Machine.antt =====
-- Methods that read and write the world and may fail. A fault is a failed `assert`, an exception
-- that nothing catches, or undefined behaviour such as the use of an uninitialised pointer.
pub mod Keeps
use peerboot_cpp.Prelude.{
  ℕ, ◌+◌, Bool, true, false, Option, none, some, List, [], ◌∷◌, ◌++◌, get_elem?, set, length,
}
use peerboot_cpp.Types.{PeerInfo}
use peerboot_cpp.World.{World, Client, Act, PeboNet, Shell, Stream, wild, null, handle}

abbrev pub M : Type 0 → Type 0
M A = World → Option (A × World)

abbrev pub pure : {A : Type 0} → A → M A
pure a w = some (a, w)

abbrev pub fault : {A : Type 0} → M A
fault w = none

abbrev pub continue : {A B : Type 0} → Option (A × World) → (A → M B) → Option (B × World)
continue none f = none
continue (some (a, w)) f = f a w

infixl 5 ◌>>=◌ ◌>>◌
abbrev pub ◌>>=◌ : {A B : Type 0} → M A → (A → M B) → M B
◌>>=◌ m f w = continue (m w) f

abbrev pub ◌>>◌ : {A B : Type 0} → M A → M B → M B
m >> k = m >>= λ _. k

abbrev pub assert : Bool → M (Unit {0})
assert true = pure tt
assert false = fault

-- A connection by its position.
abbrev pub or_fault : {A : Type 0} → Option A → M A
or_fault none = fault
or_fault (some a) = pure a

abbrev pub client : ℕ → M Client
client id w = or_fault (get_elem? w.clients id) w

abbrev pub put_client : ℕ → Client → M (Unit {0})
put_client id c w = some (tt, record w { clients = set w.clients id c })

abbrev pub act : Act → M (Unit {0})
act a w = some (tt, record w { trace = w.trace ++ a ∷ [] })

abbrev pub trace : M (List Act)
trace w = some (w.trace, w)

abbrev pub get_net : M PeboNet
get_net w = some (w.net, w)

abbrev pub put_net : PeboNet → M (Unit {0})
put_net net w = some (tt, record w { net = net })

abbrev pub get_shell : M Shell
get_shell w = some (w.shell, w)

abbrev pub put_shell : Shell → M (Unit {0})
put_shell shell w = some (tt, record w { shell = shell })

-- `new uv_tcp_t()`
abbrev pub new_handle : M ℕ
new_handle w = some (w.next_handle, record w { next_handle = w.next_handle + 1 })

-- `make_shared` of a connection: its position
abbrev pub new_client : Client → M ℕ
new_client c w = some (length w.clients, record w { clients = w.clients ++ c ∷ [] })

-- A stream that libuv is called on.
abbrev pub handle_of : Stream → M ℕ
handle_of wild = fault
handle_of null = fault
handle_of (handle h) = pure h
