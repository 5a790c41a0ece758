-- ===== src/WriteRequest.antt =====
-- Write requests (src/peerboot/uv_socket.hpp, src/peerboot/uv_socket.cpp), which keep the bytes of a
-- write for libuv, and the one that NetClientBase::sendMessage makes of a message.
use peerboot_cpp.Prelude.{
  ℕ, ◌<◌, ◌≤◌, ◌≡◌, refl, lt→ltb, List, [], ◌∷◌, ◌++◌, Option, none, some, arith, length, ltb,
  if◌then◌else◌,
}
use peerboot_cpp.Text.{Str}
use peerboot_cpp.Message.{Message, message_text}
use peerboot_cpp.PeboNet.Sends.{framed}

-- The socket, the number of buffers that `bufs` has room for, and the buffers that are filled; `nbuf`
-- is the length of `bufs`.
pub record UvWriteRequest : Type 0 where
  pub uv_socket : ℕ
  pub room : ℕ
  pub bufs : List Str

abbrev pub uv_write_request : ℕ → ℕ → UvWriteRequest
uv_write_request uv_socket nbuf = record { uv_socket = uv_socket; room = nbuf; bufs = [] }

-- `none` is undefined behaviour: `&buf[0]` of an empty vector, or a write behind the end of `bufs`.
unfoldable pub add : Str → UvWriteRequest → Option UvWriteRequest
add [] req = none
add (c ∷ buf) req =
    if ltb (length req.bufs) req.room
    then some (record req { bufs = req.bufs ++ (c ∷ buf) ∷ [] })
    else none

-- What the destructor frees: the filled buffers.
abbrev pub freed : UvWriteRequest → List Str
freed req = req.bufs

-- sendMessage: the request for a message of the connection `id`
unfoldable pub message_request : ℕ → Message → Option UvWriteRequest
unfolding add
message_request id msg = add (message_text msg ++ b'\n' ∷ []) (uv_write_request id 1)

-- The filled buffers have room.
abbrev pub HasRoom : UvWriteRequest → Type 0
HasRoom req = length req.bufs ≤ req.room

add-terminated :
    (s : Str) (c : ℕ) (req : UvWriteRequest)
    → length req.bufs < req.room
    → add (s ++ c ∷ []) req ≡ some (record req { bufs = req.bufs ++ (s ++ c ∷ []) ∷ [] })
unfolding add
add-terminated [] c req h = rw (lt→ltb (length req.bufs) req.room h) refl
add-terminated (x ∷ s) c req h = rw (lt→ltb (length req.bufs) req.room h) refl

-- A full request takes no further buffer.
add_full : (buf : Str) (req : UvWriteRequest) → length req.bufs ≡ req.room → add buf req ≡ none
unfolding add
add_full [] req h = refl
add_full (c ∷ buf) req h = ground arith

-- The request for a message, of whatever kind and text, never writes behind the end of its buffers: it
-- holds one buffer, which has the framed text. A further buffer would not fit.
pub message_request_lem :
    (id : ℕ) (msg : Message)
    → (req : UvWriteRequest) × (message_request id msg ≡ some req)
      × (req.bufs ≡ framed msg ∷ [])
      × HasRoom req
      × ((buf : Str) → add buf req ≡ none)
unfolding message_request
message_request_lem id msg =
    let req : UvWriteRequest = record { uv_socket = id; room = 1; bufs = framed msg ∷ [] } in
    (
      req,
      add-terminated (message_text msg) b'\n' (uv_write_request id 1) (omega arith),
      refl,
      omega arith,
      λ buf. add_full buf req refl,
    )
