-- ===== src/PeboNet/Answers.antt =====
-- What the answer to a query sends.
use peerboot_cpp.Prelude.{ℕ, ◌≡◌, refl, ◌∙◌, some, List, [], ◌∷◌, map}
use peerboot_cpp.Text.{Str}
use peerboot_cpp.TimeStamp.{now}
use peerboot_cpp.Store.{StoredPeer, query}
use peerboot_cpp.World.{World, Env, wrote}
use peerboot_cpp.Message.{Message, update, message_text, peer_update_message}
use peerboot_cpp.Types.{err_ok}
use peerboot_cpp.PeboNet.{send_answers, do_query}
use peerboot_cpp.PeboNet.Sends.{
  WritesSucceed, opened, framed, Sends, Sends-refl, Sends-trans, send_message-Sends,
}

-- The message about a stored peer, whenever it is made.
abbrev pub answer : StoredPeer → Message
answer p = update (record {
  created_time = 0;
  service = p.service;
  endpoint = p.endpoint;
  last_seen = p.last_seen;
  is_removed = p.is_removed;
})

pub send_answers-Sends :
    (env : Env) (id h : ℕ) (peers : List StoredPeer) (w : World)
    → WritesSucceed env
    → opened w.clients id ≡ some h
    → (w' : World) × (send_answers env id peers w ≡ some (tt, w'))
      × Sends w w' (map (λ p. wrote id h (framed (answer p))) peers)
unfolding send_answers message_text
send_answers-Sends env id h [] w ok o = (w, refl, Sends-refl w)
send_answers-Sends env id h (p ∷ peers) w ok o =
    let t = now (env.seconds w.trace) in
    let msg = peer_update_message t p.service p.endpoint p.last_seen p.is_removed 0 in
    let (v, sent, f) = send_message-Sends env id h msg w ok o in
    let (w', done, g) = send_answers-Sends env id h peers v ok (f.opens id ∙ o) in
    (w', rw sent done, Sends-trans w v w' (wrote id h (framed (answer p)) ∷ []) _ f g)

-- A query is answered to the connection that asked, and to no other: one message for each answer of
-- the store, in the store's order, and nothing else happens outside; the store stays. (The
-- connection is open and the writes succeed.)
pub do_query_lem :
    (env : Env) (id h : ℕ) (service : Str) (w : World)
    → WritesSucceed env
    → opened w.clients id ≡ some h
    → (w' : World) × (do_query env id service w ≡ some (err_ok, w'))
      × Sends w w' (map (λ p. wrote id h (framed (answer p))) (query w.net.store service))
unfolding do_query
do_query_lem env id h service w ok o =
    let (w', done, s) = send_answers-Sends env id h (query w.net.store service) w ok o in
    (w', rw done, s)
