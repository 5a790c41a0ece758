-- ===== src/Node/Safe.antt =====
-- Methods that keep a node linked, one rule for each way to build a method.
use peerboot_cpp.Prelude.{
  ℕ, ◌+◌, ◌≡◌, refl, Bool, true, false, some, List, [], ◌∷◌, ◌++◌, arith, get_elem?, if◌then◌else◌,
}
use peerboot_cpp.World.{World, Client, State, Stream, Shell, Act, null, handle}
use peerboot_cpp.Store.{Store}
use peerboot_cpp.Store.WellFormed.{IsWellFormed}
use peerboot_cpp.Machine.{
  M, pure, fault, ◌>>=◌, ◌>>◌, assert, put_client, act, trace, get_net, get_shell, put_shell,
  new_handle, handle_of,
}
use peerboot_cpp.Machine.Keeps.{Keeps, fault-Keeps, done_Keeps, if_Keeps, client-Keeps, bind_Keeps}
use peerboot_cpp.NetClient.{set_state}
use peerboot_cpp.Node.Linked.{IsLinked, link_of, put_IsLinked}
use peerboot_cpp.PeboNet.Sends.{stream_handle}

abbrev pub Kept : World → World → Type 0
Kept w w' = IsLinked w → IsLinked w'

abbrev pub Safe : {A : Type 0} → M A → Type 0
Safe {A} m = (w : World) → Keeps Kept m w

pub Kept-trans : (u v w : World) → Kept u v → Kept v w → Kept u w
Kept-trans u v w f g l = g (f l)

pub bind-Safe :
    {A B : Type 0} (m : M A) (f : A → M B) → Safe m → ((a : A) → Safe (f a)) → Safe (m >>= f)
bind-Safe m f hm hf w = bind_Keeps Kept Kept-trans m f w (hm w) (λ a v _. hf a v)

pub pure-Safe : {A : Type 0} (a : A) → Safe (pure a)
pure-Safe a w = done_Keeps Kept w w a (λ l. l)

pub fault-Safe : {A : Type 0} → Safe (fault {A = A})
fault-Safe w = fault-Keeps Kept w

pub if-Safe : {A : Type 0} (b : Bool) (m n : M A) → Safe m → Safe n → Safe (if b then m else n)
if-Safe b m n hm hn w = if_Keeps Kept b m n w (λ _. hm w) (λ _. hn w)

pub assert-Safe : (b : Bool) → Safe (assert b)
assert-Safe true = pure-Safe tt
assert-Safe false = fault-Safe

pub handle_of-Safe : (s : Stream) → Safe (handle_of s)
handle_of-Safe Stream.wild = fault-Safe
handle_of-Safe null = fault-Safe
handle_of-Safe (handle h) = pure-Safe h

-- What has no part in the links.
pub rest_IsLinked :
    {w : World} (t : List Act) (s : Shell) (b : Bool)
    → IsLinked w
    → IsLinked (record w { trace = t; shell = s; has_instance = b })
rest_IsLinked t s b l = record {
  fresh = l.fresh;
  apart = l.apart;
  outs = l.outs;
  ins = l.ins;
  filed = l.filed;
}

pub act-Safe : (a : Act) → Safe (act a)
act-Safe a w = done_Keeps Kept w _ tt (rest_IsLinked (w.trace ++ a ∷ []) w.shell w.has_instance)

pub put_shell-Safe : (s : Shell) → Safe (put_shell s)
put_shell-Safe s w = done_Keeps Kept w _ tt (rest_IsLinked w.trace s w.has_instance)

pub trace-Safe : Safe trace
trace-Safe w = done_Keeps Kept w w w.trace (λ l. l)

pub get_net-Safe : Safe get_net
get_net-Safe w = done_Keeps Kept w w w.net (λ l. l)

pub get_shell-Safe : Safe get_shell
get_shell-Safe w = done_Keeps Kept w w w.shell (λ l. l)

-- A handle that is not used.
pub next_IsLinked :
    {w : World} → IsLinked w → IsLinked (record w { next_handle = w.next_handle + 1 })
next_IsLinked l = record {
  fresh = λ i h e. omega (arith, l.fresh i h e);
  apart = l.apart;
  outs = l.outs;
  ins = l.ins;
  filed = l.filed;
}

pub new_handle-Safe : Safe new_handle
new_handle-Safe w = done_Keeps Kept w _ w.next_handle next_IsLinked

pub store_IsLinked :
    {w : World} (store : Store)
    → IsWellFormed store
    → IsLinked w
    → IsLinked (record w { net = record w.net { store = store } })
store_IsLinked store filed l = record {
  fresh = l.fresh;
  apart = l.apart;
  outs = l.outs;
  ins = l.ins;
  filed = filed;
}

-- A connection is read, and one like it without a new handle is put in its place.
pub put_client-Keeps :
    {B : Type 0} (id : ℕ) (c c' : Client) (k : M B) (w : World)
    → get_elem? w.clients id ≡ some c
    → link_of (some c') ≡ link_of (some c)
    → ((h : ℕ) → stream_handle c'.stream ≡ some h → stream_handle c.stream ≡ some h)
    → Safe k
    → Keeps Kept (put_client id c' >> k) w
put_client-Keeps id c c' k w here same less safe =
    bind_Keeps Kept Kept-trans (put_client id c') (λ _. k) w
      (done_Keeps Kept w _ tt (put_IsLinked w id c c' here same less)) (λ _ v _. safe v)

pub set_state-Safe : (id : ℕ) (s : State) → Safe (set_state id s)
set_state-Safe id s w = client-Keeps Kept id _ w λ c here.
    done_Keeps Kept w _ tt (put_IsLinked w id c (record c { state = s }) here refl (λ h e. e))
