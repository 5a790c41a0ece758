-- ===== src/Machine/Keeps.antt =====
-- Relations between the worlds before and after a method, one rule for each way to build a method.
use peerboot_cpp.Prelude.{
  ℕ, ◌≡◌, refl, sym, subst, Bool, true, false, Option, none, some, get_elem?, if◌then◌else◌,
}
use peerboot_cpp.World.{World, Client, Stream, wild, null, handle}
use peerboot_cpp.Machine.{
  M, pure, fault, continue, ◌>>=◌, ◌>>◌, assert, or_fault, client, handle_of,
}

-- From the world `w`, the method either faults or ends in a world that `R` relates to `w`.
abbrev pub Keeps : (World → World → Type 0) → {A : Type 0} → M A → World → Type 0
Keeps R {A} m w = (a : A) (w' : World) → m w ≡ some (a, w') → R w w'

-- Taking a successful sequence apart.
pub bind-eq-some :
    {A B : Type 0} (m : M A) (f : A → M B) (w w'' : World) (b : B)
    → (m >>= f) w ≡ some (b, w'')
    → (a : A) × (w' : World) × (m w ≡ some (a, w')) × (f a w' ≡ some (b, w''))
bind-eq-some {A} m f w w'' b h = go (m w) refl
  where
    go :
        (o : Option (A × World))
        → m w ≡ o
        → (a : A) × (w' : World) × (m w ≡ some (a, w')) × (f a w' ≡ some (b, w''))
    go none e = absurd (cc (sym e, h))
    go (some (a, w')) e = (a, w', e, rw e at h)

-- A last step that does nothing.
pub bind_idle :
    {A : Type 0} (m : M A) (f : A → M A) (w : World)
    → ((a : A) (v : World) → m w ≡ some (a, v) → f a v ≡ some (a, v))
    → (m >>= f) w ≡ m w
bind_idle {A} m f w h = go (m w) refl
  where
    go : (o : Option (A × World)) → m w ≡ o → continue o f ≡ o
    go none e = refl
    go (some (a, v)) e = h a v e

module _ (R : World → World → Type 0) where
  pub fault-Keeps : {A : Type 0} (w : World) → Keeps R (fault {A = A}) w
  fault-Keeps w a w' h = cc

  pub done_Keeps :
      {A : Type 0} (w v : World) (x : A)
      → R w v
      → (a : A) (w' : World) → pure x v ≡ some (a, w')
      → R w w'
  done_Keeps w v x r a w' h = let e : v ≡ w' = cc in subst (R w) e r

  pub if_Keeps :
      {A : Type 0} (b : Bool) (m n : M A) (w : World)
      → (b ≡ true → Keeps R m w)
      → (b ≡ false → Keeps R n w)
      → Keeps R (if b then m else n) w
  if_Keeps true m n w km kn = km refl
  if_Keeps false m n w km kn = kn refl

  pub assert-Keeps :
      {A : Type 0} (b : Bool) (k : M A) (w : World)
      → (b ≡ true → Keeps R k w)
      → Keeps R (assert b >> k) w
  assert-Keeps true k w h = h refl
  assert-Keeps false k w h = fault-Keeps w

  pub handle_Keeps :
      {A : Type 0} (s : Stream) (k : ℕ → M A) (w : World)
      → ((h : ℕ) → s ≡ handle h → Keeps R (k h) w)
      → Keeps R (handle_of s >>= k) w
  handle_Keeps wild k w h = fault-Keeps w
  handle_Keeps null k w h = fault-Keeps w
  handle_Keeps (handle x) k w h = h x refl

  or_fault-Keeps :
      {A B : Type 0} (o : Option A) (k : A → M B) (w : World)
      → ((a : A) → o ≡ some a → Keeps R (k a) w)
      → Keeps R (or_fault o >>= k) w
  or_fault-Keeps none k w h = fault-Keeps w
  or_fault-Keeps (some a) k w h = h a refl

  pub client-Keeps :
      {A : Type 0} (id : ℕ) (k : Client → M A) (w : World)
      → ((c : Client) → get_elem? w.clients id ≡ some c → Keeps R (k c) w)
      → Keeps R (client id >>= k) w
  client-Keeps id k w h = or_fault-Keeps (get_elem? w.clients id) k w h

  -- Only the relation's own laws are wanted from here on.
  module _ (trans : (u v w : World) → R u v → R v w → R u w) where
    -- A method that has already taken the world `w` to `v`, and has the outcome `o` from there.
    pub then_Keeps :
        {A : Type 0} (w v : World) (o : Option (A × World))
        → R w v
        → ((a : A) (w' : World) → o ≡ some (a, w') → R v w')
        → (a : A) (w' : World) → o ≡ some (a, w')
        → R w w'
    then_Keeps w v o r h a w' e = trans w v w' r (h a w' e)

    pub bind_Keeps :
        {A B : Type 0} (m : M A) (f : A → M B) (w : World)
        → Keeps R m w
        → ((a : A) (v : World) → m w ≡ some (a, v) → Keeps R (f a) v)
        → Keeps R (m >>= f) w
    bind_Keeps m f w hm hf b w'' e =
        let (a, v, em, ef) = bind-eq-some m f w w'' b e in
        trans w v w'' (hm a v em) (hf a v em b w'' ef)
