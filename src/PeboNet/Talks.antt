-- ===== src/PeboNet/Talks.antt =====
-- Which outgoing connections can go on reading once a write has completed (NetClientOut::process).
use peerboot_cpp.Prelude.{
  get_elem?-set_ne, get_elem?-set_self, Nat-cases, subst, ℕ, ◌≡◌, refl, ap, sym, ◌∙◌, true, false,
  Option, none, some, List, get_elem?, set, Bool, inl, inr,
}
use peerboot_cpp.World.{Client, Direction, State, incoming, outgoing, connected, receiving, sending}

-- An outgoing connection that can go on reading once a write has completed.
abbrev pub reads_on : State → Bool
reads_on connected = true
reads_on sending = true
reads_on receiving = true
reads_on _ = false

abbrev pub talks_in : Direction → State → Bool
talks_in incoming state = false
talks_in (outgoing host port) state = reads_on state

abbrev pub talks : Option Client → Bool
talks none = false
talks (some c) = talks_in c.direction c.state

-- Setting a connection to a state in which it talks, if it talked before, lets the others talk on.
pub talks-set :
    (cs : List Client) (id j : ℕ) (c c' : Client)
    → get_elem? cs id ≡ some c
    → (talks (some c) ≡ true → talks (some c') ≡ true)
    → talks (get_elem? cs j) ≡ true
    → talks (get_elem? (set cs id c') j) ≡ true
talks-set cs id j c c' here keeps before = elim (Nat-cases id j) [
  | inl same ↦
      subst (λ i. talks (get_elem? (set cs id c') i) ≡ true) same
        (ap talks (get_elem?-set_self cs id c' c here)
          ∙ keeps (ap talks (sym here) ∙ ap (λ i. talks (get_elem? cs i)) same ∙ before))
  | inr other ↦ ap talks (get_elem?-set_ne cs id j c' other) ∙ before
]

pub talks_in-sending : (d : Direction) (s : State) → talks_in d s ≡ true → talks_in d sending ≡ true
talks_in-sending incoming s e = e
talks_in-sending (outgoing host port) s e = refl
