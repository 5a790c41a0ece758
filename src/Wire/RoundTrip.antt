-- ===== src/Wire/RoundTrip.antt =====
-- Printing a message and reading the line again.
use peerboot_cpp.Prelude.{ℕ, ◌<◌, ◌^◌, ◌≡◌, refl, ap, ◌∙◌, Bool, [], ◌∷◌, arith, ltb, if◌then◌else◌}
use peerboot_cpp.Prelude.Int.{pos}
use peerboot_cpp.Text.{Str, is_space, str_eq}
use peerboot_cpp.Text.Decimal.{to_string, stoi, stoi-to_string, to_string-IsWord}
use peerboot_cpp.Text.Tokens.{tokens, IsWord, tokens-word, tokens-last}
use peerboot_cpp.Message.{
  Message, PeerUpdateMessage, update, query, message_text, prefix, peer_verb, query_verb, ◌␣◌,
}
use peerboot_cpp.Wire.{Line, peer_line, query_line, interpret, seen_time}

-- A message that the text can carry: no name is empty or holds white space, and the time has at
-- most ten digits, as every `uint32_t` has.
abbrev pub IsPrintable : Message → Type 0
IsPrintable (update m) = IsWord m.service × IsWord m.endpoint × (m.last_seen < 10 ^ 10)
IsPrintable (query m) = IsWord m.service

tokens-space : (w rest : Str) → IsWord w → tokens (w ␣ rest) ≡ w ∷ tokens rest
unfolding is_space
tokens-space w rest h = tokens-word w rest b' ' h refl

prefix-IsWord : IsWord prefix
unfolding is_space
prefix-IsWord = (refl, (refl, (refl, (refl, tt))))

peer_verb-IsWord : IsWord peer_verb
unfolding is_space
peer_verb-IsWord = (refl, (refl, (refl, (refl, tt))))

query_verb-IsWord : IsWord query_verb
unfolding is_space
query_verb-IsWord = (refl, (refl, (refl, (refl, (refl, tt)))))

tokens-update :
    (s e t : Str)
    → IsWord s
    → IsWord e
    → IsWord t
    → tokens (prefix ␣ peer_verb ␣ s ␣ e ␣ t) ≡ prefix ∷ peer_verb ∷ s ∷ e ∷ t ∷ []
unfolding is_space
tokens-update s e t hs he ht =
    tokens-space prefix _ prefix-IsWord
    ∙ ap (◌∷◌ prefix) (
        tokens-space peer_verb _ peer_verb-IsWord
        ∙ ap (◌∷◌ peer_verb) (
            tokens-space s _ hs ∙ ap (◌∷◌ s) (tokens-space e t he ∙ ap (◌∷◌ e) (tokens-last t ht))))

tokens-query :
    (s : Str) → IsWord s → tokens (prefix ␣ query_verb ␣ s) ≡ prefix ∷ query_verb ∷ s ∷ []
unfolding is_space
tokens-query s hs =
    tokens-space prefix _ prefix-IsWord
    ∙ ap (◌∷◌ prefix)
        (tokens-space query_verb s query_verb-IsWord ∙ ap (◌∷◌ query_verb) (tokens-last s hs))

-- What arrives: the names and the time, and nothing of the removal flag.
abbrev pub received_line : Message → Line
received_line (update m) =
    peer_line m.service m.endpoint (if ltb m.last_seen (2 ^ 31) then m.last_seen else 0)
received_line (query m) = query_line m.service

seen_time-to_string :
    (n : ℕ) → n < 10 ^ 10 → seen_time (stoi (to_string (pos n))) ≡ (if ltb n (2 ^ 31) then n else 0)
seen_time-to_string n h = rw (stoi-to_string n h) (ground arith)

-- A printable message that is sent is read as a message of the same kind with the same names. The
-- time of an update arrives if it is below 2 ^ 31, and as 0 from there on. Whether the peer was
-- reported as removed does not arrive: the line is the same for both values of the flag.
pub interpret-message_text :
    (m : Message) → IsPrintable m → interpret (message_text m) ≡ received_line m
unfolding interpret message_text str_eq
interpret-message_text (update m) (hs, he, ht) =
    rw
      (tokens-update m.service m.endpoint (to_string (pos m.last_seen)) hs he
        (to_string-IsWord m.last_seen))
      (ap (peer_line m.service m.endpoint) (seen_time-to_string m.last_seen ht))
interpret-message_text (query m) hs = rw (tokens-query m.service hs)

-- The text of an update does not depend on the removal flag: a goodbye reads like a greeting.
pub message_text_goodbye :
    (m : PeerUpdateMessage) (b : Bool)
    → message_text (update (record m { is_removed = b })) ≡ message_text (update m)
unfolding message_text
message_text_goodbye m b = refl
