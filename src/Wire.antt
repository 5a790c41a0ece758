-- ===== src/Wire.antt =====
-- What a received line means: the tokens, the prefix and the two kinds of messages, as
-- NetClientBase::doProcessReceivedBuffer (src/peerboot/net_client.cpp) reads them.
pub mod RoundTrip
pub mod Frames
use peerboot_cpp.Prelude.{ℕ, List, [], ◌∷◌, Option, none, some, if◌then◌else◌}
use peerboot_cpp.Prelude.Int.{ℤ, to_u32}
use peerboot_cpp.Text.{Str, str_eq}
use peerboot_cpp.Text.Decimal.{stoi}
use peerboot_cpp.Text.Tokens.{tokens}
use peerboot_cpp.Message.{prefix, peer_verb, query_verb}

pub data Line : Type 0 where
  too_few_tokens wrong_prefix unparseable : Line
  peer_line : Str → Str → ℕ → Line
  query_line : Str → Line

-- The `int` is passed on as a `timestamp_t`; an exception of std::stoi leaves 0.
abbrev pub seen_time : Option ℤ → ℕ
seen_time none = 0
seen_time (some n) = to_u32 n

-- The tokens from the second on.
interpret_verb : Str → List Str → Line
interpret_verb verb (service ∷ endpoint ∷ last_seen ∷ _) =
    if str_eq verb peer_verb
    then peer_line service endpoint (seen_time (stoi last_seen))
    else if str_eq verb query_verb
    then query_line service
    else unparseable
interpret_verb verb (service ∷ _) =
    if str_eq verb query_verb then query_line service else unparseable
interpret_verb verb [] = unparseable

interpret_tokens : List Str → Line
unfolding interpret_verb
interpret_tokens (first ∷ verb ∷ rest) =
    if str_eq first prefix then interpret_verb verb rest else wrong_prefix
interpret_tokens _ = too_few_tokens

unfoldable pub interpret : Str → Line
unfolding interpret_tokens
interpret text = interpret_tokens (tokens text)
