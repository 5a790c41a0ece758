-- ===== src/Sample/Args.antt =====
-- The command line of the demo program (src/sample/demoapp/demoapp.cpp).
use peerboot_cpp.Prelude.{List, [], ◌∷◌, ◌++◌, Option, none, some, if◌then◌else◌}
use peerboot_cpp.Prelude.Int.{ℤ, pos}
use peerboot_cpp.Text.{Str, codes, str_eq}
use peerboot_cpp.Text.Decimal.{to_string, stoi}

pub record AppParams : Type 0 where
  pub end_point : Str
  pub pb_listen_port : ℤ
  pub pb_extra_peer : Str

-- AppParams::print
abbrev pub params_text : AppParams → Str
params_text params =
    codes "Service endpoint:        "
    ++ params.end_point
    ++ b'\n' ∷ []
    ++ codes "PeerBoot extra peer:     "
    ++ params.pb_extra_peer
    ++ b'\n' ∷ []
    ++ codes "PeerBoot listening port: "
    ++ to_string params.pb_listen_port
    ++ b'\n' ∷ b'\n' ∷ []

-- The parameters that `main` starts from
abbrev pub defaults : AppParams
defaults = record { end_point = codes "demo_endpoint"; pb_listen_port = pos 0; pb_extra_peer = [] }

-- The words that processArgs tests for; any other word is skipped.
pub data Word : Type 0 where
  ep_word peer_word port_word other_word : Word

unfoldable pub word_of : Str → Word
word_of s =
    if str_eq s (codes "-ep")
    then ep_word
    else if str_eq s (codes "-peer")
    then peer_word
    else if str_eq s (codes "-port")
    then port_word
    else other_word

-- The loop of processArgs over the arguments that are left, the program's name included. With one
-- argument left, an option lacks its value and the loop breaks; any other word is the last. `none` is
-- the exception of std::stoi, which nothing catches.
unfoldable pub process_args : AppParams → List Str → Option AppParams
process_args params [] = some params
process_args params (word ∷ []) = some params
process_args params (word ∷ value ∷ rest) = elim (word_of word) [
  | ep_word ↦ process_args (record params { end_point = value }) rest
  | peer_word ↦ process_args (record params { pb_extra_peer = value }) rest
  | port_word ↦ elim (stoi value) [
    | none ↦ none
    | some port ↦ process_args (record params { pb_listen_port = port }) rest
  ]
  | other_word ↦ process_args params (value ∷ rest)
]
