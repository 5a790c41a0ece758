-- ===== src/Sample/Settings.antt =====
-- What the demo program makes of its command line: an independent view of the arguments as a list of
-- settings.
use mathlib.Core.List.{append-nil}
use peerboot_cpp.Prelude.{
  ◌≡◌, refl, ap, sym, ◌∙◌, List, [], ◌∷◌, ◌++◌, Option, none, some, arith, Option-cases, inl, inr,
}
use peerboot_cpp.Prelude.Int.{ℤ}
use peerboot_cpp.Text.{Str, codes, str_eq}
use peerboot_cpp.Text.Decimal.{stoi}
use peerboot_cpp.Sample.Args.{AppParams, other_word, word_of, process_args}

-- An option with its value, or a word that is none, such as the name of the program.
pub data Setting : Type 0 where
  ep peer port skip : Str → Setting

abbrev pub arguments : List Setting → List Str
arguments [] = []
arguments (ep s ∷ ss) = codes "-ep" ∷ s ∷ arguments ss
arguments (peer s ∷ ss) = codes "-peer" ∷ s ∷ arguments ss
arguments (port s ∷ ss) = codes "-port" ∷ s ∷ arguments ss
arguments (skip s ∷ ss) = s ∷ arguments ss

-- A word that is skipped is not an option.
abbrev pub AreSettings : List Setting → Type 0
AreSettings [] = Unit
AreSettings (skip s ∷ ss) = (word_of s ≡ other_word) × AreSettings ss
AreSettings (_ ∷ ss) = AreSettings ss

abbrev pub last_ep : Str → List Setting → Str
last_ep s [] = s
last_ep s (ep s' ∷ ss) = last_ep s' ss
last_ep s (_ ∷ ss) = last_ep s ss

abbrev pub last_peer : Str → List Setting → Str
last_peer s [] = s
last_peer s (peer s' ∷ ss) = last_peer s' ss
last_peer s (_ ∷ ss) = last_peer s ss

-- The number of the last port; `none` if any of the ports is refused by std::stoi
abbrev pub last_port : ℤ → List Setting → Option ℤ
last_port n [] = some n
last_port n (port s ∷ ss) = elim (stoi s) [ none ↦ none | some n' ↦ last_port n' ss ]
last_port n (_ ∷ ss) = last_port n ss

-- Each parameter has the value of its last setting.
abbrev pub settled : AppParams → List Setting → Option AppParams
settled params ss = elim (last_port params.pb_listen_port ss) [
  | none ↦ none
  | some n ↦ some (record {
    end_point = last_ep params.end_point ss;
    pb_listen_port = n;
    pb_extra_peer = last_peer params.pb_extra_peer ss;
  })
]

abbrev process_rest : Option AppParams → List Str → Option AppParams
process_rest none rest = none
process_rest (some params) rest = process_args params rest

skip_word :
    (params : AppParams) (s : Str) (rest : List Str)
    → word_of s ≡ other_word
    → process_args params (s ∷ rest) ≡ process_args params rest
unfolding process_args
skip_word params s [] h = refl
skip_word params s (value ∷ rest) h = ground (arith, h)

port_word_lem :
    (params : AppParams) (value : Str) (rest : List Str)
    → process_args params (codes "-port" ∷ value ∷ rest) ≡ (elim (stoi value) [
      | none ↦ none
      | some n ↦ process_args (record params { pb_listen_port = n }) rest
    ])
unfolding process_args word_of str_eq
port_word_lem params value rest = refl

-- The arguments of some settings are processed one after the other.
process_args-arguments_then :
    (params : AppParams) (ss : List Setting) (rest : List Str)
    → AreSettings ss
    → process_args params (arguments ss ++ rest) ≡ process_rest (settled params ss) rest
unfolding process_args word_of str_eq
process_args-arguments_then params [] rest h = refl
process_args-arguments_then params (ep s ∷ ss) rest h =
    process_args-arguments_then (record params { end_point = s }) ss rest h
process_args-arguments_then params (peer s ∷ ss) rest h =
    process_args-arguments_then (record params { pb_extra_peer = s }) ss rest h
process_args-arguments_then params (skip s ∷ ss) rest h =
    skip_word params s (arguments ss ++ rest) h.0 ∙ process_args-arguments_then params ss rest h.1
process_args-arguments_then params (port s ∷ ss) rest h =
    port_word_lem params s (arguments ss ++ rest) ∙ elim (Option-cases (stoi s)) [
      | inl refused ↦ ground (arith, refused)
      | inr (n, read) ↦
          let ih = process_args-arguments_then (record params { pb_listen_port = n }) ss rest h in
          ground (arith, read, ih)
    ]

process_rest_end :
    (o : Option AppParams) (rest : List Str)
    → ((params : AppParams) → process_args params rest ≡ some params)
    → process_rest o rest ≡ o
process_rest_end none rest h = refl
process_rest_end (some params) rest h = h params

-- The arguments of any settings, in any order and number, are read so that each parameter has afterwards
-- the value of the last of its settings, or the one it had if there is none; but if any of the ports is
-- one that std::stoi refuses, the program ends by an exception. One more word behind the arguments, also
-- an option that lacks its value, changes nothing of this.
pub process_args-arguments :
    (params : AppParams) (ss : List Setting)
    → AreSettings ss
    → (process_args params (arguments ss) ≡ settled params ss)
      × ((word : Str) → process_args params (arguments ss ++ word ∷ []) ≡ settled params ss)
unfolding process_args
process_args-arguments params ss h = (
  ap (process_args params) (sym (append-nil (arguments ss)))
      ∙ process_args-arguments_then params ss [] h
      ∙ process_rest_end (settled params ss) [] (λ p. refl),
  λ word.
      process_args-arguments_then params ss (word ∷ []) h
      ∙ process_rest_end (settled params ss) (word ∷ []) (λ p. refl),
)
