-- ===== src/IniReader.antt =====
-- payload/sp/settings/IniReader.cc and IniReader.hh. The view is the list of its characters, and a
-- pointer into it is an index; line numbers only go to the log and are left out.
pub mod Sound
pub mod Switch
pub mod Next
pub mod Line
mod Tests
use mkw_sp.Base.{
  ℕ, ◌+◌, ◌-◌, List, [], ◌∷◌, Option, none, some, Bool, true, false, leb, ◌==◌, ◌&&◌, ◌||◌, length,
  take, drop, if◌then◌else◌,
}

-- `start` is State::None.
pub data State : Type 0 where
  start want_section want_section_end in_comment want_delim want_value want_value_end : State
  in_comment_want_value post_want_value : State

pub record Property : Type 0 where
  pub section : Option (List ℕ)
  pub key : List ℕ
  pub value : List ℕ

-- The members of an IniReader, and the variables of `next`: `token` and `last_non_space` are none
-- where they are null.
pub record IniReader : Type 0 where
  pub view : List ℕ
  pub pos : ℕ
  pub section : Option (List ℕ)
  pub state : State

pub record Scan : Type 0 where
  pub reader : IniReader
  pub token : Option ℕ
  pub last_non_space : Option ℕ
  pub key : List ℕ

-- How a round of the loop ends: the next one, a property, an empty optional, or behaviour that C++
-- leaves undefined (__builtin_unreachable, or a view of a range that is not one).
pub data Out : Type 0 where
  go : Scan → Out
  property : Property → IniReader → Out
  stop : IniReader → Out
  undefined : Scan → Out

-- The cases of the switch over the character.
pub data Kind : Type 0 where
  space open_bracket close_bracket newline comment delim other : Kind

abbrev pub kind : ℕ → Kind
kind c =
    if c == 32
    then Kind.space
    else if c == 91
    then Kind.open_bracket
    else if c == 93
    then Kind.close_bracket
    else if c == 10
    then Kind.newline
    else if c == 35 || c == 59
    then Kind.comment
    else if c == 61 || c == 58
    then Kind.delim
    else Kind.other

abbrev pub wants_value_end : State → Bool
wants_value_end State.want_value_end = true
wants_value_end State.want_value = true
wants_value_end State.in_comment_want_value = true
wants_value_end _ = false

-- std::string_view(first, last)
abbrev pub slice : List ℕ → ℕ → ℕ → Option (List ℕ)
slice view first last =
    if leb first last && leb last (length view)
    then some (take (last - first) (drop first view))
    else none

abbrev pub with_state : Scan → State → Scan
with_state s state = record s { reader = record s.reader { state = state } }

-- token = it; lastNonSpace = token
abbrev pub mark : Scan → Scan
mark s = record s { token = some s.reader.pos; last_non_space = some s.reader.pos }

abbrev pub touch : Scan → Scan
touch s = record s { last_non_space = some s.reader.pos }

-- The label Identifier.
pub identifier : Kind → State → Scan → Out
identifier k State.in_comment s = Out.go s
identifier k State.in_comment_want_value s = Out.go s
identifier k State.want_section s = Out.go (with_state (mark s) State.want_section_end)
identifier k State.want_value s = Out.go (with_state (mark s) State.want_value_end)
identifier Kind.space State.want_section_end s = Out.go s
identifier Kind.space State.want_delim s = Out.go s
identifier Kind.space State.want_value_end s = Out.go s
identifier k State.want_section_end s = Out.go (touch s)
identifier k State.want_delim s = Out.go (touch s)
identifier k State.want_value_end s = Out.go (touch s)
identifier k State.start s = Out.undefined s
identifier k State.post_want_value s = Out.undefined s

abbrev pub is_want_value : State → Bool
is_want_value State.want_value = true
is_want_value _ = false

-- The label StateWantValue. The state is set before it is tested.
pub finish : Scan → Out
finish s =
    let r = record s.reader { state = State.post_want_value } in
    elim s.token [
      | none ↦ Out.undefined s
      | some token ↦ elim s.last_non_space [
        | none ↦ Out.undefined s
        | some last ↦
            elim (slice r.view token (if is_want_value r.state then token else last + 1)) [
              | none ↦ Out.undefined s
              | some value ↦
                  Out.property (record { section = r.section; key = s.key; value = value }) r
            ]
      ]
    ]

-- case ']': the section ends, at its start if it is empty.
pub close_section : Bool → Scan → Out
close_section is_empty s = elim s.token [
  | none ↦ Out.undefined s
  | some token ↦ elim (slice s.reader.view token (if is_empty then token else s.reader.pos)) [
    | none ↦ Out.undefined s
    | some section ↦
        Out.go
          (record s { reader = record s.reader { section = some section; state = State.start } })
  ]
]

-- case '=': the key ends.
pub end_key : Scan → Out
end_key s = elim s.token [
  | none ↦ Out.undefined s
  | some token ↦ elim s.last_non_space [
    | none ↦ Out.undefined s
    | some last ↦ elim (slice s.reader.view token (last + 1)) [
      | none ↦ Out.undefined s
      | some key ↦ Out.go (with_state (record s { key = key }) State.want_value)
    ]
  ]
]

abbrev pub skip : Scan → Scan
skip s = record s { reader = record s.reader { pos = s.reader.pos + 1 } }

-- The inner switch of the cases of the newline and of the comment.
pub on_unexpected : State → Scan → Out
on_unexpected State.want_section s = Out.stop s.reader
on_unexpected State.want_section_end s = Out.stop s.reader
on_unexpected State.want_delim s = Out.stop s.reader
on_unexpected _ s = Out.undefined s

pub on_newline : State → Scan → Out
on_newline State.start s = Out.go s
on_newline State.in_comment s = Out.go (with_state s State.start)
on_newline state s = if wants_value_end state then finish (skip s) else on_unexpected state s

pub on_comment : State → Scan → Out
on_comment State.start s = Out.go (with_state s State.in_comment)
on_comment State.in_comment s = Out.go s
on_comment state s =
    if wants_value_end state
    then Out.go (with_state s State.in_comment_want_value)
    else on_unexpected state s

-- The switch over the character.
pub on_kind : Kind → State → Scan → Out
on_kind Kind.space State.start s = Out.go s
on_kind Kind.space State.want_delim s = Out.go s
on_kind Kind.space State.want_value s = Out.go s
on_kind Kind.open_bracket State.start s = Out.go (with_state (mark s) State.want_section)
on_kind Kind.close_bracket State.want_section_end s = close_section false s
on_kind Kind.close_bracket State.want_section s = close_section true s
on_kind Kind.newline state s = on_newline state s
on_kind Kind.comment state s = on_comment state s
on_kind Kind.delim State.want_delim s = end_key s
on_kind Kind.other State.start s = Out.go (with_state (mark s) State.want_delim)
on_kind k state s = identifier k state s

-- if (m_state == State::PostWantValue) m_state = State::None
abbrev pub wake : State → State
wake State.post_want_value = State.start
wake state = state

-- The switch behind the loop.
unfoldable pub at_end : State → Scan → Out
at_end State.want_value s = finish s
at_end State.want_value_end s = finish s
at_end State.in_comment_want_value s = finish s
at_end _ s = Out.stop s.reader

pub round : ℕ → Scan → Out
round c s = let state = wake s.reader.state in on_kind (kind c) state (with_state s state)

-- The loop, over the characters from m_pos on.
unfoldable pub scan : List ℕ → Scan → Out
scan [] s = at_end s.reader.state s
scan (c ∷ rest) s = elim (round c s) [
  | Out.go s' ↦ scan rest (skip s')
  | Out.property p r ↦ Out.property p r
  | Out.stop r ↦ Out.stop r
  | Out.undefined u ↦ Out.undefined u
]

unfoldable pub next : IniReader → Out
next r =
    scan (drop r.pos r.view) (record { reader = r; token = none; last_non_space = none; key = [] })
