-- ===== src/IniReader/Switch.antt =====
-- IniReader::next: what the switch over the character does to the pointers.
use mkw_sp.Base.{ℕ, ◌+◌, ◌≤◌, ◌<◌, ◌≡◌, true, false, length, arith, refl}
use mkw_sp.IniReader.{
  State, Scan, Out, Kind, identifier, on_newline, on_comment, on_kind, skip, with_state,
  on_unexpected,
}
use mkw_sp.IniReader.Sound.{
  Marked, Marked-same, Fine, needs_marks, is_stray, finish-Fine, close_section-Fine, end_key-Fine,
  mark-Marked, widen, touch-Marked,
}

-- The loop wakes a reader that has returned a property; elsewhere that state does not occur.
abbrev pub IsAwake : State → Type 0
IsAwake State.post_want_value = ⊥
IsAwake _ = Unit {0}

-- Only a stray character reaches the label Identifier in the first state.
abbrev MayIdentify : State → Kind → Type 0
MayIdentify State.post_want_value k = ⊥
MayIdentify State.start k = is_stray k ≡ true
MayIdentify _ k = Unit {0}

module _ (lo : ℕ) (s : Scan) (inside : s.reader.pos < length s.reader.view)
    (from : lo ≤ s.reader.pos) where
  abbrev Marks : State → Type 0
  Marks state = needs_marks state ≡ true → Marked lo s.reader.pos s

  abbrev Good : Kind → (State → Scan → Out) → State → Type 0
  Good k f state = Fine lo s.reader.view s.reader.pos k (f state (with_state s state))

  wide : Marked lo s.reader.pos s → Marked lo (s.reader.pos + 1) s
  wide m = widen lo s Kind.other inside m

  identifier-Fine :
      (k : Kind) (state : State) → MayIdentify state k → Marks state → Good k (identifier k) state
  unfolding identifier
  identifier-Fine k State.start w m = (refl, w, refl)
  identifier-Fine k State.post_want_value w m = absurd w
  identifier-Fine k State.in_comment w m = (refl, refl, λ q. cc)
  identifier-Fine k State.in_comment_want_value w m =
      (refl, refl, λ q. Marked-same refl refl (wide (m refl)))
  identifier-Fine k State.want_section w m =
      (refl, refl, λ q. Marked-same refl refl (mark-Marked lo s k from))
  identifier-Fine k State.want_value w m =
      (refl, refl, λ q. Marked-same refl refl (mark-Marked lo s k from))
  identifier-Fine Kind.space _ w m = (refl, refl, λ q. Marked-same refl refl (wide (m refl)))
  identifier-Fine _ _ w m =
      (refl, refl, λ q. Marked-same refl refl (touch-Marked lo s Kind.other inside (m refl)))

  on_newline-Fine :
      (k : Kind) (state : State) → IsAwake state → Marks state → Good k on_newline state
  unfolding on_newline on_unexpected
  on_newline-Fine k State.start w m = (refl, refl, λ q. cc)
  on_newline-Fine k State.in_comment w m = (refl, refl, λ q. cc)
  on_newline-Fine k State.want_section w m = tt
  on_newline-Fine k State.want_section_end w m = tt
  on_newline-Fine k State.want_delim w m = tt
  on_newline-Fine k State.post_want_value w m = absurd w
  on_newline-Fine k state w m =
      finish-Fine lo (skip (with_state s state)) k s.reader.pos (omega arith)
        (Marked-same refl refl (wide (m refl)))

  on_comment-Fine :
      (k : Kind) (state : State) → IsAwake state → Marks state → Good k on_comment state
  unfolding on_comment on_unexpected
  on_comment-Fine k State.start w m = (refl, refl, λ q. cc)
  on_comment-Fine k State.in_comment w m = (refl, refl, λ q. cc)
  on_comment-Fine k State.want_section w m = tt
  on_comment-Fine k State.want_section_end w m = tt
  on_comment-Fine k State.want_delim w m = tt
  on_comment-Fine k State.post_want_value w m = absurd w
  on_comment-Fine k _ w m = (refl, refl, λ q. Marked-same refl refl (wide (m refl)))

  pub on_kind-Fine :
      (k : Kind) (state : State) → IsAwake state → Marks state → Good k (on_kind k) state
  unfolding on_kind
  on_kind-Fine Kind.space State.start w m = (refl, refl, λ q. cc)
  on_kind-Fine Kind.space State.want_delim w m =
      (refl, refl, λ q. Marked-same refl refl (wide (m refl)))
  on_kind-Fine Kind.space State.want_value w m =
      (refl, refl, λ q. Marked-same refl refl (wide (m refl)))
  on_kind-Fine Kind.open_bracket State.start w m =
      (refl, refl, λ q. Marked-same refl refl (mark-Marked lo s Kind.other from))
  on_kind-Fine Kind.close_bracket State.want_section_end w m =
      close_section-Fine lo (with_state s State.want_section_end) Kind.close_bracket inside
        (Marked-same refl refl (m refl)) false
  on_kind-Fine Kind.close_bracket State.want_section w m =
      close_section-Fine lo (with_state s State.want_section) Kind.close_bracket inside
        (Marked-same refl refl (m refl)) true
  on_kind-Fine Kind.newline state w m = on_newline-Fine Kind.newline state w m
  on_kind-Fine Kind.comment state w m = on_comment-Fine Kind.comment state w m
  on_kind-Fine Kind.delim State.want_delim w m =
      end_key-Fine lo (with_state s State.want_delim) Kind.delim inside
        (Marked-same refl refl (m refl))
  on_kind-Fine Kind.delim State.start w m = identifier-Fine Kind.delim State.start refl m
  on_kind-Fine Kind.close_bracket State.start w m =
      identifier-Fine Kind.close_bracket State.start refl m
  on_kind-Fine Kind.other State.start w m =
      (refl, refl, λ q. Marked-same refl refl (mark-Marked lo s Kind.other from))
  on_kind-Fine k state w m = identifier-Fine k state w m
