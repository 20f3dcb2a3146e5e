-- ===== src/Decoder.antt =====
-- payload/sp/Decoder.hh and the loop that YAZDecoder.cc and LZ77Decoder.cc share word for word.
-- A decoder is a machine that takes bytes; the two classes give its parts (`Yaz`, `Lz77`).
pub mod Laws
pub mod Keeps
pub mod Runs
pub mod Yaz
pub mod Lz77
use mkw_sp.Base.{
  ℕ, zero, suc, ◌+◌, ◌*◌, List, [], ◌∷◌, Option, none, some, Bool, true, false, not, ◌&&◌, length,
  if◌then◌else◌,
}

pub record Machine : Type 1 where
  pub State : Type 0
  -- m_dstOffset == m_dstSize
  pub full : State → Bool
  -- m_state == State::GroupHeader
  pub at_group : State → Bool
  -- The next step of the machine reads a byte of the source.
  pub hungry : State → Bool
  pub is_ok : State → Bool
  -- m_ok = false
  pub fail : State → State
  -- The result, the new state and what is left of the source; `none` is an access out of bounds.
  pub process : State → List ℕ → Option (Bool × State × List ℕ)
  -- A bound for the steps that need no byte.
  pub rank : State → ℕ

abbrev pub is_nil : List ℕ → Bool
is_nil [] = true
is_nil (_ ∷ _) = false

module _ (m : Machine) where
  open m use {State, full, at_group, hungry, is_ok, fail, process, rank}

  -- The do-while loop of `decode`; the list is src[srcOffset .. srcSize).
  pub decode_loop : ℕ → State → List ℕ → Option (Bool × State)
  decode_loop zero s src = none
  decode_loop (suc fuel) s src =
      if full s
      then if at_group s then some (true, s) else some (false, fail s)
      else if is_nil src && hungry s
      then some (true, s)
      else elim (process s src) [
        | none ↦ none
        | some (go_on, s', src') ↦ elim go_on [
          | true ↦ decode_loop fuel s' src'
          | false ↦ some (false, fail s')
        ]
      ]

  -- The fuel of the loop: what is left of the steps that need no byte, and two for each byte.
  abbrev pub work : State → List ℕ → ℕ
  work s src = rank s + 2 * length src

  -- `none` also stands for the assertion that fails at the entry.
  pub decode : State → List ℕ → Option (Bool × State)
  decode s src = if is_ok s && not (full s) then decode_loop (suc (work s src)) s src else none
