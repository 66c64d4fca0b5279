-- ===== src/Bridge/Frame/Contract.antt =====
-- acp/writeframe.go: what the calls report, and the contract of the writer below them.
use go_agent_wrapper.Shared.{
  ℕ, zero, suc, ◌≤◌, ◌≡◌, refl, ap, ◌⊎◌, Bytes, Bool, true, false, Option, none, List, [], ◌∷◌,
  ◌++◌, take, length, if◌then◌else◌, arith, is_some,
}
use go_agent_wrapper.Bridge.Frame.{
  Wire, WriteError, Outcome, Action, written, context_ended, failed, frames, answers, closes,
  write_frame, step,
}

-- The contract of io.Writer, and of a transport that was closed: it takes nothing more.
pub record IsWrite (frame : Bytes) (accepted : ℕ) (error : Option WriteError) (w : Wire)
    : Type 0 where
  pub within : accepted ≤ length frame
  pub whole : error ≡ none → accepted ≡ length frame
  pub silent : w.closed ≡ true → (accepted ≡ 0) × (is_some error ≡ true)

abbrev pub is_written : Outcome → Bool
is_written written = true
is_written context_ended = false
is_written (failed e) = false

-- The frame where the action reported it as written, and nothing elsewhere.
unfoldable pub reported : Action → Wire → Bytes
reported (frames a) w = if is_written (write_frame a w).0 then a.frame else []
reported (answers frame accepted error) w = if is_some error then [] else frame
reported closes w = []

unfoldable pub delivered : List Action → Wire → Bytes
delivered [] w = []
delivered (a ∷ rest) w = reported a w ++ delivered rest (step a w)

-- What one action asks of the writer. An answer is either accepted whole or not at all.
abbrev pub IsFairStep : Action → Wire → Type 0
IsFairStep (frames a) w = IsWrite a.frame a.accepted a.error w
IsFairStep (answers frame accepted error) w =
    IsWrite frame accepted error w × (is_some error ≡ true → accepted ≡ 0)
IsFairStep closes w = Unit {0}

abbrev pub IsFair : List Action → Wire → Type 0
IsFair [] w = Unit {0}
IsFair (a ∷ rest) w = IsFairStep a w × IsFair rest (step a w)

abbrev pub frame_of : Action → Bytes
frame_of (frames a) = a.frame
frame_of (answers frame accepted error) = frame
frame_of closes = []

-- A prefix of the frame of one of the actions.
abbrev pub IsCut : Bytes → List Action → Type 0
IsCut rest [] = ⊥
IsCut rest (a ∷ others) = ((k : ℕ) × (rest ≡ take k (frame_of a))) ⊎ IsCut rest others

pub take_all {ℓ} : {A : Type ℓ} (n : ℕ) (xs : List A) → n ≡ length xs → take n xs ≡ xs
take_all zero [] e = refl
take_all zero (x ∷ xs) e = absurd (omega (arith, e))
take_all (suc n) [] e = refl
take_all (suc n) (x ∷ xs) e = ap (◌∷◌ x) (take_all n xs (omega (arith, e)))
