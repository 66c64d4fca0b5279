-- ===== src/Bridge/Frame/Framing.antt =====
-- acp/writeframe.go: what is on the wire after any calls.
use go_agent_wrapper.Shared.{
  ℕ, zero, suc, ◌≡◌, refl, sym, ap, ◌∙◌, inl, inr, ◌⊎◌, Bytes, Bool, true, false, not, ◌&&◌, Option,
  none, some, List, [], ◌∷◌, ◌++◌, take, ltb, arith, is_some, Bool-cases,
}
use mathlib.Core.List.{append-nil, append_assoc}
use go_agent_wrapper.Bridge.Frame.{
  Wire, WriteError, Attempt, Action, written, context_ended, frames, answers, closes, lock_ctx,
  write, after_error, write_frame, write_with_deadline, step, run,
}
use go_agent_wrapper.Bridge.Frame.Contract.{
  IsWrite, reported, delivered, IsFairStep, IsFair, frame_of, IsCut, take_all,
}

-- What an action does to the wire.
pub data Effect (a : Action) (w : Wire) : Type 0 where
  whole :
      reported a w ≡ frame_of a
      → (step a w).sent ≡ w.sent ++ frame_of a
      → w.closed ≡ false
      → Effect a w
  nothing :
      reported a w ≡ []
      → (step a w).sent ≡ w.sent
      → (w.closed ≡ true → (step a w).closed ≡ true)
      → Effect a w
  cut :
      (k : ℕ)
      → reported a w ≡ []
      → (step a w).sent ≡ w.sent ++ take k (frame_of a)
      → (step a w).closed ≡ true
      → w.closed ≡ false
      → Effect a w

Closed-cases : (w : Wire) → (w.closed ≡ true) ⊎ (w.closed ≡ false)
Closed-cases w = Bool-cases w.closed

-- The call gets to its write.
unfoldable pub reaches : Attempt → Bool
reaches a = not a.ended_before && lock_ctx a && not a.ended_locked

unreached_lem : (a : Attempt) (w : Wire) → reaches a ≡ false → write_frame a w ≡ (context_ended, w)
unfolding write_frame reaches
unreached_lem a w h = ground arith

-- Past its guards WriteFrameCtx is its write.
pub reached_lem :
    (a : Attempt) (w : Wire)
    → reaches a ≡ true
    → write_frame a w
      ≡ elim a.error [ none ↦ (written, write a w) | some e ↦ after_error a e (write a w) ]
unfolding write_frame reaches
reached_lem a w h = ground arith

take_none : (k : ℕ) (frame : Bytes) → k ≡ 0 → take k frame ≡ []
take_none zero frame e = refl
take_none (suc k) frame e = absurd (omega (arith, e))

written_effect :
    (a : Attempt) (w : Wire)
    → IsWrite a.frame a.accepted a.error w
    → write_frame a w ≡ (written, write a w)
    → a.error ≡ none
    → Effect (frames a) w
unfolding step reported write
written_effect a w h is fine =
    let full : take a.accepted a.frame ≡ a.frame = take_all a.accepted a.frame (h.whole fine) in
    let still_open : w.closed ≡ false = ground (arith, h.silent, fine) in
    whole (ground (arith, is)) (ground (arith, is, full)) still_open

failed_effect :
    (a : Attempt) (w : Wire) (e : WriteError)
    → IsWrite a.frame a.accepted a.error w
    → write_frame a w ≡ after_error a e (write a w)
    → Effect (frames a) w
unfolding step reported write after_error
failed_effect a w e h is = elim (Bool-cases (ltb 0 a.accepted)) [
  | inl some_bytes ↦
      let still_open : w.closed ≡ false = ground (arith, h.silent, some_bytes) in
      cut a.accepted (ground (arith, is, some_bytes)) (ground (arith, is, some_bytes))
        (ground (arith, is, some_bytes)) still_open
  | inr no_bytes ↦
      let empty : take a.accepted a.frame ≡ [] =
        take_none a.accepted a.frame (ground (arith, no_bytes)) in
      nothing (ground (arith, is, no_bytes))
        (ground (arith, is, no_bytes, empty, append-nil w.sent)) (ground (arith, is, no_bytes))
]

reached_effect :
    (a : Attempt) (w : Wire) (error : Option WriteError)
    → a.error ≡ error
    → IsWrite a.frame a.accepted a.error w
    → write_frame a w
      ≡ elim error [ none ↦ (written, write a w) | some e ↦ after_error a e (write a w) ]
    → Effect (frames a) w
reached_effect a w none same h is = written_effect a w h is same
reached_effect a w (some e) same h is = failed_effect a w e h is

unreached_effect :
    (a : Attempt) (w : Wire) → write_frame a w ≡ (context_ended, w) → Effect (frames a) w
unfolding step reported
unreached_effect a w is = nothing (ground (arith, is)) (ground (arith, is)) (ground (arith, is))

answers_effect :
    (frame : Bytes) (accepted : ℕ) (error : Option WriteError) (w : Wire)
    → IsWrite frame accepted error w
    → (is_some error ≡ true → accepted ≡ 0)
    → Effect (answers frame accepted error) w
unfolding step reported write_with_deadline
answers_effect frame accepted none w h all =
    let full : take accepted frame ≡ frame = take_all accepted frame (h.whole refl) in
    whole refl (ap (◌++◌ w.sent) full) (ground (arith, h.silent))
answers_effect frame accepted (some e) w h all =
    let empty : take accepted frame ≡ [] = take_none accepted frame (all refl) in
    nothing refl (ap (◌++◌ w.sent) empty ∙ append-nil w.sent) (λ c. c)

step_effect : (a : Action) (w : Wire) → IsFairStep a w → Effect a w
step_effect (frames a) w h = elim (Bool-cases (reaches a)) [
  | inl reached ↦ reached_effect a w a.error refl h (reached_lem a w reached)
  | inr unreached ↦ unreached_effect a w (unreached_lem a w unreached)
]
step_effect (answers frame accepted error) w h = answers_effect frame accepted error w h.0 h.1
step_effect closes w h = unfold step reported in nothing refl refl (λ c. refl)

false-true : false ≡ true → ⊥
false-true e = cc

-- Nothing follows on a closed transport.
closed_lem :
    (actions : List Action) (w : Wire)
    → w.closed ≡ true
    → IsFair actions w
    → ((run actions w).sent ≡ w.sent) × (delivered actions w ≡ []) × ((run actions w).closed ≡ true)
unfolding run delivered
closed_lem [] w c h = (refl, refl, c)
closed_lem (a ∷ rest) w c h = elim (step_effect a w h.0) [
  | whole r s o ↦ absurd (false-true (sym o ∙ c))
  | nothing r s o ↦
      let later = closed_lem rest (step a w) (o c) h.1 in
      (later.0 ∙ s, rw (r, later.1) refl, later.2)
  | cut k r s o still ↦ absurd (false-true (sym still ∙ c))
]

weaken :
    (rest : Bytes) (a : Action) (actions : List Action) (w : Wire)
    → (rest ≡ []) ⊎ (IsCut rest actions × ((run actions w).closed ≡ true))
    → (rest ≡ []) ⊎ (IsCut rest (a ∷ actions) × ((run actions w).closed ≡ true))
weaken rest a actions w (inl none_left) = inl none_left
weaken rest a actions w (inr (part, end)) = inr (inr part, end)

-- The wire has whole frames: for every sequence of calls of WriteFrameCtx, of answers that are
-- accepted whole or not at all, and of closes, on an open transport whose writer keeps the contract
-- of io.Writer and takes nothing once closed: the bytes on the wire are the frames of the calls that
-- reported success, in their order, each in full, and then nothing more, or a part of one other
-- frame; and where it is a part, the transport is closed.
pub wire_has_frames :
    (actions : List Action) (w : Wire)
    → IsFair actions w
    → (rest : Bytes) × ((run actions w).sent ≡ w.sent ++ (delivered actions w ++ rest))
      × ((rest ≡ []) ⊎ (IsCut rest actions × ((run actions w).closed ≡ true)))
unfolding run delivered
wire_has_frames [] w h = ([], sym (append-nil w.sent), inl refl)
wire_has_frames (a ∷ actions) w h = elim (step_effect a w h.0) [
  | whole r s o ↦
      let (rest, same, end) = wire_has_frames actions (step a w) h.1 in
      (
        rest,
        same
            ∙ (ap (λ (t : Bytes). t ++ (delivered actions (step a w) ++ rest)) s
                ∙ (append_assoc w.sent (frame_of a) (delivered actions (step a w) ++ rest)
                    ∙ ap (λ (t : Bytes). w.sent ++ t)
                        (sym (append_assoc (frame_of a) (delivered actions (step a w)) rest)
                          ∙ ap (λ (t : Bytes). (t ++ delivered actions (step a w)) ++ rest)
                              (sym r)))),
        weaken rest a actions (step a w) end,
      )
  | nothing r s o ↦
      let (rest, same, end) = wire_has_frames actions (step a w) h.1 in
      (
        rest,
        same
            ∙ (ap (λ (t : Bytes). t ++ (delivered actions (step a w) ++ rest)) s
                ∙ ap (λ (t : Bytes). w.sent ++ ((t ++ delivered actions (step a w)) ++ rest))
                    (sym r)),
        weaken rest a actions (step a w) end,
      )
  | cut k r s o still ↦
      let later = closed_lem actions (step a w) o h.1 in
      (take k (frame_of a), later.0 ∙ (s ∙ rw (r, later.1) refl), inr (inl (k, refl), later.2))
]
