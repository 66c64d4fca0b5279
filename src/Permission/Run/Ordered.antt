-- ===== src/Permission/Run/Ordered.antt =====
-- acp/permission.go: what the coordinator keeps of its turns.
use go_agent_wrapper.Shared.{
  ℕ, suc, ◌≤◌, ◌<◌, ◌≡◌, ◌≢◌, refl, true, not, ◌&&◌, inl, inr, some, List, [], ◌∷◌, nat_eq,
  nat_eq_iff, Bool-cases, arith,
}
use go_agent_wrapper.Permission.Coordinator.{
  PermissionTurn, find_turn, update_turn, close_done, count_dispatch, finish_dispatch, end_active,
  stop_admission, shut_turn,
}

-- One turn, where `top` is the current generation: only the current turn is active, a turn is
-- ending exactly where it is not active, and its channel is closed exactly where it is ending and
-- no dispatch of it is under way.
pub record IsTurn (top : ℕ) (t : PermissionTurn) : Type 0 where
  pub current : t.active ≡ true → t.generation ≡ top
  pub ends : t.ending ≡ not t.active
  pub drained : t.done_closed ≡ (t.ending && nat_eq t.dispatches 0)

-- The turns, by falling generation below a bound.
abbrev pub Turns : ℕ → ℕ → List PermissionTurn → Type 0
Turns top b [] = Unit
Turns top b (t ∷ ts) = (t.generation < b) × IsTurn top t × Turns top t.generation ts

pub lift-Turns :
    (top top' g b : ℕ) (ts : List PermissionTurn)
    → ((t : PermissionTurn) → t.generation ≢ g → IsTurn top t → IsTurn top' t)
    → b ≤ g
    → Turns top b ts
    → Turns top' b ts
lift-Turns top top' g b [] keep le h = h
lift-Turns top top' g b (t ∷ ts) keep le h = (
  h.0,
  keep t (λ e. omega (arith, e, le, h.0)) h.1,
  lift-Turns top top' g t.generation ts keep (omega (arith, le, h.0)) h.2,
)

pub update-Turns :
    (top top' g b : ℕ) (f : PermissionTurn → PermissionTurn) (ts : List PermissionTurn)
    → ((t : PermissionTurn) → (f t).generation ≡ t.generation)
    → ((t : PermissionTurn)
        → find_turn g ts ≡ some t
        → t.generation ≡ g
        → IsTurn top t
        → IsTurn top' (f t))
    → ((t : PermissionTurn) → t.generation ≢ g → IsTurn top t → IsTurn top' t)
    → Turns top b ts
    → Turns top' b (update_turn g f ts)
unfolding find_turn update_turn
update-Turns top top' g b f [] same on off h = h
update-Turns top top' g b f (t ∷ ts) same on off h = elim (Bool-cases (nat_eq t.generation g)) [
  | inl e ↦
      let here = (nat_eq_iff t.generation g).0 e in
      rw e (
        rw (same t) h.0,
        on t (rw e refl) here h.1,
        rw (same t) (lift-Turns top top' g t.generation ts off (omega (arith, here)) h.2),
      )
  | inr e ↦ rw e (
    h.0,
    off t (λ q. ground (arith, q, e)) h.1,
    update-Turns top top' g t.generation f ts same (λ u found. on u (rw e found)) off h.2,
  )
]

pub IsTurn-lift : (g : ℕ) (t : PermissionTurn) → t.generation ≢ g → IsTurn g t → IsTurn (suc g) t
IsTurn-lift g t off h = record {
  current = λ a. ground (arith, off (h.current a));
  ends = h.ends;
  drained = h.drained;
}

pub count_dispatch-IsTurn :
    (top : ℕ) (t : PermissionTurn) → t.active ≡ true → IsTurn top t → IsTurn top (count_dispatch t)
count_dispatch-IsTurn top t a h = record {
  current = h.current;
  ends = h.ends;
  drained = ground (arith, h.ends, h.drained, a);
}

pub finish_dispatch-IsTurn :
    (top : ℕ) (t : PermissionTurn) → IsTurn top t → IsTurn top (finish_dispatch t)
unfolding close_done
finish_dispatch-IsTurn top t h = record {
  current = λ a. ground (arith, h.current, a);
  ends = ground (arith, h.ends);
  drained = ground (arith, h.ends, h.drained);
}

pub end_active-IsTurn : (g : ℕ) (t : PermissionTurn) → IsTurn g t → IsTurn (suc g) (end_active t)
unfolding close_done
end_active-IsTurn g t h = record {
  current = λ a. ground (arith, h.current, a);
  ends = ground (arith, h.ends);
  drained = ground (arith, h.ends, h.drained);
}

pub stop_admission-IsTurn :
    (top : ℕ) (t : PermissionTurn) → IsTurn top t → IsTurn top (stop_admission t)
unfolding close_done
stop_admission-IsTurn top t h = record {
  current = λ a. ground (arith, h.current, a);
  ends = ground (arith, h.ends);
  drained = ground (arith, h.ends, h.drained);
}

pub shut_turn-IsTurn : (top : ℕ) (t : PermissionTurn) → IsTurn top t → IsTurn top (shut_turn t)
unfolding close_done
shut_turn-IsTurn top t h = record {
  current = λ a. ground (arith, h.current, a);
  ends = ground (arith, h.ends);
  drained = ground (arith, h.ends, h.drained);
}
