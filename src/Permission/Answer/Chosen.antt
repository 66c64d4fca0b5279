-- ===== src/Permission/Answer/Chosen.antt =====
-- acp/permission.go: a selection is one of the options that the agent offered.
use go_agent_wrapper.Shared.{
  Bytes, ◌==◌, ==_iff, ==-refl, subst, is_empty, ◌≡◌, refl, ap, true, false, ◌||◌, inl, inr, Option,
  none, some, List, [], ◌∷◌, ◌++◌, All, Option-cases, Bool-cases, arith,
}
use go_agent_wrapper.Permission.Request.{
  PermissionOption, ToolCall, PermissionRequest, Wire, selected, seen, options_valid, parse_options,
  parse_request, find_option, cancelled_permission, permission_failure,
}
use go_agent_wrapper.Permission.Coordinator.{Pending, Coordinator}
use go_agent_wrapper.Permission.Answer.{
  Callback, context_error, responder_error, selection, live, is_canceled, decide,
}

-- `o` is in the list, and no other option there has its id.
abbrev pub IsOnly : PermissionOption → List PermissionOption → Type 0
IsOnly o os =
    (before : List PermissionOption) × (after : List PermissionOption) × (os ≡ before ++ o ∷ after)
    × All (λ x. (x.option_id == o.option_id) ≡ false) before
    × All (λ x. (x.option_id == o.option_id) ≡ false) after

-- Every option has an id, a name and a kind, and no two have one id.
abbrev Distinct : List PermissionOption → Type 0
Distinct [] = Unit
Distinct (o ∷ os) =
    (is_empty o.option_id ≡ false)
    × All (λ x. (x.option_id == o.option_id) ≡ false) os
    × Distinct os

unseen :
    (k : Bytes) (ids : List Bytes) (os : List PermissionOption)
    → seen k ids ≡ true
    → options_valid ids os ≡ true
    → All (λ x. (x.option_id == k) ≡ false) os
unfolding options_valid seen
unseen k ids [] s h = tt
unseen k ids (o ∷ os) s h = elim (Bool-cases (o.option_id == k)) [
  | inl e ↦
      let again : seen o.option_id ids ≡ true = rw ((==_iff o.option_id k).0 e) s in
      absurd (ground (arith, h, again))
  | inr e ↦ (e, unseen k (o.option_id ∷ ids) os (ground (arith, s)) (ground (arith, h)))
]

valid-Distinct :
    (ids : List Bytes) (os : List PermissionOption) → options_valid ids os ≡ true → Distinct os
unfolding options_valid seen
valid-Distinct ids [] h = tt
valid-Distinct ids (o ∷ os) h =
    let rest : options_valid (o.option_id ∷ ids) os ≡ true = ground (arith, h) in
    (
      ground (arith, h),
      unseen o.option_id (o.option_id ∷ ids) os (ground (arith, ==-refl o.option_id)) rest,
      valid-Distinct (o.option_id ∷ ids) os rest,
    )

found-IsOnly :
    (k : Bytes) (os : List PermissionOption) (o : PermissionOption)
    → Distinct os
    → find_option k os ≡ some o
    → IsOnly o os × (o.option_id ≡ k)
unfolding find_option
found-IsOnly k [] o d e = cc
found-IsOnly k (x ∷ xs) o d e = elim (Bool-cases (x.option_id == k)) [
  | inl q ↦
      let same : x ≡ o = ground (arith, e, q) in
      subst (λ y. IsOnly y (x ∷ xs) × (y.option_id ≡ k)) same
        (([], xs, refl, tt, d.1), (==_iff x.option_id k).0 q)
  | inr q ↦
      let ((before, after, split, left, right), named) =
        found-IsOnly k xs o d.2 (ground (arith, e, q)) in
      ((x ∷ before, after, ap (λ l. x ∷ l) split, (rw named q, left), right), named)
]

parsed-Distinct :
    (k : Bytes) (call : ToolCall) (os : Option (List PermissionOption))
    (request : PermissionRequest)
    → parse_options k call os ≡ some request
    → Distinct request.options
unfolding parse_options
parsed-Distinct k call none request e = cc
parsed-Distinct k call (some os) request e = elim (Bool-cases (options_valid [] os)) [
  | inl valid ↦
      let same : os ≡ request.options = ground (arith, e, valid) in
      subst Distinct same (valid-Distinct [] os valid)
  | inr broken ↦ absurd (ground (arith, e, broken))
]

parse_named :
    (w : Wire) (call : ToolCall) (request : PermissionRequest)
    → w.tool_call ≡ some call
    → parse_request (some w) ≡ some request
    → parse_options w.session_id call w.options ≡ some request
unfolding parse_request
parse_named w call request f e =
    elim (Bool-cases (is_empty w.session_id || is_empty call.tool_call_id)) [
      | inl bad ↦ absurd (ground (arith, e, f, bad))
      | inr good ↦ ground (arith, e, f, good)
    ]

accepted-Distinct :
    (w : Wire) (request : PermissionRequest)
    → parse_request (some w) ≡ some request
    → Distinct request.options
unfolding parse_request
accepted-Distinct w request e = elim (Option-cases w.tool_call) [
  | inl f ↦ absurd (ground (arith, e, f))
  | inr (call, f) ↦
      parsed-Distinct w.session_id call w.options request (parse_named w call request f e)
]

-- A selection at the lock, taken apart.
decide-parts :
    (e : Pending) (callback : Callback) (os : List PermissionOption) (p : Coordinator)
    → (decide e callback os p).outcome ≡ selected
    → (k : Bytes) × (callback ≡ selection k)
      × (is_empty k ≡ false)
      × (find_option k os ≡ some (decide e callback os p).option)
      × (is_canceled e p ≡ false)
unfolding decide cancelled_permission permission_failure
decide-parts e context_error os p h = absurd (ground (arith, h))
decide-parts e responder_error os p h = absurd (ground (arith, h))
decide-parts e (selection k) os p h =
    (k, refl, ground (arith, h), ground (arith, h), ground (arith, h))

-- Where a request was accepted and its resolution at the lock is a selection, the responder chose
-- it by a non-empty id, the resolved option has that id and is the only offered one that has it,
-- and at the lock the entry was not cancelled and its turn took answers.
pub decide-selected :
    (w : Wire) (request : PermissionRequest) (e : Pending) (callback : Callback) (p : Coordinator)
    → parse_request (some w) ≡ some request
    → (decide e callback request.options p).outcome ≡ selected
    → (k : Bytes) × (callback ≡ selection k)
      × (is_empty k ≡ false)
      × ((decide e callback request.options p).option.option_id ≡ k)
      × IsOnly (decide e callback request.options p).option request.options
      × (e.canceled ≡ false)
      × (live e.generation p ≡ true)
unfolding is_canceled
decide-selected w request e callback p accepted chosen =
    let (k, by, named, found, kept) = decide-parts e callback request.options p chosen in
    let (only, same) =
      found-IsOnly k request.options _ (accepted-Distinct w request accepted) found in
    (k, by, named, same, only, ground (arith, kept), ground (arith, kept))
