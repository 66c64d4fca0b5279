-- ===== src/Delivery/Plan.antt =====
-- adapters/delivery.go: when Plan succeeds, and with what.
use go_agent_wrapper.Shared.{
  Bytes, bytes, ◌==◌, ◌≡◌, ◌≢◌, ◌↔◌, refl, sym, ap, ◌∙◌, true, false, ◌||◌, Option, none, some, ◌⊎◌,
  inl, inr, List, [], ◌∷◌, is_empty, if◌then◌else◌, Bool-cases, Option-cases, ==_iff, arith,
}
use go_agent_wrapper.Shared.Int.{is_negative, int_eq_iff}
use go_agent_wrapper.Delivery.Capability
use go_agent_wrapper.Delivery.{
  Evidence, evidence_of, has_seen, collect, new_capabilities, DeliveryError, PlanRequest,
  DeliveryPlan, delivery_receipts, check_state, check_request, plan_found, plan_checked, plan,
  lacks_evidence,
}

false-true : false ≡ true → ⊥
false-true e = cc

-- The evidence for a capability after the loop is that of its first entry, if it has a name and was
-- not seen before.
evidence_of-collect :
    (capability : Bytes) (seen : List Bytes) (entries : List Evidence)
    → evidence_of capability (collect seen entries) ≡ (
        if is_empty capability || has_seen capability seen
        then none
        else evidence_of capability entries)
unfolding evidence_of collect has_seen
evidence_of-collect capability seen [] = ground arith
evidence_of-collect capability seen (entry ∷ rest) = ground (
  arith,
  evidence_of-collect capability seen rest,
  evidence_of-collect capability (entry.capability ∷ seen) rest,
  ==_iff entry.capability capability,
)

-- NewDeliveryCapabilities neither makes up nor forgets support: a named capability has the evidence
-- of its first entry, and the empty one has none.
pub evidence_of-new_capabilities :
    (capability : Bytes) (entries : List Evidence)
    → evidence_of capability (new_capabilities entries)
      ≡ (if is_empty capability then none else evidence_of capability entries)
unfolding new_capabilities has_seen
evidence_of-new_capabilities capability entries =
    let l = evidence_of-collect capability [] entries in ground (arith, l)

-- The runtime is idle, of no known state, or busy where the operation is not a turn's submission.
abbrev pub IsWilling : Bytes → Bytes → Type 0
IsWilling state capability =
    (state ≡ bytes "idle")
    ⊎ ((state ≡ []) ⊎ ((state ≡ bytes "busy") × (capability ≢ Capability.send_turn)))

check_state_of :
    (state capability : Bytes) → IsWilling state capability → check_state state capability ≡ none
unfolding check_state ◌==◌
check_state_of state capability (inl idle) = rw idle refl
check_state_of state capability (inr (inl empty)) = rw empty refl
check_state_of state capability (inr (inr (busy, other))) =
    rw busy (ground (arith, other, ==_iff capability Capability.send_turn))

empty_is_nil : (k : Bytes) → is_empty k ≡ true → k ≡ []
empty_is_nil [] e = refl
empty_is_nil (c ∷ k) e = cc

IsWilling-of :
    (state capability : Bytes) → check_state state capability ≡ none → IsWilling state capability
unfolding check_state
IsWilling-of state capability h = elim (Bool-cases (state == bytes "offline")) [
  | inl off ↦ let impossible : ⊥ = ground (arith, h, off) in absurd impossible
  | inr not_off ↦ elim (Bool-cases (state == bytes "busy")) [
    | inl busy ↦ elim (Bool-cases (capability == Capability.send_turn)) [
      | inl send ↦ let impossible : ⊥ = ground (arith, h, not_off, busy, send) in absurd impossible
      | inr other ↦ inr (
          inr (
            (==_iff state (bytes "busy")).0 busy,
            λ e. false-true (sym other ∙ (==_iff capability Capability.send_turn).1 e),
          ))
    ]
    | inr not_busy ↦ elim (Bool-cases (state == bytes "idle")) [
      | inl idle ↦ inl ((==_iff state (bytes "idle")).0 idle)
      | inr not_idle ↦ elim (Bool-cases (is_empty state)) [
        | inl empty ↦ inr (inl (empty_is_nil state empty))
        | inr some_state ↦
            let impossible : ⊥ = ground (arith, h, not_off, not_busy, not_idle, some_state) in
            absurd impossible
      ]
    ]
  ]
]

-- A request that can be carried out by the evidence of an entry.
pub record IsExecutable (supported : List Evidence) (req : PlanRequest) (entry : Evidence)
    : Type 0 where
  pub named : is_empty req.capability ≡ false
  pub not_negative : is_negative req.correlation.binding_generation ≡ false
  pub fresh :
      req.require_binding_generation ≡ true
      → req.correlation.binding_generation ≡ req.expected_binding_generation
  pub advertised : evidence_of req.capability supported ≡ some entry
  pub backed : lacks_evidence entry ≡ false
  pub willing : IsWilling req.runtime_state req.capability

abbrev pub planned : PlanRequest → Evidence → DeliveryPlan
planned req entry = record {
  capability = req.capability;
  mechanism = entry.mechanism;
  correlation = req.correlation;
  receipts = delivery_receipts req.capability;
}

check_request_of :
    (req : PlanRequest)
    → is_empty req.capability ≡ false
    → is_negative req.correlation.binding_generation ≡ false
    → (req.require_binding_generation ≡ true
        → req.correlation.binding_generation ≡ req.expected_binding_generation)
    → check_request req ≡ none
unfolding check_request
check_request_of req named not_negative fresh = ground (
  arith,
  named,
  not_negative,
  fresh,
  int_eq_iff req.correlation.binding_generation req.expected_binding_generation,
)

request_of :
    (req : PlanRequest)
    → check_request req ≡ none
    → (is_empty req.capability ≡ false)
      × (is_negative req.correlation.binding_generation ≡ false)
      × (req.require_binding_generation ≡ true
          → req.correlation.binding_generation ≡ req.expected_binding_generation)
unfolding check_request
request_of req h = (
  ground (arith, h),
  ground (arith, h),
  λ r.
      ground (
        arith,
        h,
        r,
        int_eq_iff req.correlation.binding_generation req.expected_binding_generation,
      ),
)

found_of :
    (req : PlanRequest) (found : Option Evidence) (p : DeliveryPlan)
    → plan_found req found ≡ inr p
    → (entry : Evidence) × (found ≡ some entry)
      × (lacks_evidence entry ≡ false)
      × (check_state req.runtime_state req.capability ≡ none)
      × (p ≡ planned req entry)
found_of req none p h = let impossible : ⊥ = ground (arith, h) in absurd impossible
found_of req (some entry) p h = elim (Bool-cases (lacks_evidence entry)) [
  | inl bare ↦ let impossible : ⊥ = ground (arith, h, bare) in absurd impossible
  | inr backed ↦ elim (Option-cases (check_state req.runtime_state req.capability)) [
    | inl willing ↦ (entry, refl, backed, willing, ground (arith, h, backed, willing))
    | inr (e, bad) ↦ let impossible : ⊥ = ground (arith, h, backed, bad) in absurd impossible
  ]
]

plan_found_of :
    (req : PlanRequest) (entry : Evidence)
    → lacks_evidence entry ≡ false
    → check_state req.runtime_state req.capability ≡ none
    → plan_found req (some entry) ≡ inr (planned req entry)
plan_found_of req entry backed willing = ground (arith, backed, willing)

checked_of :
    (supported : List Evidence) (req : PlanRequest) (checked : Option DeliveryError)
    (p : DeliveryPlan)
    → plan_checked supported req checked ≡ inr p
    → (checked ≡ none) × (plan_found req (evidence_of req.capability supported) ≡ inr p)
checked_of supported req none p h = (refl, h)
checked_of supported req (some e) p h = let impossible : ⊥ = ground (arith, h) in absurd impossible

-- DeliveryCapabilities.Plan never falls back to another operation: it succeeds exactly for a
-- request that names a capability, whose binding generation is not negative and is the expected one
-- where that is required, whose capability is advertised first with a mechanism and evidence, and
-- whose runtime is idle or of no stated condition, or busy where the operation does not submit a
-- turn; and the plan is then for that very capability, with the entry's mechanism, the request's
-- correlation and the receipts of the capability.
pub plan_iff :
    (supported : List Evidence) (req : PlanRequest) (p : DeliveryPlan)
    → (plan supported req ≡ inr p)
      ↔ ((entry : Evidence) × IsExecutable supported req entry × (p ≡ planned req entry))
unfolding plan
plan_iff supported req p = (
  λ h.
      let (ok, found) = checked_of supported req (check_request req) p h in
      let (entry, advertised, backed, willing, is) =
        found_of req (evidence_of req.capability supported) p found in
      let (named, not_negative, fresh) = request_of req ok in
      (
        entry,
        record {
          named = named;
          not_negative = not_negative;
          fresh = fresh;
          advertised = advertised;
          backed = backed;
          willing = IsWilling-of req.runtime_state req.capability willing;
        },
        is,
      ),
  λ (entry, x, is).
      rw
        (
          check_request_of req x.named x.not_negative x.fresh,
          x.advertised,
          plan_found_of req entry x.backed
              (check_state_of req.runtime_state req.capability x.willing),
        )
        (ap inr (sym is)),
)
