-- ===== src/Delivery/Runtime.antt =====
-- adapters/delivery.go: what DeliveryCapabilitiesForRuntime declares for a runtime. `quote` is fmt's
-- %q on a string.
use go_agent_wrapper.Shared.{
  Bytes, ◌==◌, ◌≡◌, refl, sym, ap, ◌∙◌, Bool, true, false, ◌&&◌, ◌||◌, Option, none, some, List, [],
  ◌∷◌, is_empty, if◌then◌else◌, inl, inr, Bool-cases, is_some, arith,
}
use go_agent_wrapper.Delivery.Capability
use go_agent_wrapper.Delivery.Plan.{evidence_of-new_capabilities}
use go_agent_wrapper.Delivery.{
  Evidence, new_capabilities, collect, supports, evidence_of, validate, lacks_evidence,
}
use go_agent_wrapper.Delivery.Entries.{
  delivery_mechanism, delivery_evidence, turn_cancel_mechanism, interrupts_turn, runtime_entries,
  capabilities_for_runtime,
}

validate-collect :
    (seen : List Bytes) (entries : List Evidence)
    → validate entries ≡ none
    → validate (collect seen entries) ≡ none
unfolding validate collect
validate-collect seen [] h = refl
validate-collect seen (entry ∷ rest) h =
    elim (Bool-cases (is_empty entry.capability || lacks_evidence entry)) [
      | inl bad ↦ let impossible : ⊥ = ground (arith, h, bad) in absurd impossible
      | inr good ↦
          let later : validate rest ≡ none = ground (arith, h, good) in
          let skipped = validate-collect seen rest later in
          let kept = validate-collect (entry.capability ∷ seen) rest later in
          ground (arith, good, skipped, kept)
    ]

mechanism_there :
    (protocol transport : Bytes) → is_empty (delivery_mechanism protocol transport) ≡ false
unfolding delivery_mechanism
mechanism_there protocol transport = ground arith

evidence_there :
    (quote : Bytes → Bytes) (provider protocol transport : Bytes)
    → is_empty (delivery_evidence quote provider protocol transport) ≡ false
unfolding delivery_evidence
evidence_there quote [] protocol transport = refl
evidence_there quote (c ∷ provider) protocol transport = refl

cancel_there :
    (protocol : Bytes)
    → (is_empty (turn_cancel_mechanism protocol).0 ≡ false)
      × (is_empty (turn_cancel_mechanism protocol).1 ≡ false)
unfolding turn_cancel_mechanism
cancel_there protocol = (ground arith, ground arith)

-- What the entries support, and that each has its evidence.
entries_valid :
    (mechanism evidence : Bytes) (interrupts : Bool) (interrupt : Bytes) (cancels : Bool)
    (cancel : Bytes × Bytes)
    → is_empty mechanism ≡ false
    → is_empty evidence ≡ false
    → is_empty cancel.0 ≡ false
    → is_empty cancel.1 ≡ false
    → validate (runtime_entries mechanism evidence interrupts interrupt cancels cancel) ≡ none
unfolding validate
entries_valid mechanism evidence true interrupt true (m, e) a b c d = ground (arith, a, b, c, d)
entries_valid mechanism evidence true interrupt false (m, e) a b c d = ground (arith, a, b, c, d)
entries_valid mechanism evidence false interrupt true (m, e) a b c d = ground (arith, a, b, c, d)
entries_valid mechanism evidence false interrupt false (m, e) a b c d = ground (arith, a, b, c, d)

-- The operations of a runtime.
abbrev pub is_declared : Bytes → Bool → Bool → Bool
unfolding ◌==◌
is_declared capability interrupts cancels =
    Capability.send_turn == capability
    || Capability.lifecycle_stop == capability
    || (interrupts && Capability.interrupt == capability)
    || (cancels && Capability.cancel_turn == capability)

some_or {ℓ} :
    {A : Type ℓ} (b : Bool) (x : A) (o : Option A)
    → is_some (if b then some x else o) ≡ (b || is_some o)
some_or true x o = refl
some_or false x o = refl

or_false : (b : Bool) → (b || false) ≡ b
or_false true = refl
or_false false = refl

or_assoc3 : (a b c : Bool) → (a || (b || c)) ≡ ((a || b) || c)
or_assoc3 true b c = refl
or_assoc3 false b c = refl

or_assoc4 : (a b c d : Bool) → (a || (b || (c || d))) ≡ (((a || b) || c) || d)
or_assoc4 true b c d = refl
or_assoc4 false b c d = or_assoc3 b c d

entries_support :
    (capability mechanism evidence : Bytes) (interrupts : Bool) (interrupt : Bytes) (cancels : Bool)
    (cancel : Bytes × Bytes)
    → is_some (
        evidence_of capability
          (runtime_entries mechanism evidence interrupts interrupt cancels cancel))
      ≡ is_declared capability interrupts cancels
unfolding evidence_of ◌==◌
entries_support capability mechanism evidence true interrupt true (m, e) =
    simp (some_or, or_false)
      (or_assoc4 (Capability.send_turn == capability) (Capability.lifecycle_stop == capability)
        (Capability.interrupt == capability) (Capability.cancel_turn == capability))
entries_support capability mechanism evidence true interrupt false (m, e) =
    simp (some_or, or_false)
      (or_assoc3 (Capability.send_turn == capability) (Capability.lifecycle_stop == capability)
        (Capability.interrupt == capability))
entries_support capability mechanism evidence false interrupt true (m, e) =
    simp (some_or, or_false)
      (or_assoc3 (Capability.send_turn == capability) (Capability.lifecycle_stop == capability)
        (Capability.cancel_turn == capability))
entries_support capability mechanism evidence false interrupt false (m, e) =
    simp (some_or, or_false)

-- The empty capability is not among the declared ones.
nothing_declared : (interrupts cancels : Bool) → is_declared [] interrupts cancels ≡ false
unfolding ◌==◌
nothing_declared true true = refl
nothing_declared true false = refl
nothing_declared false true = refl
nothing_declared false false = refl

named_only :
    (capability : Bytes) (found : Option Evidence) (interrupts cancels : Bool)
    → is_some found ≡ is_declared capability interrupts cancels
    → is_some (if is_empty capability then none else found)
      ≡ is_declared capability interrupts cancels
unfolding ◌==◌
named_only [] found interrupts cancels h = sym (nothing_declared interrupts cancels)
named_only (c ∷ capability) found interrupts cancels h = h

-- The declaration of a runtime is honest and complete: for every provider, protocol, transport,
-- interrupt capability and quoting, every advertised operation has its mechanism and its evidence; and
-- exactly these are supported: submitting a turn and stopping, interrupting where the interrupt
-- capability is turn or steer, and cancelling a turn where that is turn-scoped.
pub capabilities_for_runtime_lem :
    (quote : Bytes → Bytes) (provider protocol transport interrupt : Bytes)
    (turn_scoped_cancel : Bool)
    → (validate
          (capabilities_for_runtime quote provider protocol transport interrupt turn_scoped_cancel)
        ≡ none)
      × ((capability : Bytes)
          → supports capability (
              capabilities_for_runtime quote provider protocol transport interrupt
                turn_scoped_cancel)
            ≡ is_declared capability (interrupts_turn interrupt) turn_scoped_cancel)
unfolding capabilities_for_runtime supports
capabilities_for_runtime_lem quote provider protocol transport interrupt turn_scoped_cancel =
    let mechanism = delivery_mechanism protocol transport in
    let evidence = delivery_evidence quote provider protocol transport in
    let cancel = turn_cancel_mechanism protocol in
    let entries =
      runtime_entries mechanism evidence (interrupts_turn interrupt) interrupt turn_scoped_cancel
        cancel in
    (
      unfold new_capabilities in
          validate-collect [] entries (
            entries_valid mechanism evidence (interrupts_turn interrupt) interrupt
              turn_scoped_cancel cancel (mechanism_there protocol transport)
              (evidence_there quote provider protocol transport) (cancel_there protocol).0
              (cancel_there protocol).1),
      λ capability.
          ap (λ o. is_some o) (evidence_of-new_capabilities capability entries)
          ∙ (named_only capability (evidence_of capability entries) (interrupts_turn interrupt)
              turn_scoped_cancel
              (entries_support capability mechanism evidence (interrupts_turn interrupt) interrupt
                turn_scoped_cancel cancel)),
    )
