-- ===== src/Environment/Values.antt =====
-- wrapper/environment.go: which entry each name ends up with.
use go_agent_wrapper.Shared.{
  map, Bytes, is_empty, ◌==◌, ◌≡◌, refl, ◌∙◌, sym, Bool, true, not, ◌&&◌, ◌||◌, ◌⊎◌, inl, inr,
  Option, none, some, List, [], ◌∷◌, if◌then◌else◌, lookup, insert, delete, lookup-insert,
  lookup-delete, arith, Bool-cases, Option-cases,
}
use go_agent_wrapper.Environment.{
  name_set, resolve_entries, check_mode, allow_set, ChildEnvironment, Entry, EnvironmentError,
  has_byte, cut, canonical_name, validate_name, is_member, is_allowed, Values, inherit_all, set_all,
  unset_all, is_replace, collect,
}

-- The first of two optional entries.
abbrev pub or_else : Option Entry → Option Entry → Option Entry
or_else none o = o
or_else (some e) o = some e

-- The entry that an assignment gives to a canonical name, where it does and a test allows it.
unfoldable entry_for : Bool → (Bytes → Bytes → Bool) → Bytes → Bytes → Option Entry
entry_for windows test k assignment = elim (cut assignment) [
  | none ↦ none
  | some (name, value) ↦
      if canonical_name windows name == k && test name value
      then some (record { name = name; value = value })
      else none
]

-- The last assignment to a name in a list.
unfoldable pub last_for : Bool → (Bytes → Bytes → Bool) → Bytes → List Bytes → Option Entry
unfolding entry_for
last_for windows test k [] = none
last_for windows test k (assignment ∷ rest) =
    or_else (last_for windows test k rest) (entry_for windows test k assignment)

-- An inherited assignment counts where it has a name, and the allowlist, if any, holds the name.
abbrev pub inherits : Bool → Option (List Bytes) → Bytes → Bytes → Bool
inherits windows allow name value =
    not (is_empty name) && is_allowed allow (canonical_name windows name)

abbrev pub sets : Bytes → Bytes → Bool
sets name value = true

inherit_all_lem :
    (windows : Bool) (allow : Option (List Bytes)) (k : Bytes) (xs : List Bytes) (values : Values)
    → lookup k (inherit_all windows allow xs values)
      ≡ or_else (last_for windows (inherits windows allow) k xs) (lookup k values)
unfolding inherit_all last_for
inherit_all_lem windows allow k [] values = refl
inherit_all_lem windows allow k (a ∷ xs) values = elim (Option-cases (cut a)) [
  | inl e ↦ let rest = inherit_all_lem windows allow k xs values in ground (arith, e, rest)
  | inr ((name, value), e) ↦
      let entry : Entry = record { name = name; value = value } in
      let key = canonical_name windows name in
      let put = lookup-insert key k entry values in
      elim (Bool-cases (is_empty name || not (is_allowed allow key))) [
        | inl skip ↦
            let rest = inherit_all_lem windows allow k xs values in ground (arith, e, skip, rest)
        | inr keep ↦
            let rest = inherit_all_lem windows allow k xs (insert key entry values) in
            ground (arith, e, keep, rest, put)
      ]
]

unset_all_lem :
    (k : Bytes) (ks : List Bytes) (values : Values)
    → lookup k (unset_all ks values) ≡ (if is_member k ks then none else lookup k values)
unfolding unset_all is_member
unset_all_lem k [] values = refl
unset_all_lem k (j ∷ ks) values =
    ground (arith, unset_all_lem k ks (delete j values), lookup-delete j k values)

set_all_lem :
    (windows : Bool) (k : Bytes) (xs : List Bytes) (values result : Values)
    → set_all windows xs values ≡ inr result
    → lookup k result ≡ or_else (last_for windows sets k xs) (lookup k values)
unfolding set_all last_for
set_all_lem windows k [] values result h = ground (arith, h)
set_all_lem windows k (a ∷ xs) values result h = elim (Option-cases (cut a)) [
  | inl e ↦ ground (arith, e, h)
  | inr ((name, value), e) ↦
      let entry : Entry = record { name = name; value = value } in
      let key = canonical_name windows name in
      let put = lookup-insert key k entry values in
      let rest = set_all_lem windows k xs (insert key entry values) result in
      elim (Option-cases (validate_name name)) [
        | inr (bad, f) ↦ ground (arith, e, f, h)
        | inl f ↦ elim (Bool-cases (has_byte 0 value)) [
          | inl nul ↦ ground (arith, e, f, nul, h)
          | inr no_nul ↦ ground (arith, e, f, no_nul, h, rest, put)
        ]
      ]
]

pub sum-cases :
    {A : Type 0} (r : EnvironmentError ⊎ A)
    → ((e : EnvironmentError) × (r ≡ inl e)) ⊎ ((v : A) × (r ≡ inr v))
sum-cases (inl e) = inl (e, refl)
sum-cases (inr v) = inr (v, refl)

fill :
    (windows : Bool) (xs unset : List Bytes) (base values : Values) (k : Bytes)
    → (elim (set_all windows xs base) [ inl e ↦ inl e | inr set ↦ inr (unset_all unset set) ])
      ≡ inr values
    → lookup k values
      ≡ (if is_member k unset then none else or_else (last_for windows sets k xs) (lookup k base))
fill windows xs unset base values k h = elim (sum-cases (set_all windows xs base)) [
  | inl (e, f) ↦ ground (arith, f, h)
  | inr (v, f) ↦
      let set = set_all_lem windows k xs base v f in
      let unset_of = unset_all_lem k unset v in ground (arith, f, h, set, unset_of)
]

collect_lem :
    (windows : Bool) (cfg : ChildEnvironment) (inherited : List Bytes) (allow : Option (List Bytes))
    (unset : List Bytes) (values : Values) (k : Bytes)
    → collect windows cfg inherited allow unset ≡ inr values
    → lookup k values ≡ (
        if is_member k unset
        then none
        else or_else (last_for windows sets k cfg.set) (
            if is_replace cfg.mode
            then none
            else last_for windows (inherits windows allow) k inherited))
unfolding collect
collect_lem windows cfg inherited allow unset values k h = elim (Bool-cases (is_replace cfg.mode)) [
  | inl e ↦
      let filled = fill windows cfg.set unset [] values k in
      unfold lookup in ground (arith, e, h, filled)
  | inr e ↦
      let base = inherit_all windows allow inherited [] in
      let filled = fill windows cfg.set unset base values k in
      let inherited_of = inherit_all_lem windows allow k inherited [] in
      unfold lookup in ground (arith, e, h, filled, inherited_of)
]

abbrev pub canonical_names : Bool → List Bytes → List Bytes
canonical_names windows names = map (canonical_name windows) names

abbrev pub allowed_names : Bool → Option (List Bytes) → Option (List Bytes)
allowed_names windows none = none
allowed_names windows (some names) = some (canonical_names windows names)

name_set_lem :
    (windows : Bool) (names set : List Bytes)
    → name_set windows names ≡ inr set
    → set ≡ canonical_names windows names
unfolding name_set
name_set_lem windows [] set h = ground (arith, h)
name_set_lem windows (name ∷ names) set h = elim (Option-cases (validate_name name)) [
  | inr (e, f) ↦ ground (arith, f, h)
  | inl f ↦ elim (sum-cases (name_set windows names)) [
    | inl (e, g) ↦ ground (arith, f, g, h)
    | inr (rest, g) ↦ let tail = name_set_lem windows names rest g in ground (arith, f, g, h, tail)
  ]
]

allow_set_lem :
    (windows : Bool) (names set : Option (List Bytes))
    → allow_set windows names ≡ inr set
    → set ≡ allowed_names windows names
unfolding allow_set
allow_set_lem windows none set h = ground (arith, h)
allow_set_lem windows (some names) set h = elim (sum-cases (name_set windows names)) [
  | inl (e, g) ↦ ground (arith, g, h)
  | inr (v, g) ↦ let set_of = name_set_lem windows names v g in ground (arith, g, h, set_of)
]

collected :
    (windows : Bool) (cfg : ChildEnvironment) (inherited : List Bytes) (allow : Option (List Bytes))
    (unset : List Bytes)
    → check_mode cfg ≡ none
    → allow_set windows cfg.allowlist ≡ inr allow
    → name_set windows cfg.unset ≡ inr unset
    → resolve_entries windows cfg inherited ≡ collect windows cfg inherited allow unset
unfolding resolve_entries
collected windows cfg inherited allow unset f a g = rw (f, a, g, resolve_entries) refl

pub resolve_entries-collect :
    (windows : Bool) (cfg : ChildEnvironment) (inherited : List Bytes) (values : Values)
    → resolve_entries windows cfg inherited ≡ inr values
    → collect windows cfg inherited
        (allowed_names windows cfg.allowlist)
        (canonical_names windows cfg.unset)
      ≡ inr values
resolve_entries-collect windows cfg inherited values h = elim (Option-cases (check_mode cfg)) [
  | inr (e, f) ↦ unfold resolve_entries in ground (arith, f, h)
  | inl f ↦ elim (sum-cases (allow_set windows cfg.allowlist)) [
    | inl (e, a) ↦ unfold resolve_entries in ground (arith, f, a, h)
    | inr (allow, a) ↦ elim (sum-cases (name_set windows cfg.unset)) [
      | inl (e, g) ↦ unfold resolve_entries in ground (arith, f, a, g, h)
      | inr (unset, g) ↦
          rw⁻¹ (allow_set_lem windows cfg.allowlist allow a, name_set_lem windows cfg.unset unset g)
            (sym (collected windows cfg inherited allow unset f a g) ∙ h)
    ]
  ]
]

-- Where resolution succeeds, what each name ends up with: nothing where it is unset; else the
-- last assignment of Set to it; else, unless the mode is replace, the last inherited assignment to
-- it that has a name and that the allowlist, if there is one, holds. Names count as equal where
-- the platform takes them for equal.
pub resolve_entries_lem :
    (windows : Bool) (cfg : ChildEnvironment) (inherited : List Bytes) (values : Values) (k : Bytes)
    → resolve_entries windows cfg inherited ≡ inr values
    → lookup k values ≡ (
        if is_member k (canonical_names windows cfg.unset)
        then none
        else or_else (last_for windows sets k cfg.set) (
            if is_replace cfg.mode
            then none
            else last_for windows
                (inherits windows (allowed_names windows cfg.allowlist))
                k
                inherited))
unfolding resolve_entries
resolve_entries_lem windows cfg inherited values k h =
    collect_lem windows cfg inherited (allowed_names windows cfg.allowlist)
      (canonical_names windows cfg.unset) values k
      (resolve_entries-collect windows cfg inherited values h)
