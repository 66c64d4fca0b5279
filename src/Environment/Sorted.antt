-- ===== src/Environment/Sorted.antt =====
-- wrapper/environment.go: the form and the order of the result.
use go_agent_wrapper.Shared.{
  subst, ℕ, ◌+◌, Bytes, is_empty, ◌≡◌, refl, Bool, true, false, not, ◌||◌, inl, inr, Option, none,
  some, List, [], ◌∷◌, ◌++◌, if◌then◌else◌, All, insert, delete, arith, Bool-cases, Option-cases,
}
use go_agent_wrapper.Environment.{
  ChildEnvironment, Entry, has_byte, cut, canonical_name, validate_name, is_allowed, Values,
  inherit_all, set_all, unset_all, is_replace, collect, resolve_entries, resolve_for_os, is_less,
  place, sort, entries, assignment_of, assignments, is_explicit,
}
use go_agent_wrapper.Environment.Values.{
  sum-cases, resolve_entries-collect, allowed_names, canonical_names,
}

-- An entry that can be written as an assignment: its name is there and has no "=".
abbrev pub IsNamed : Entry → Type 0
IsNamed e = (is_empty e.name ≡ false) × (has_byte b'=' e.name ≡ false)

abbrev AreNamed : Values → Type 0
AreNamed values = All (λ p. IsNamed p.1) values

cut-name : (a name value : Bytes) → cut a ≡ some (name, value) → has_byte b'=' name ≡ false
unfolding cut has_byte
cut-name [] name value h = ground (arith, h)
cut-name (c ∷ s) name value h = elim (Option-cases (cut s)) [
  | inl e ↦ ground (arith, e, h)
  | inr ((n, v), e) ↦ let rest = cut-name s n v e in ground (arith, e, h, rest)
]

insert-AreNamed :
    (k : Bytes) (e : Entry) (values : Values)
    → IsNamed e
    → AreNamed values
    → AreNamed (insert k e values)
unfolding insert
insert-AreNamed k e [] named h = ground (arith, named)
insert-AreNamed k e ((j, f) ∷ values) named h =
    let rest = insert-AreNamed k e values named h.1 in ground (arith, named, h, rest)

delete-AreNamed : (k : Bytes) (values : Values) → AreNamed values → AreNamed (delete k values)
unfolding delete
delete-AreNamed k [] h = h
delete-AreNamed k ((j, f) ∷ values) h =
    let rest = delete-AreNamed k values h.1 in ground (arith, h, rest)

inherit_all-AreNamed :
    (windows : Bool) (allow : Option (List Bytes)) (xs : List Bytes) (values : Values)
    → AreNamed values
    → AreNamed (inherit_all windows allow xs values)
unfolding inherit_all
inherit_all-AreNamed windows allow [] values h = h
inherit_all-AreNamed windows allow (a ∷ xs) values h = elim (Option-cases (cut a)) [
  | inl e ↦ rw (e, inherit_all) (inherit_all-AreNamed windows allow xs values h)
  | inr ((name, value), e) ↦
      let key = canonical_name windows name in
      elim (Bool-cases (is_empty name || not (is_allowed allow key))) [
        | inl skip ↦ rw (e, skip, inherit_all) (inherit_all-AreNamed windows allow xs values h)
        | inr keep ↦
            let entry : Entry = record { name = name; value = value } in
            let put =
              insert-AreNamed key entry values (ground (arith, keep), cut-name a name value e) h in
            rw (e, keep, inherit_all)
              (inherit_all-AreNamed windows allow xs (insert key entry values) put)
      ]
]

named : (name : Bytes) → validate_name name ≡ none → is_empty name ≡ false
unfolding validate_name
named name h = ground (arith, h)

set_all-AreNamed :
    (windows : Bool) (xs : List Bytes) (values result : Values)
    → AreNamed values
    → set_all windows xs values ≡ inr result
    → AreNamed result
unfolding set_all
set_all-AreNamed windows [] values result h r =
    let same : values ≡ result = ground (arith, r) in subst AreNamed same h
set_all-AreNamed windows (a ∷ xs) values result h r = elim (Option-cases (cut a)) [
  | inl e ↦ ground (arith, e, r)
  | inr ((name, value), e) ↦
      let entry : Entry = record { name = name; value = value } in
      let key = canonical_name windows name in
      elim (Option-cases (validate_name name)) [
        | inr (bad, f) ↦ ground (arith, e, f, r)
        | inl f ↦ elim (Bool-cases (has_byte 0 value)) [
          | inl nul ↦ ground (arith, e, f, nul, r)
          | inr no_nul ↦
              set_all-AreNamed windows xs (insert key entry values) result
                (insert-AreNamed key entry values (named name f, cut-name a name value e) h)
                (ground (arith, e, f, no_nul, r))
        ]
      ]
]

unset_all-AreNamed :
    (ks : List Bytes) (values : Values) → AreNamed values → AreNamed (unset_all ks values)
unfolding unset_all
unset_all-AreNamed [] values h = h
unset_all-AreNamed (k ∷ ks) values h =
    unset_all-AreNamed ks (delete k values) (delete-AreNamed k values h)

-- The order of the names, not necessarily strict.
abbrev pub IsSorted : List Entry → Type 0
IsSorted [] = Unit
IsSorted (e ∷ []) = Unit
IsSorted (e ∷ f ∷ es) = (is_less f.name e.name ≡ false) × IsSorted (f ∷ es)

is_less-asym : (s t : Bytes) → is_less s t ≡ true → is_less t s ≡ false
unfolding is_less
is_less-asym [] [] h = ground (arith, h)
is_less-asym [] (d ∷ t) h = refl
is_less-asym (c ∷ s) [] h = ground (arith, h)
is_less-asym (c ∷ s) (d ∷ t) h = let rest = is_less-asym s t in ground (arith, h, rest)

place-IsSorted : (e : Entry) (es : List Entry) → IsSorted es → IsSorted (place e es)
unfolding place
place-IsSorted e [] h = tt
place-IsSorted e (x ∷ []) h = let order = is_less-asym e.name x.name in ground (arith, order)
place-IsSorted e (x ∷ y ∷ es) h =
    let order = is_less-asym e.name x.name in
    let rest = place-IsSorted e (y ∷ es) h.1 in ground (arith, h, order, rest)

sort-IsSorted : (es : List Entry) → IsSorted (sort es)
unfolding sort
sort-IsSorted [] = tt
sort-IsSorted (e ∷ es) = place-IsSorted e (sort es) (sort-IsSorted es)

abbrev pub count : (Entry → Bool) → List Entry → ℕ
count test [] = 0
count test (e ∷ es) = (if test e then 1 else 0) + count test es

place-count :
    (test : Entry → Bool) (e : Entry) (es : List Entry)
    → count test (place e es) ≡ count test (e ∷ es)
unfolding place
place-count test e [] = refl
place-count test e (x ∷ es) = ground (arith, place-count test e es)

sort-count : (test : Entry → Bool) (es : List Entry) → count test (sort es) ≡ count test es
unfolding sort
sort-count test [] = refl
sort-count test (e ∷ es) = omega (arith, place-count test e (sort es), sort-count test es)

place-All : (P : Entry → Type 0) (e : Entry) (es : List Entry) → P e → All P es → All P (place e es)
unfolding place
place-All P e [] pe h = (pe, h)
place-All P e (x ∷ es) pe h = elim (Bool-cases (is_less e.name x.name)) [
  | inl l ↦ rw l (pe, h)
  | inr l ↦ rw l (h.0, place-All P e es pe h.1)
]

sort-All : (P : Entry → Type 0) (es : List Entry) → All P es → All P (sort es)
unfolding sort
sort-All P [] h = h
sort-All P (e ∷ es) h = place-All P e (sort es) h.0 (sort-All P es h.1)

entries-All : (values : Values) → AreNamed values → All IsNamed (entries values)
unfolding entries
entries-All [] h = h
entries-All ((k, e) ∷ values) h = (h.0, entries-All values h.1)

-- What an assignment of the result reads back as.
cut-assignment :
    (name value : Bytes)
    → has_byte b'=' name ≡ false
    → cut (name ++ b'=' ∷ value) ≡ some (name, value)
unfolding cut has_byte
cut-assignment [] value h = ground arith
cut-assignment (c ∷ name) value h = let rest = cut-assignment name value in ground (arith, h, rest)

reads_back : (e : Entry) → IsNamed e → cut (assignment_of e) ≡ some (e.name, e.value)
reads_back e h = cut-assignment e.name e.value h.1

abbrev pub ReadsBack : Entry → Type 0
ReadsBack e = (is_empty e.name ≡ false) × (cut (assignment_of e) ≡ some (e.name, e.value))

All-ReadsBack : (es : List Entry) → All IsNamed es → All ReadsBack es
All-ReadsBack [] h = h
All-ReadsBack (e ∷ es) h = ((h.0.0, reads_back e h.0), All-ReadsBack es h.1)

collect-AreNamed :
    (windows : Bool) (cfg : ChildEnvironment) (inherited : List Bytes) (allow : Option (List Bytes))
    (unset : List Bytes) (values : Values)
    → collect windows cfg inherited allow unset ≡ inr values
    → AreNamed values
unfolding collect
collect-AreNamed windows cfg inherited allow unset values h =
    let base = if is_replace cfg.mode then [] else inherit_all windows allow inherited [] in
    let base-AreNamed : AreNamed base = elim (Bool-cases (is_replace cfg.mode)) [
      | inl e ↦ rw e tt
      | inr e ↦ rw e (inherit_all-AreNamed windows allow inherited [] tt)
    ] in
    elim (sum-cases (set_all windows cfg.set base)) [
      | inl (e, f) ↦ let impossible : ⊥ = ground (arith, f, h) in absurd impossible
      | inr (v, f) ↦
          let same : unset_all unset v ≡ values = ground (arith, f, h) in
          subst AreNamed same
            (unset_all-AreNamed unset v (set_all-AreNamed windows cfg.set base v base-AreNamed f))
    ]

-- Where resolution succeeds with some values, the environment of the child is their entries, each
-- exactly as often as there, in the order of their names, written as assignments; each has a
-- name, and the assignment reads back as that name and value.
pub resolve_for_os_lem :
    (windows : Bool) (cfg : ChildEnvironment) (inherited : List Bytes) (values : Values)
    → resolve_entries windows cfg inherited ≡ inr values
    → (resolve_for_os windows cfg inherited
        ≡ inr (assignments (sort (entries values)), is_explicit cfg))
      × IsSorted (sort (entries values))
      × ((test : Entry → Bool) → count test (sort (entries values)) ≡ count test (entries values))
      × All ReadsBack (sort (entries values))
unfolding resolve_for_os
resolve_for_os_lem windows cfg inherited values h =
    let all_named =
      collect-AreNamed windows cfg inherited (allowed_names windows cfg.allowlist)
        (canonical_names windows cfg.unset) values
        (resolve_entries-collect windows cfg inherited values h) in
    (
      rw (h, resolve_for_os) refl,
      sort-IsSorted (entries values),
      λ test. sort-count test (entries values),
      All-ReadsBack (sort (entries values))
          (sort-All IsNamed (entries values) (entries-All values all_named)),
    )
