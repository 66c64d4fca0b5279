-- ===== src/Environment.antt =====
-- wrapper/environment.go: how the environment of a child process is put together.
pub mod Values
pub mod Sorted
use go_agent_wrapper.Shared.{
  refl, ◌≡◌, ◌-◌, ℕ, Bytes, bytes, is_empty, ◌==◌, Bool, true, false, not, ◌&&◌, ◌||◌, ◌⊎◌, inl,
  inr, Option, none, some, List, [], ◌∷◌, ◌++◌, nat_eq, leb, ltb, if◌then◌else◌, is_some, lookup,
  insert, delete,
}

-- EnvironmentMode: the empty string, the three modes, and any other string.
pub data Mode : Type 0 where
  unset_mode inherit merge replace : Mode
  unknown : Bytes → Mode

-- ChildEnvironment; a nil Allowlist is `none`.
pub record ChildEnvironment : Type 0 where
  pub mode : Mode
  pub allowlist : Option (List Bytes)
  pub set : List Bytes
  pub unset : List Bytes

pub record Entry : Type 0 where
  pub name : Bytes
  pub value : Bytes

-- The errors, without the texts that fmt.Errorf puts around them.
pub data EnvironmentError : Type 0 where
  unknown_mode set_in_inherit allowlist_in_replace no_assignment value_has_nul : EnvironmentError
  name_empty name_has_equals name_has_nul : EnvironmentError

unfoldable pub has_byte : ℕ → Bytes → Bool
has_byte c [] = false
has_byte c (d ∷ s) = nat_eq c d || has_byte c s

-- strings.Cut(assignment, "=")
unfoldable pub cut : Bytes → Option (Bytes × Bytes)
cut [] = none
cut (c ∷ s) =
    let rest = cut s in
    if nat_eq c b'='
    then some ([], s)
    else elim rest [ none ↦ none | some (name, value) ↦ some (c ∷ name, value) ]

-- strings.ToUpper, on ASCII letters; letters outside ASCII stay as they are.
unfoldable pub to_upper : Bytes → Bytes
to_upper [] = []
to_upper (c ∷ s) = (if leb b'a' c && leb c b'z' then c - 32 else c) ∷ to_upper s

-- canonicalEnvironmentName, of whether the platform is Windows
unfoldable pub canonical_name : Bool → Bytes → Bytes
unfolding to_upper
canonical_name windows name = if windows then to_upper name else name

-- validateEnvironmentName
unfoldable pub validate_name : Bytes → Option EnvironmentError
unfolding has_byte
validate_name name =
    if is_empty name
    then some name_empty
    else if has_byte b'=' name
    then some name_has_equals
    else if has_byte 0 name
    then some name_has_nul
    else none

-- environmentNameSet: the set as the list of its canonical names.
unfoldable pub name_set : Bool → List Bytes → EnvironmentError ⊎ List Bytes
unfolding validate_name canonical_name
name_set windows [] = inr []
name_set windows (name ∷ names) = elim (validate_name name) [
  | some e ↦ inl e
  | none ↦ elim (name_set windows names) [
    | inl e ↦ inl e
    | inr set ↦ inr (canonical_name windows name ∷ set)
  ]
]

unfoldable pub is_member : Bytes → List Bytes → Bool
is_member k [] = false
is_member k (x ∷ xs) = x == k || is_member k xs

-- The test against the allowlist, where there is one.
abbrev pub is_allowed : Option (List Bytes) → Bytes → Bool
is_allowed none k = true
is_allowed (some allow) k = is_member k allow

abbrev pub Values : Type 0
Values = List (Bytes × Entry)

-- The loop over the inherited environment.
unfoldable pub inherit_all : Bool → Option (List Bytes) → List Bytes → Values → Values
unfolding cut canonical_name is_member insert
inherit_all windows allow [] values = values
inherit_all windows allow (assignment ∷ rest) values = elim (cut assignment) [
  | none ↦ inherit_all windows allow rest values
  | some (key, value) ↦ inherit_all windows allow rest (
      if is_empty key || not (is_allowed allow (canonical_name windows key))
      then values
      else insert (canonical_name windows key) (record { name = key; value = value }) values)
]

-- The loop over Set.
unfoldable pub set_all : Bool → List Bytes → Values → EnvironmentError ⊎ Values
unfolding cut validate_name canonical_name has_byte insert
set_all windows [] values = inr values
set_all windows (assignment ∷ rest) values = elim (cut assignment) [
  | none ↦ inl no_assignment
  | some (key, value) ↦ elim (validate_name key) [
    | some e ↦ inl e
    | none ↦
        if has_byte 0 value
        then inl value_has_nul
        else set_all windows rest
            (insert (canonical_name windows key) (record { name = key; value = value }) values)
  ]
]

-- The loop over the names to unset.
unfoldable pub unset_all : List Bytes → Values → Values
unfolding delete
unset_all [] values = values
unset_all (k ∷ ks) values = unset_all ks (delete k values)

-- The order of strings.
unfoldable pub is_less : Bytes → Bytes → Bool
is_less s [] = false
is_less [] (d ∷ t) = true
is_less (c ∷ s) (d ∷ t) = ltb c d || (nat_eq c d && is_less s t)

-- sort.Slice by name; the names of the entries are distinct, so that the order is one.
unfoldable pub place : Entry → List Entry → List Entry
unfolding is_less
place e [] = e ∷ []
place e (x ∷ xs) = let rest = place e xs in if is_less e.name x.name then e ∷ x ∷ xs else x ∷ rest

unfoldable pub sort : List Entry → List Entry
unfolding place
sort [] = []
sort (e ∷ es) = place e (sort es)

unfoldable pub entries : Values → List Entry
entries [] = []
entries ((k, e) ∷ values) = e ∷ entries values

abbrev pub assignment_of : Entry → Bytes
assignment_of e = e.name ++ b'=' ∷ e.value

unfoldable pub assignments : List Entry → List Bytes
assignments [] = []
assignments (e ∷ es) = assignment_of e ∷ assignments es

abbrev pub is_replace : Mode → Bool
is_replace replace = true
is_replace _ = false

-- The checks of the mode.
unfoldable pub check_mode : ChildEnvironment → Option EnvironmentError
check_mode cfg = elim cfg.mode [
  | unknown _ ↦ some unknown_mode
  | merge ↦ none
  | replace ↦ if is_some cfg.allowlist then some allowlist_in_replace else none
  | inherit ↦ if is_empty cfg.set then none else some set_in_inherit
  | unset_mode ↦ if is_empty cfg.set then none else some set_in_inherit
]

unfoldable pub allow_set : Bool → Option (List Bytes) → EnvironmentError ⊎ Option (List Bytes)
unfolding name_set
allow_set windows none = inr none
allow_set windows (some names) = elim (name_set windows names) [
  | inl e ↦ inl e
  | inr allow ↦ inr (some allow)
]

-- The entries that resolveForOS collects before it sorts them, of sets of canonical names.
unfoldable pub collect :
    Bool
    → ChildEnvironment
    → List Bytes
    → Option (List Bytes)
    → List Bytes
    → EnvironmentError ⊎ Values
unfolding inherit_all set_all unset_all
collect windows cfg inherited allow unset =
    elim (set_all windows cfg.set
      (if is_replace cfg.mode then [] else inherit_all windows allow inherited [])) [
        | inl e ↦ inl e
        | inr values ↦ inr (unset_all unset values)
      ]

unfoldable pub resolve_entries : Bool → ChildEnvironment → List Bytes → EnvironmentError ⊎ Values
unfolding check_mode collect name_set allow_set
resolve_entries windows cfg inherited = elim (check_mode cfg) [
  | some e ↦ inl e
  | none ↦ elim (allow_set windows cfg.allowlist) [
    | inl e ↦ inl e
    | inr allow ↦ elim (name_set windows cfg.unset) [
      | inl e ↦ inl e
      | inr unset ↦ collect windows cfg inherited allow unset
    ]
  ]
]

abbrev pub is_explicit : ChildEnvironment → Bool
is_explicit cfg = elim cfg.mode [
  | unset_mode ↦ is_some cfg.allowlist || not (is_empty cfg.unset)
  | _ ↦ true
]

-- resolveForOS
unfoldable pub resolve_for_os :
    Bool → ChildEnvironment → List Bytes → EnvironmentError ⊎ (List Bytes × Bool)
unfolding resolve_entries assignments sort entries
resolve_for_os windows cfg inherited = elim (resolve_entries windows cfg inherited) [
  | inl e ↦ inl e
  | inr values ↦ inr (assignments (sort (entries values)), is_explicit cfg)
]

-- resolvedSpecEnvironment; a nil spec is `none`.
unfoldable pub resolved_spec :
    Bool → List Bytes → Option (List Bytes) → EnvironmentError ⊎ (List Bytes × Bool)
unfolding resolve_for_os
resolved_spec windows base none = inr (base, false)
resolved_spec windows base (some spec) =
    elim (resolve_for_os windows
      (record { mode = replace; allowlist = none; set = spec; unset = [] }) []) [
        | inl e ↦ inl e
        | inr (env, _) ↦ inr (env, true)
      ]

resolve_test :
    resolve_for_os false
      (record {
        mode = merge;
        allowlist = some (bytes "PATH" ∷ []);
        set = bytes "B=1" ∷ bytes "A=2" ∷ bytes "B=3" ∷ [];
        unset = [];
      })
      (bytes "PATH=/bin" ∷ bytes "HOME=/" ∷ [])
    ≡ inr (bytes "A=2" ∷ bytes "B=3" ∷ bytes "PATH=/bin" ∷ [], true)
unfolding resolve_for_os ◌==◌
resolve_test = refl
