-- ===== src/Tests/Environments.antt =====
-- wrapper/environment.go: an environment at a concrete input.
use go_agent_wrapper.Shared.{
  Bytes, bytes, ◌==◌, ◌≡◌, refl, Bool, false, none, some, List, [], ◌∷◌, inr, All, if◌then◌else◌,
  lookup,
}
use go_agent_wrapper.Environment.{
  ChildEnvironment, merge, Entry, is_member, is_replace, Values, resolve_entries, resolve_for_os,
  assignments, sort, entries, is_explicit,
}
use go_agent_wrapper.Environment.Values.{
  or_else, last_for, sets, inherits, canonical_names, allowed_names, resolve_entries_lem,
}
use go_agent_wrapper.Environment.Sorted.{IsSorted, ReadsBack, count, resolve_for_os_lem}

abbrev cfg : ChildEnvironment
cfg = record {
  mode = merge;
  allowlist = some (bytes "PATH" ∷ []);
  set = bytes "B=1" ∷ bytes "B=3" ∷ [];
  unset = bytes "C" ∷ [];
}

abbrev inherited : List Bytes
inherited = bytes "PATH=/bin" ∷ bytes "HOME=/" ∷ []

abbrev values : Values
values =
    (bytes "PATH", record { name = bytes "PATH"; value = bytes "/bin" })
    ∷ (bytes "B", record { name = bytes "B"; value = bytes "3" })
    ∷ []

resolved : resolve_entries false cfg inherited ≡ inr values
unfolding resolve_entries ◌==◌
resolved = refl

-- At a variable that Set assigns twice.
resolve_entries_lem_example : lookup (bytes "B") values ≡ (
    if is_member (bytes "B") (canonical_names false cfg.unset)
    then none
    else or_else (last_for false sets (bytes "B") cfg.set) (
        if is_replace cfg.mode
        then none
        else last_for false
            (inherits false (allowed_names false cfg.allowlist))
            (bytes "B")
            inherited))
resolve_entries_lem_example = resolve_entries_lem false cfg inherited values (bytes "B") resolved

-- At the same configuration.
resolve_for_os_lem_example :
    (resolve_for_os false cfg inherited
      ≡ inr (assignments (sort (entries values)), is_explicit cfg))
    × IsSorted (sort (entries values))
    × ((test : Entry → Bool) → count test (sort (entries values)) ≡ count test (entries values))
    × All ReadsBack (sort (entries values))
resolve_for_os_lem_example = resolve_for_os_lem false cfg inherited values resolved
