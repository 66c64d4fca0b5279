-- ===== src/Turnoutput/Reducer/Opening.antt =====
-- turnoutput/reducer.go: what a Reducer keeps as it opens and changes turns.
use go_agent_wrapper.Shared.{
  ◌≤◌, Bytes, ◌==◌, ==_iff, ◌≡◌, refl, ap, sym, ◌∙◌, true, false, ◌||◌, none, some, is_some, List,
  [], ◌∷◌, ◌++◌, length, lookup, delete, insert, lookup-insert, lookup-delete, get_last?,
  if◌then◌else◌, ltb, Option-cases, Bool-cases, inl, inr, subst, arith,
}
use go_agent_wrapper.Turnoutput.Turn.{Turn, new_turn}
use go_agent_wrapper.Turnoutput.Signals.{contains}
use go_agent_wrapper.Turnoutput.Safety.{IsSafe, Keeps}
use go_agent_wrapper.Turnoutput.Reducer.{
  finished_memory, max_open_turns, Reducer, evict_loop, begin, update_turn,
}
use go_agent_wrapper.Turnoutput.Closing.{remove_first}

abbrev pub NoDup : List Bytes → Type 0
NoDup [] = Unit
NoDup (k ∷ ks) = (contains ks k ≡ false) × NoDup ks

-- The order lists the keys of the open turns, each once, and each turn has its key for its id and
-- is within its bounds.
pub record IsConsistent (r : Reducer) : Type 0 where
  pub keys : (j : Bytes) → contains r.order j ≡ is_some (lookup j r.open_turns)
  pub distinct : NoDup r.order
  pub turns : (j : Bytes) (t : Turn) → lookup j r.open_turns ≡ some t → (t.id ≡ j) × IsSafe t

pub record IsKept (r : Reducer) : Type 0 where
  pub consistent : IsConsistent r
  pub few_open : length r.order ≤ max_open_turns
  pub few_finished : length r.finished ≤ finished_memory

pub contains-append :
    (xs ys : List Bytes) (j : Bytes) → contains (xs ++ ys) j ≡ (contains xs j || contains ys j)
unfolding contains
contains-append [] ys j = refl
contains-append (x ∷ xs) ys j = ground (arith, contains-append xs ys j)

pub NoDup-append :
    (ks : List Bytes) (k : Bytes) → NoDup ks → contains ks k ≡ false → NoDup (ks ++ k ∷ [])
unfolding contains
NoDup-append [] k d h = (refl, tt)
NoDup-append (x ∷ xs) k d h =
    let rest = contains-append xs (k ∷ []) x in
    (
      ground (arith, h, d.0, rest, ==_iff k x, ==_iff x k),
      NoDup-append xs k d.1 (ground (arith, h)),
    )

pub contains-remove_first :
    (k j : Bytes) (ks : List Bytes)
    → NoDup ks
    → contains (remove_first k ks) j ≡ (if k == j then false else contains ks j)
unfolding contains remove_first
contains-remove_first k j [] d = ground arith
contains-remove_first k j (x ∷ xs) d =
    ground (arith, d.0, contains-remove_first k j xs d.1, ==_iff x k, ==_iff k j, ==_iff j x)

pub NoDup-remove_first : (k : Bytes) (ks : List Bytes) → NoDup ks → NoDup (remove_first k ks)
unfolding contains remove_first
NoDup-remove_first k [] d = d
NoDup-remove_first k (x ∷ xs) d =
    ground
      (arith, d.0, d.1, NoDup-remove_first k xs d.1, contains-remove_first k x xs d.1, ==_iff k x)

pub length-remove_first : (k : Bytes) (ks : List Bytes) → length (remove_first k ks) ≤ length ks
unfolding remove_first
length-remove_first k [] = omega arith
length-remove_first k (x ∷ xs) = ground (arith, length-remove_first k xs)

-- The oldest turn goes.
pub evict-IsConsistent :
    (k : Bytes) (ks : List Bytes) (r : Reducer)
    → r.order ≡ k ∷ ks
    → IsConsistent r
    → IsConsistent (record r { open_turns = delete k r.open_turns; order = ks })
unfolding contains
evict-IsConsistent k ks r e h =
    let d : NoDup (k ∷ ks) = subst NoDup e h.distinct in
    record {
      keys = λ j.
          let all : contains (k ∷ ks) j ≡ is_some (lookup j r.open_turns) =
            ap (λ l. contains l j) (sym e) ∙ h.keys j in
          rw lookup-delete (ground (arith, all, d.0, ==_iff k j, ==_iff j k));
      distinct = d.1;
      turns = λ j t found. h.turns j t (ground (arith, found, lookup-delete k j r.open_turns));
    }

pub evict_loop-IsConsistent :
    (ks : List Bytes) (r : Reducer)
    → r.order ≡ ks
    → IsConsistent r
    → IsConsistent (evict_loop ks r)
      × (length (evict_loop ks r).order ≤ max_open_turns)
      × ((evict_loop ks r).finished ≡ r.finished)
unfolding evict_loop
evict_loop-IsConsistent [] r e h = (h, rw e (omega arith), refl)
evict_loop-IsConsistent (k ∷ ks) r e h = elim (Bool-cases (ltb max_open_turns (length (k ∷ ks)))) [
  | inl over ↦ rw over (
      evict_loop-IsConsistent ks (record r { open_turns = delete k r.open_turns; order = ks }) refl
        (evict-IsConsistent k ks r e h))
  | inr room ↦ rw room (h, rw e (ground (arith, room)), refl)
]

abbrev pub AreTurns : List (Bytes × Turn) → Type 0
AreTurns m = (j : Bytes) (t : Turn) → lookup j m ≡ some t → (t.id ≡ j) × IsSafe t

pub insert-AreTurns :
    (k : Bytes) (t : Turn) (m : List (Bytes × Turn))
    → t.id ≡ k
    → IsSafe t
    → AreTurns m
    → AreTurns (insert k t m)
insert-AreTurns k t m named safe h j u found =
    let q = sym (lookup-insert k j t m) ∙ found in
    elim (Bool-cases (k == j)) [
      | inl e ↦
          let both : some t ≡ some u = rw e at q in
          let same : t ≡ u = cc in
          (ap (λ (v : Turn). v.id) (sym same) ∙ named ∙ (==_iff k j).0 e, subst IsSafe same safe)
      | inr e ↦ h j u (rw e at q)
    ]

-- A new turn with a key of no open turn.
abbrev pub opened : Bytes → Reducer → Reducer
opened id r = record r {
  pending_stop = [];
  held_stop = [];
  open_turns = insert id (record (new_turn id) { usage_stop = r.pending_stop }) r.open_turns;
  order = r.order ++ id ∷ [];
}

pub opened-IsConsistent :
    (id : Bytes) (r : Reducer)
    → contains r.order id ≡ false
    → IsConsistent r
    → IsConsistent (opened id r)
unfolding contains new_turn
opened-IsConsistent id r fresh h =
    let t = record (new_turn id) { usage_stop = r.pending_stop } in
    record {
      keys = λ j.
          rw lookup-insert (
            ground
              (arith, contains-append r.order (id ∷ []) j, h.keys j, ==_iff id j, ==_iff j id));
      distinct = NoDup-append r.order id h.distinct fresh;
      turns = insert-AreTurns id t r.open_turns refl (ground arith) h.turns;
    }

pub begin-IsKept :
    (id : Bytes) (r : Reducer) → contains r.order id ≡ false → IsKept r → IsKept (begin id r)
unfolding begin
begin-IsKept id r fresh h =
    let (c, few, same) =
      evict_loop-IsConsistent (opened id r).order (opened id r) refl
        (opened-IsConsistent id r fresh h.consistent) in
    record {
      consistent = record { keys = c.keys; distinct = c.distinct; turns = c.turns };
      few_open = few;
      few_finished = rw same h.few_finished;
    }

pub update_turn-IsKept :
    (k : Bytes) (f : Turn → Turn) (r : Reducer) → Keeps f → IsKept r → IsKept (update_turn k f r)
unfolding update_turn
update_turn-IsKept k f r kf h = elim (Option-cases (lookup k r.open_turns)) [
  | inl e ↦ rw (e, update_turn) h
  | inr (t, e) ↦
      let (named, safe) = h.consistent.turns k t e in
      rw (e, update_turn)
        (record {
          consistent = record {
            keys = λ j.
                rw lookup-insert
                  (ground (arith, h.consistent.keys j, h.consistent.keys k, e, ==_iff k j));
            distinct = h.consistent.distinct;
            turns =
                insert-AreTurns k (f t) r.open_turns (kf.same_id t ∙ named) (kf.safe t safe)
                  h.consistent.turns;
          };
          few_open = h.few_open;
          few_finished = h.few_finished;
        })
]

pub contains-get_last? :
    (ks : List Bytes) {k : Bytes} → get_last? ks ≡ some k → contains ks k ≡ true
unfolding contains
contains-get_last? [] e = cc
contains-get_last? (j ∷ []) {k} e = ground (arith, e, ==_iff k j)
contains-get_last? (j ∷ i ∷ ks) {k} e = ground (arith, contains-get_last? (i ∷ ks) {k = k} e)

pub get_last?-none : (ks : List Bytes) → get_last? ks ≡ none → ks ≡ []
get_last?-none [] e = refl
get_last?-none (j ∷ []) e = cc
get_last?-none (j ∷ i ∷ ks) e = cc (get_last?-none (i ∷ ks) e)
