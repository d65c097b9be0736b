-- ===== src/Handler/Operations/Timeouts.antt =====
-- What a check of the timeouts leaves.
use echonet_list.Base.{
  ℕ, ◌-◌, ◌≤◌, ◌≡◌, refl, sym, ap, ◌∙◌, arith, false, List, [], ◌∷◌, Option, none, some, ltb,
  if◌then◌else◌, Bool-cases, Option-cases, inl, inr,
}
use echonet_list.Base.Keys.{Text, ◌=?◌, nat_eq, text_eq, text_beq_iff}
use echonet_list.Base.Maps.{contains, Distinct, keys, lookup, delete, lookup-delete}
use echonet_list.Handler.Operations.{
  OperationInfo, OperationTracker, times_out, timed_out_ops, delete_each, check_timeouts,
}

-- The operation, unless it times out.
abbrev pub in_time : ℕ → List (ℕ × ℕ) → Option OperationInfo → Option OperationInfo
in_time now timeouts none = none
in_time now timeouts (some info) = if times_out now timeouts info then none else some info

lookup-delete_each :
    (ids : List Text) (operations : List (Text × OperationInfo)) (id : Text)
    → lookup id (delete_each ids operations)
      ≡ (if contains ids id then none else lookup id operations)
unfolding delete_each
lookup-delete_each [] operations id = refl
lookup-delete_each (i ∷ ids) operations id =
    lookup-delete_each ids (delete i operations) id ∙ ground (arith, lookup-delete i id operations)

contains-timed_out_ops :
    (now : ℕ) (timeouts : List (ℕ × ℕ)) (operations : List (Text × OperationInfo)) (id : Text)
    → contains (keys operations) id ≡ false
    → contains (timed_out_ops now timeouts operations) id ≡ false
unfolding timed_out_ops keys
contains-timed_out_ops now timeouts [] id h = refl
contains-timed_out_ops now timeouts ((i, info) ∷ operations) id h =
    let rest : contains (timed_out_ops now timeouts operations) id ≡ false =
      contains-timed_out_ops now timeouts operations id (ground arith) in
    ground arith

kept :
    (now : ℕ) (timeouts : List (ℕ × ℕ)) (operations : List (Text × OperationInfo)) (id : Text)
    → Distinct (keys operations)
    → (if contains (timed_out_ops now timeouts operations) id then none else lookup id operations)
      ≡ in_time now timeouts (lookup id operations)
unfolding timed_out_ops keys lookup
kept now timeouts [] id h = refl
kept now timeouts ((i, info) ∷ operations) id (hi, h) = elim (Bool-cases (i =? id)) [
  | inr apart ↦ ground (arith, kept now timeouts operations id h)
  | inl here ↦
      let same : i ≡ id = (text_beq_iff _ _).0 here in
      let rest : contains (timed_out_ops now timeouts operations) id ≡ false =
        contains-timed_out_ops now timeouts operations id (rw same at hi) in
      elim (Bool-cases (times_out now timeouts info)) [
        | inl late ↦ rw (here, in_time, late) (rw here refl)
        | inr soon ↦ rw (here, in_time, soon) (rw rest refl)
      ]
]

-- `checkTimeouts` forgets exactly the operations that are older than the timeout of their kind, and
-- leaves every other one as it was.
lookup-check_timeouts :
    (now : ℕ) (t : OperationTracker) (id : Text)
    → Distinct (keys t.operations)
    → lookup id (check_timeouts now t).operations ≡ in_time now t.timeouts (lookup id t.operations)
unfolding check_timeouts
lookup-check_timeouts now t id h =
    lookup-delete_each (timed_out_ops now t.timeouts t.operations) t.operations id
    ∙ kept now t.timeouts t.operations id h

in_limit :
    (now limit : ℕ) (timeouts : List (ℕ × ℕ)) (info : OperationInfo)
    → lookup info.op_type timeouts ≡ some limit
    → times_out now timeouts info ≡ false
    → now - info.start_time ≤ limit
unfolding times_out
in_limit now limit timeouts info has_limit soon =
    let e : ltb limit (now - info.start_time) ≡ false = rw (times_out, has_limit) at soon in
    ground arith

-- After `checkTimeouts` no operation whose kind has a timeout is older than it.
pub check_timeouts-age :
    (now limit : ℕ) (t : OperationTracker) (id : Text) (info : OperationInfo)
    → Distinct (keys t.operations)
    → lookup id (check_timeouts now t).operations ≡ some info
    → lookup info.op_type t.timeouts ≡ some limit
    → now - info.start_time ≤ limit
check_timeouts-age now limit t id info h running has_limit =
    elim (Option-cases (lookup id t.operations)) [
      | inl missing ↦ cc (lookup-check_timeouts now t id h, missing)
      | inr (old, present) ↦
          let left : in_time now t.timeouts (some old) ≡ some info =
            ap (in_time now t.timeouts) (sym present)
            ∙ sym (lookup-check_timeouts now t id h)
            ∙ running in
          elim (Bool-cases (times_out now t.timeouts old)) [
            | inl late ↦ cc (rw (in_time, late) at left)
            | inr soon ↦
                let still : some old ≡ some info = rw (in_time, soon) at left in
                let same : old ≡ info = cc in
                in_limit now limit t.timeouts info has_limit (rw same at soon)
          ]
    ]
