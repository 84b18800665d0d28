-- ===== src/Cycle/Reducer.antt =====
-- extensions/ooptdd-mutation/src/ooptdd_mutation/ouroboros/reducer.py: `_restore`, `_interrupt`, the
-- transitions of `step`, one function for each kind of event, and `step`.
use ooptdd.Base.{
  ◌+◌, Bool, true, false, ◌&&◌, ◌||◌, not, Option, none, some, String, str_eq, List, [], ◌∷◌, ◌++◌,
  map, any, all, leb, if◌then◌else◌, Result, ok, raise, raise_if, Error, ◌>>=◌, ◌>>◌,
}
use ooptdd.Value.{Value, null, list, Items, nil, cons, Fields, get}
use ooptdd.Ouroboros.Model.{mem, distinct}
use ooptdd.Cycle.Model.{
  Phase, is_phase, ProtocolEvent, CycleSnapshot, Hashing, TransitionResult, InterruptReason,
  budget_exhausted, identity_clash, no_conclusion, Digest, digest_eq, MaterialLock,
  FindingDisposition,
}
use ooptdd.Cycle.Payload.{
  require_keys, item, text_item, require_text, member, as_bool, reasons, disposition_names,
  digest_from, digest_item, lock_from, oracle_from, construct_disposition,
}
use ooptdd.Cycle.Runs.{rejected, restore_effect, commit_with, commit, steps_left, same_namespace}

-- Where a recovery ends: the phase of what was pending
abbrev pub halt_phase : Option InterruptReason → Phase
halt_phase (some identity_clash) = Phase.identity_conflict
halt_phase (some no_conclusion) = Phase.inconclusive
halt_phase _ = Phase.interrupted

abbrev pub is_reducer_owned : InterruptReason → Bool
is_reducer_owned budget_exhausted = true
is_reducer_owned identity_clash = true
is_reducer_owned _ = false

-- `Digest.from_dict(value) if value is not None else None`
unfoldable pub optional_digest : Hashing → Value → Result (Option Digest)
optional_digest h null = ok none
optional_digest h v = digest_from h v >>= λ d. ok (some d)

abbrev pub disposed : CycleSnapshot → List String
disposed s = map (λ (d : FindingDisposition). d.finding_id) s.dispositions

-- The two sets of identities are equal.
abbrev pub same_set : List String → List String → Bool
same_set xs ys = all (λ x. mem x ys) xs && all (λ y. mem y xs) ys

-- `value` is a list of non-blank texts without a duplicate.
abbrev pub text_items : Hashing → Items → Result (List String)
text_items h nil = ok []
text_items h (cons v vs) = require_text h v >>= λ x. text_items h vs >>= λ xs. ok (x ∷ xs)

unfoldable pub finding_list : Hashing → Value → Result (List String)
finding_list h (list vs) =
    text_items h vs >>= λ xs. if distinct xs then ok xs else raise Error.value_error
finding_list h _ = raise Error.value_error

module _ (h : Hashing) (s : CycleSnapshot) (e : ProtocolEvent) where
  abbrev pub put_back : Digest → Option InterruptReason → Option InterruptReason → CycleSnapshot
  put_back d halt pending = record s {
    mutation_active = false;
    restored_source = some d;
    halt_reason = halt;
    pending_interrupt = pending;
  }

  -- `_restore`, once the source is known to be the locked one
  unfoldable pub restore_to : Digest → Result TransitionResult
  restore_to d =
      if (is_phase s.phase Phase.mutation_active || is_phase s.phase Phase.negative_red_confirmed)
        && not (steps_left h s)
      then commit_with h none s e Phase.interrupted [] false
          (put_back d (some budget_exhausted) s.pending_interrupt)
      else if is_phase s.phase Phase.recovery_required
      then commit_with h none s e (halt_phase s.pending_interrupt) [] (steps_left h s)
          (put_back d s.pending_interrupt none)
      else if not (is_phase s.phase Phase.negative_red_confirmed)
      then ok (rejected h s e "restore_requires_negative_red")
      else commit h s e Phase.restored (put_back d s.halt_reason s.pending_interrupt)

  unfoldable pub restore_under : MaterialLock → Fields → Result TransitionResult
  restore_under lock p =
      if not s.mutation_active
      then ok (rejected h s e "no_active_mutation")
      else digest_item h "restored_source" p >>= λ d.
          if not (digest_eq d lock.source)
          then ok (rejected h s e "restoration_does_not_match_locked_source")
          else restore_to d

  -- `_restore`
  unfoldable pub restore : Fields → Result TransitionResult
  restore p = require_keys ("restored_source" ∷ []) [] p >> elim s.material_lock [
    | none ↦ ok (rejected h s e "no_active_mutation")
    | some lock ↦ restore_under lock p
  ]

  unfoldable pub interrupt_for : InterruptReason → Result TransitionResult
  interrupt_for reason =
      if s.mutation_active
      then commit_with h none s e Phase.recovery_required (restore_effect h s e reason ∷ []) true
          (record s { pending_interrupt = some reason })
      else commit h s e (elim reason [ no_conclusion ↦ Phase.inconclusive | _ ↦ Phase.interrupted ])
          (record s { halt_reason = some reason })

  -- `_interrupt`
  unfoldable pub interrupt : Fields → Result TransitionResult
  interrupt p =
      require_keys ("reason" ∷ []) [] p
      >> (item "reason" p >>= member reasons >>= λ reason.
          raise_if (is_reducer_owned reason) Error.value_error >> interrupt_for reason)

  unfoldable pub size : Fields → Result TransitionResult
  size p =
      require_keys ("policy_version" ∷ []) [] p
      >> (text_item h "policy_version" p >>= λ _. commit h s e Phase.sized s)

  unfoldable pub lock : Fields → Result TransitionResult
  lock p =
      require_keys ("materials" ∷ "oracle" ∷ []) [] p
      >> (item "materials" p >>= lock_from h >>= λ materials.
          item "oracle" p >>= oracle_from h >>= λ oracle.
          commit h s e Phase.locked
            (record s { material_lock = some materials; oracle = some oracle }))

  unfoldable pub quarantine : Fields → Result TransitionResult
  quarantine p =
      require_keys ("artifact_namespace" ∷ "quarantine" ∷ []) [] p
      >> (text_item h "artifact_namespace" p >>= λ namespace.
          raise_if (any (same_namespace namespace) s.runs) Error.value_error
          >> (digest_item h "quarantine" p >>= λ d.
              commit h s e Phase.quarantined
                (record s { quarantine = some d; quarantine_namespace = some namespace })))

  -- The source before is the locked one, and the source after is another.
  unfoldable pub mutate_under : MaterialLock → Fields → Result TransitionResult
  mutate_under lock p = digest_item h "mutation_delta" p >>= λ delta.
      digest_item h "source_before" p >>= λ before. digest_item h "source_after" p >>= λ after.
      raise_if (not (digest_eq before lock.source)) Error.value_error
      >> (raise_if (digest_eq after before) Error.value_error
          >> commit h s e Phase.mutation_active (record s {
            mutation_delta = some delta;
            mutated_source = some after;
            mutation_active = true;
          }))

  unfoldable pub mutate : Fields → Result TransitionResult
  mutate p =
      require_keys ("mutation_delta" ∷ "source_before" ∷ "source_after" ∷ []) [] p
      >> elim s.material_lock [ none ↦ raise Error.value_error | some lock ↦ mutate_under lock p ]

  unfoldable pub enumerate_findings : Fields → Result TransitionResult
  enumerate_findings p =
      require_keys ("finding_ids" ∷ []) [] p
      >> (item "finding_ids" p >>= finding_list h >>= λ ids.
          commit h s e Phase.bite_pending (record s { finding_ids = ids }))

  unfoldable pub dispose_finding : Fields → Result TransitionResult
  dispose_finding p =
      require_keys
        ("finding_id" ∷ "disposition" ∷ "bound_material_changed" ∷ "change_evidence" ∷ []) [] p
      >> (text_item h "finding_id" p >>= λ id.
          raise_if (not (mem id s.finding_ids)) Error.value_error
          >> (raise_if (mem id (disposed s)) Error.value_error
              >> (item "bound_material_changed" p >>= as_bool >>= λ changed.
                  item "disposition" p >>= member disposition_names >>= λ disposition.
                  item "change_evidence" p >>= optional_digest h >>= λ evidence.
                  construct_disposition h (record {
                    finding_id = id;
                    disposition = disposition;
                    bound_material_changed = changed;
                    change_evidence = evidence;
                  })
                  >>= λ d. commit h s e Phase.bite_pending (record s {
                    dispositions = s.dispositions ++ (d ∷ []);
                    bound_material_changed = s.bound_material_changed || changed;
                  }))))

  -- A changed cycle hands over to a successor with a distinct identity and a generation to spare.
  unfoldable pub supersede : Fields → Result TransitionResult
  supersede p = require_text h (get "successor_cycle_id" p) >>= λ successor.
      raise_if (str_eq successor s.identity.cycle_id) Error.value_error
      >> (raise_if (leb s.budget.max_generations (s.identity.generation + 1)) Error.value_error
          >> commit h s e Phase.superseded_by_successor
              (record s { successor_cycle_id = some successor }))

  unfoldable pub complete : Fields → Result TransitionResult
  complete p = elim (get "successor_cycle_id" p) [
    | null ↦ commit h s e Phase.complete s
    | _ ↦ raise Error.value_error
  ]

  unfoldable pub seal : Fields → Result TransitionResult
  seal p =
      require_keys [] ("successor_cycle_id" ∷ []) p
      >> (raise_if (not (same_set (disposed s) s.finding_ids)) Error.value_error
          >> (if s.bound_material_changed then supersede p else complete p))
