-- ===== src/Cycle/Model/Names.antt =====
-- extensions/ooptdd-mutation/src/ooptdd_mutation/ouroboros/model.py: the enumerations of the cycle.
use ooptdd.Base.{ℕ, Bool, true, false, String, ◌==◌}

pub data Phase : Type 0 where
  init sized locked initial_red_confirmed green_confirmed quarantined mutation_active : Phase
  negative_red_confirmed restored regreen_confirmed bite_pending recovery_required : Phase
  complete superseded_by_successor inconclusive interrupted identity_conflict : Phase

-- The place of a phase in `Phase`, and its text
abbrev pub phase_index : Phase → ℕ
phase_index init = 0
phase_index sized = 1
phase_index locked = 2
phase_index initial_red_confirmed = 3
phase_index green_confirmed = 4
phase_index quarantined = 5
phase_index mutation_active = 6
phase_index negative_red_confirmed = 7
phase_index restored = 8
phase_index regreen_confirmed = 9
phase_index bite_pending = 10
phase_index recovery_required = 11
phase_index complete = 12
phase_index superseded_by_successor = 13
phase_index inconclusive = 14
phase_index interrupted = 15
phase_index identity_conflict = 16

abbrev pub phase_text : Phase → String
phase_text init = "init"
phase_text sized = "sized"
phase_text locked = "locked"
phase_text initial_red_confirmed = "initial_red_confirmed"
phase_text green_confirmed = "green_confirmed"
phase_text quarantined = "quarantined"
phase_text mutation_active = "mutation_active"
phase_text negative_red_confirmed = "negative_red_confirmed"
phase_text restored = "restored"
phase_text regreen_confirmed = "regreen_confirmed"
phase_text bite_pending = "bite_pending"
phase_text recovery_required = "recovery_required"
phase_text complete = "complete"
phase_text superseded_by_successor = "superseded_by_successor"
phase_text inconclusive = "inconclusive"
phase_text interrupted = "interrupted"
phase_text identity_conflict = "identity_conflict"

-- `snapshot.phase is Phase.…`
abbrev pub is_phase : Phase → Phase → Bool
is_phase p q = phase_index p == phase_index q

-- `phase in TERMINAL_PHASES`: the last five
abbrev pub is_terminal : Phase → Bool
is_terminal complete = true
is_terminal superseded_by_successor = true
is_terminal inconclusive = true
is_terminal interrupted = true
is_terminal identity_conflict = true
is_terminal init = false
is_terminal _ = false

pub data EventKind : Type 0 where
  size lock initial_red green quarantine mutation_applied negative_red restore regreen : EventKind
  enumerate_findings dispose_finding seal interrupt : EventKind

abbrev pub kind_text : EventKind → String
kind_text size = "size"
kind_text lock = "lock"
kind_text initial_red = "initial_red"
kind_text green = "green"
kind_text quarantine = "quarantine"
kind_text mutation_applied = "mutation_applied"
kind_text negative_red = "negative_red"
kind_text restore = "restore"
kind_text regreen = "regreen"
kind_text enumerate_findings = "enumerate_findings"
kind_text dispose_finding = "dispose_finding"
kind_text seal = "seal"
kind_text interrupt = "interrupt"

pub data RunRole : Type 0 where
  initial positive negative regreened : RunRole

pub data RunOutcome : Type 0 where
  red_run green_run no_outcome : RunOutcome

pub data ObservationVerdict : Type 0 where
  seen_present seen_absent seen_nothing : ObservationVerdict

pub data MonitorVerdict : Type 0 where
  sat viol pend : MonitorVerdict

pub data EvidenceTier : Type 0 where
  local_pass emitted arrived queryable_causal external_verdict : EvidenceTier

-- `tier in COMPLETION_EVIDENCE_TIERS`
abbrev pub is_completion_tier : EvidenceTier → Bool
is_completion_tier local_pass = false
is_completion_tier emitted = false
is_completion_tier arrived = true
is_completion_tier queryable_causal = true
is_completion_tier external_verdict = true

pub data Disposition : Type 0 where
  fixed deferred refuted accepted_risk : Disposition

pub data InterruptReason : Type 0 where
  cancelled timed_out budget_exhausted retry_exhausted no_conclusion identity_clash :
      InterruptReason

abbrev pub reason_text : InterruptReason → String
reason_text cancelled = "cancelled"
reason_text timed_out = "timed_out"
reason_text budget_exhausted = "budget_exhausted"
reason_text retry_exhausted = "retry_exhausted"
reason_text no_conclusion = "inconclusive"
reason_text identity_clash = "identity_conflict"

pub data EffectClass : Type 0 where
  read idempotent_write guarded_non_idempotent : EffectClass

pub data EffectKind : Type 0 where
  record_transition audit_rejection restore_required : EffectKind
