-- ===== src/Ltl/Order.antt =====
-- When every name of `OrderMonitor` has been seen, no later event changes what it has kept.
use ooptdd.Base.{
  ◌≡◌, refl, ap, Bool, true, ◌&&◌, ℤ, Option, none, some, subst, String, str_eq, List, [], ◌∷◌, all,
  arith, Bool-cases, inl, inr, &&_true,
}
use ooptdd.Builtins.{Builtins}
use ooptdd.Monitor.Verdicts.{Verdict, sat, viol, pend, Latch, latch, Keeps}
use ooptdd.Monitor.Order.{
  keep_first, First, Slot, OrderMonitor, is_seen, observe, ordered_so_far, gaps_within, no_gaps,
  settle, settle_latch, advance, ordered, exceeded, passed,
}

same_slot :
    (name : String) (f : First) (first : Option First)
    → is_seen (record { name = name; first = first }) ≡ true
    → ◌≡◌ {A = Slot}
        (record { name = name; first = some (keep_first first f) })
        (record { name = name; first = first })
same_slot name f none h = cc
same_slot name f (some old) h = refl

pub observe_self :
    (n : String) (f : First) (ss : List Slot) → all is_seen ss ≡ true → observe n f ss ≡ ss
unfolding observe
observe_self n f [] h = refl
observe_self n f (s ∷ ss) h = elim (Bool-cases (str_eq s.name n)) [
  | inl e ↦ rw e (
      ap (λ (t : Slot). t ∷ ss)
        (same_slot s.name f s.first (&&_true (is_seen s) (all is_seen ss) h).0))
  | inr e ↦ rw e (
      ap (λ (ts : List Slot). s ∷ ts)
        (observe_self n f ss (&&_true (is_seen s) (all is_seen ss) h).1))
]

-- Everything that `sat` claims
abbrev pub complete : Builtins → OrderMonitor → Bool
complete py m =
    all is_seen m.slots && (ordered_so_far py m && no_gaps (gaps_within py m.within_s m.slots))

abbrev pub settled : Verdict → Bool → Bool
settled sat b = b
settled viol b = true
settled pend b = true

abbrev pub IsSound : Builtins → OrderMonitor → Type 0
IsSound py m = settled m.latched.verdict (complete py m) ≡ true

abbrev Advances : Builtins → OrderMonitor → OrderMonitor → Type 0
Advances py m m' = IsSound py m' × Keeps m.latched m'.latched

settle_latch-settled :
    (o g a : Bool) (idx : ℤ) (v : Verdict) (at : Option ℤ)
    → settled v (a && (o && g)) ≡ true
    → settled
        (settle_latch o g a idx (record { verdict = v; settled_at = at })).verdict
        (a && (o && g))
      ≡ true
unfolding settle_latch latch
settle_latch-settled o g a idx v at h = ground arith

settle_latch-Keeps : (o g a : Bool) (idx : ℤ) (l : Latch) → Keeps l (settle_latch o g a idx l)
unfolding settle_latch latch
settle_latch-Keeps o g a idx l h = ground arith

settle-Sound :
    (py : Builtins) (m : OrderMonitor) (idx : ℤ) → IsSound py m → Advances py m (settle py m idx)
unfolding settle ordered_so_far
settle-Sound py m idx h = (
  settle_latch-settled (ordered_so_far py m) (no_gaps (gaps_within py m.within_s m.slots))
      (all is_seen m.slots) idx m.latched.verdict m.latched.settled_at h,
  settle_latch-Keeps _ _ _ idx m.latched,
)

settled_mono :
    (v : Verdict) (a b : Bool) → (a ≡ true → b ≡ true) → settled v a ≡ true → settled v b ≡ true
settled_mono sat a b f h = f h
settled_mono _ a b f h = refl

complete-observe :
    (py : Builtins) (m : OrderMonitor) (n : String) (f : First)
    → complete py m ≡ true
    → complete py (record m { slots = observe n f m.slots }) ≡ true
unfolding ordered_so_far
complete-observe py m n f h = rw (observe_self n f m.slots (&&_true _ _ h).0) h

pub advance-Sound :
    (py : Builtins) (m : OrderMonitor) (n : String) (f : First) (idx : ℤ)
    → IsSound py m
    → Advances py m (advance py m n f idx)
unfolding advance
advance-Sound py m n f idx h =
    settle-Sound py (record m { slots = observe n f m.slots }) idx
      (settled_mono m.latched.verdict (complete py m) _ (complete-observe py m n f) h)

complete-passes :
    (py : Builtins) (m : OrderMonitor) → complete py m ≡ true → passed py m true ≡ true
unfolding passed exceeded ordered
complete-passes py m h = ground arith

pub passed_of_sat :
    (py : Builtins) (m : OrderMonitor)
    → IsSound py m
    → m.latched.verdict ≡ sat
    → passed py m true ≡ true
passed_of_sat py m h e = complete-passes py m (subst (λ v. settled v (complete py m) ≡ true) e h)
