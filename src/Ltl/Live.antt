-- ===== src/Ltl/Live.antt =====
-- The live bank of monitors and the one-shot run agree.
use ooptdd.Base.{
  ◌≡◌, refl, sym, ap, ◌∙◌, subst, Bool, ◌&&◌, ℕ, suc, pos, none, List, [], ◌∷◌, map_m, Result, ok,
  ◌>>=◌, >>=-eq-ok, ok-injective,
}
use ooptdd.Value.{Event}
use ooptdd.Builtins.{Builtins}
use ooptdd.Monitor.{Monitor, step, run_from}
use ooptdd.Monitor.Entries.{entries, run_monitor}
use ooptdd.Monitor.Live.{LiveMonitorSet, new, feed, feed_all, collapse_all}

-- Two passes over a list are one pass, if the first one returns.
map_m-fuse :
    {A B C : Type 0} (f : A → Result B) (g : B → Result C) (xs : List A) (ys : List B)
    → map_m f xs ≡ ok ys
    → map_m g ys ≡ map_m (λ x. f x >>= g) xs
map_m-fuse f g [] ys h = rw (sym (ok-injective h))
map_m-fuse f g (x ∷ xs) ys h =
    let (y, e, h') = >>=-eq-ok (f x) _ h in
    let (zs, e', h'') = >>=-eq-ok (map_m f xs) _ h' in
    rw (sym (ok-injective h''), e) (rw (map_m-fuse f g xs zs e'))

-- One pass that returns is two passes that return.
map_m-split :
    {A B C : Type 0} (f : A → Result B) (g : B → Result C) (xs : List A) (zs : List C)
    → map_m (λ x. f x >>= g) xs ≡ ok zs
    → (ys : List B) × (map_m f xs ≡ ok ys) × (map_m g ys ≡ ok zs)
map_m-split f g [] zs h = ([], refl, h)
map_m-split f g (x ∷ xs) zs h =
    let (z, e, h') = >>=-eq-ok (f x >>= g) _ h in
    let (ws, e', h'') = >>=-eq-ok (map_m (λ x. f x >>= g) xs) _ h' in
    let (y, p, q) = >>=-eq-ok (f x) g e in
    let (ys, p', q') = map_m-split f g xs ws e' in (y ∷ ys, rw (p, p'), rw (q, q') h'')

unfoldable pub runs : Builtins → ℕ → List Event → List Monitor → Result (List Monitor)
runs py i evs ms = map_m (λ m. run_from py m i evs) ms

map_m-ok : {A : Type 0} (xs : List A) → map_m (λ x. ok x) xs ≡ ok xs
map_m-ok [] = refl
map_m-ok (x ∷ xs) = rw (map_m-ok xs)

abbrev pub bank : List Monitor → ℕ → LiveMonitorSet
bank ms i = record { monitors = ms; idx = i }

pub feed_all-runs :
    (py : Builtins) (ms : List Monitor) (i : ℕ) (evs : List Event) (s : LiveMonitorSet)
    → feed_all py (bank ms i) evs ≡ ok s
    → runs py i evs ms ≡ ok s.monitors
unfolding feed_all feed run_from runs
feed_all-runs py ms i [] s h =
    map_m-ok ms ∙ ap (λ (s : LiveMonitorSet). ok s.monitors) (ok-injective h)
feed_all-runs py ms i (ev ∷ evs) s h =
    let (s', e, h') = >>=-eq-ok (feed py (bank ms i) ev none) (λ s'. feed_all py s' evs) h in
    let (ns, e', e'') =
      >>=-eq-ok (map_m (λ m. step py m ev (pos i)) ms) (λ ns. ok (bank ns (suc i))) e in
    sym (map_m-fuse (λ m. step py m ev (pos i)) (λ m. run_from py m (suc i) evs) ms ns e')
    ∙ feed_all-runs py ns (suc i) evs s
        (subst (λ s'. feed_all py s' evs ≡ ok s) (sym (ok-injective e'')) h')

-- A bank of monitors that is fed a stream event by event collapses to the dictionaries that
-- `run_monitor` returns for each of its monitors over the whole stream, in the same order, and raises
-- where one of the collapses raises, if no feed raises.
pub live_agrees :
    (py : Builtins) (ms : List Monitor) (evs : List Event) (s : LiveMonitorSet)
    (reachable complete : Bool)
    → feed_all py (new ms) evs ≡ ok s
    → collapse_all py s reachable complete
      ≡ map_m (λ m. run_monitor py m evs (reachable && complete)) ms
unfolding collapse_all run_monitor runs new
live_agrees py ms evs s r c h =
    map_m-fuse (λ m. run_from py m 0 evs) (λ m. entries py m (r && c)) ms s.monitors
      (feed_all-runs py ms 0 evs s h)
