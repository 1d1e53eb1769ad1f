-- ===== src/Scans/Lifecycle.antt =====
-- internal/scans/scan.go: what holds of a scan through any sequence of its operations.
use secure_dev.Prelude.{
  ℕ, String, true, false, ◌≡◌, refl, ◌≢◌, ◌↔◌, ◌⊎◌, inl, inr, Option, none, some, List, [], ◌∷◌,
  arith, ◌==◌, eq_iff, if◌then◌else◌, Bool-cases, All, subst, ap, ◌∙◌, Option-cases,
}
use secure_dev.Scans.{
  Status, queued, running, partial, completed, failed, cancelled, Scan, ScannerResult, is_some,
  valid, terminal, can_transition_to, transition, terminal_status, complete, put_result,
  record_result, status_text,
}

-- The moves of the diagram.
infix 40 ◌⟶◌
pub data ◌⟶◌ : Status → Status → Type 0 where
  start : queued ⟶ running
  abandon : queued ⟶ cancelled
  reject : queued ⟶ failed
  degrade : running ⟶ partial
  finish : running ⟶ completed
  break : running ⟶ failed
  cancel : running ⟶ cancelled

can_transition_to→⟶ : (a b : Status) → valid b ≡ true → can_transition_to a b ≡ true → a ⟶ b
unfolding valid can_transition_to
can_transition_to→⟶ queued running v c = start
can_transition_to→⟶ queued cancelled v c = abandon
can_transition_to→⟶ queued failed v c = reject
can_transition_to→⟶ running partial v c = degrade
can_transition_to→⟶ running completed v c = finish
can_transition_to→⟶ running failed v c = break
can_transition_to→⟶ running cancelled v c = cancel
can_transition_to→⟶ a b v c = cc

-- What a successful move does to the record.
abbrev pub Moved : Scan → Status → ℕ → Scan → Type 0
Moved s next at s' =
    (s'.status ≡ next)
    × (s'.results ≡ s.results)
    × (s'.started_at ≡ (if status_text next == "running" then some at else s.started_at))
    × (s'.completed_at ≡ (if terminal next then some at else s.completed_at))

⟶-Moved :
    (s : Scan) (a next : Status) (at : ℕ)
    → s.status ≡ a
    → a ⟶ next
    → ((transition s next at).1 ≡ none) × Moved s next at (transition s next at).0
unfolding transition
⟶-Moved s a next at e start = rw (e, can_transition_to) (refl, (refl, refl, refl, refl))
⟶-Moved s a next at e abandon = rw (e, can_transition_to) (refl, (refl, refl, refl, refl))
⟶-Moved s a next at e reject = rw (e, can_transition_to) (refl, (refl, refl, refl, refl))
⟶-Moved s a next at e degrade = rw (e, can_transition_to) (refl, (refl, refl, refl, refl))
⟶-Moved s a next at e finish = rw (e, can_transition_to) (refl, (refl, refl, refl, refl))
⟶-Moved s a next at e break = rw (e, can_transition_to) (refl, (refl, refl, refl, refl))
⟶-Moved s a next at e cancel = rw (e, can_transition_to) (refl, (refl, refl, refl, refl))

transition→⟶ :
    (s : Scan) (next : Status) (at : ℕ) → (transition s next at).1 ≡ none → s.status ⟶ next
unfolding transition
transition→⟶ s next at h = can_transition_to→⟶ s.status next (ground arith) (ground arith)

-- `Transition` succeeds exactly on the moves of the diagram, and then it sets the status, the start
-- time on entering `running` and the completion time on entering an end state, and nothing else of
-- these. On an error the scan is left as it was.
pub transition_correct :
    (s : Scan) (next : Status) (at : ℕ)
    → (((transition s next at).1 ≡ none) ↔ s.status ⟶ next)
      × ((transition s next at).1 ≡ none → Moved s next at (transition s next at).0)
      × ((transition s next at).1 ≢ none → (transition s next at).0 ≡ s)
transition_correct s next at = (
  (transition→⟶ s next at, λ m. (⟶-Moved s s.status next at refl m).0),
  λ h. (⟶-Moved s s.status next at refl (transition→⟶ s next at h)).1,
  λ h. unfold transition in ground arith,
)

-- No scanner has two entries.
abbrev pub Distinct : List ScannerResult → Type 0
Distinct [] = Unit
Distinct (r ∷ rest) = All (λ x. (r.scanner == x.scanner) ≡ false) rest × Distinct rest

All-put_result :
    (name : String) (l : List ScannerResult) (r : ScannerResult)
    → (name == r.scanner) ≡ false
    → All (λ x. (name == x.scanner) ≡ false) l
    → All (λ x. (name == x.scanner) ≡ false) (put_result l r)
unfolding put_result
All-put_result name [] r h k = (h, tt)
All-put_result name (x ∷ l) r h k = elim (Bool-cases (x.scanner == r.scanner)) [
  | inl e ↦ rw e (h, k.1)
  | inr e ↦ rw e (k.0, All-put_result name l r h k.1)
]

put_result-Distinct :
    (l : List ScannerResult) (r : ScannerResult) → Distinct l → Distinct (put_result l r)
unfolding put_result
put_result-Distinct [] r d = (tt, tt)
put_result-Distinct (x ∷ l) r d = elim (Bool-cases (x.scanner == r.scanner)) [
  | inl e ↦ rw e (
    subst (λ n. All (λ y. (n == y.scanner) ≡ false) l) ((eq_iff x.scanner r.scanner).0 e) d.0,
    d.1,
  )
  | inr e ↦ rw e (All-put_result x.scanner l r e d.0, put_result-Distinct l r d.1)
]

pub record IsWellFormed (s : Scan) : Type 0 where
  pub known : valid s.status ≡ true
  pub closed : terminal s.status ≡ is_some s.completed_at
  pub waiting : s.status ≡ queued → s.started_at ≡ none
  pub live : s.status ≡ running → is_some s.started_at ≡ true
  pub covered : (s.status ≡ partial) ⊎ (s.status ≡ completed) → is_some s.started_at ≡ true
  pub distinct : Distinct s.results

Moved-IsWellFormed :
    (s s' : Scan) (a next : Status) (at : ℕ)
    → s.status ≡ a
    → a ⟶ next
    → Moved s next at s'
    → IsWellFormed s
    → IsWellFormed s'
unfolding valid terminal
Moved-IsWellFormed s s' a next at e start m w = ground arith
Moved-IsWellFormed s s' a next at e mv m w = ground arith

transition-IsWellFormed :
    (s : Scan) (next : Status) (at : ℕ) → IsWellFormed s → IsWellFormed (transition s next at).0
transition-IsWellFormed s next at w = elim (Option-cases (transition s next at).1) [
  | inl moved ↦
      let step = (transition_correct s next at).0.0 moved in
      Moved-IsWellFormed s (transition s next at).0 s.status next at refl step
        ((transition_correct s next at).1 moved) w
  | inr (x, e) ↦ rw ((transition_correct s next at).2 (λ h. cc)) w
]

-- An operation on a scan.
pub data Event : Type 0 where
  result : ScannerResult → Event
  move : Status → ℕ → Event
  end : ℕ → Event

unfoldable pub apply : Scan → Event → Scan
unfolding record_result
apply s (result r) = record_result s r
apply s (move next at) = (transition s next at).0
apply s (end at) = (complete s at).0

unfoldable pub run : Scan → List Event → Scan
unfolding apply
run s [] = s
run s (e ∷ es) = run (apply s e) es

apply-IsWellFormed : (s : Scan) (e : Event) → IsWellFormed s → IsWellFormed (apply s e)
unfolding apply complete
apply-IsWellFormed s (result r) w = record {
  known = w.known;
  closed = w.closed;
  waiting = w.waiting;
  live = w.live;
  covered = w.covered;
  distinct = put_result-Distinct s.results r w.distinct;
}
apply-IsWellFormed s (move next at) w = transition-IsWellFormed s next at w
apply-IsWellFormed s (end at) w = transition-IsWellFormed s (terminal_status s) at w

-- From a well-formed scan on, through any operations, in any order and whether or not they are
-- refused: the status is a known one, the completion time is set exactly in an end state, a queued
-- scan has no start time, a running, partial or completed one has, and no scanner has two results.
pub run-IsWellFormed : (s : Scan) (es : List Event) → IsWellFormed s → IsWellFormed (run s es)
unfolding run
run-IsWellFormed s [] w = w
run-IsWellFormed s (e ∷ es) w = run-IsWellFormed (apply s e) es (apply-IsWellFormed s e w)

not_from_terminal : (a b : Status) → terminal a ≡ true → ¬ (a ⟶ b)
unfolding terminal
not_from_terminal a b t start = cc
not_from_terminal a b t mv = cc

terminal-transition :
    (s : Scan) (next : Status) (at : ℕ) → terminal s.status ≡ true → (transition s next at).0 ≡ s
terminal-transition s next at t =
    (transition_correct s next at).2
      (λ h. not_from_terminal s.status next t (transition→⟶ s next at h))

-- What a scan shows of its life: status, start and completion.
abbrev pub life : Scan → Status × Option ℕ × Option ℕ
life s = (s.status, s.started_at, s.completed_at)

apply-terminal : (s : Scan) (e : Event) → terminal s.status ≡ true → life (apply s e) ≡ life s
unfolding apply complete
apply-terminal s (result r) t = refl
apply-terminal s (move next at) t = ap life (terminal-transition s next at t)
apply-terminal s (end at) t = ap life (terminal-transition s (terminal_status s) at t)

-- An end state is final: no sequence of operations changes the status, the start time or the
-- completion time of a scan that has reached one.
pub terminal_final :
    (s : Scan) (es : List Event) → terminal s.status ≡ true → life (run s es) ≡ life s
unfolding run
terminal_final s [] t = refl
terminal_final s (e ∷ es) t =
    let same = apply-terminal s e t in
    terminal_final (apply s e) es (cc (ap (λ (l : Status × Option ℕ × Option ℕ). l.0) same)) ∙ same
