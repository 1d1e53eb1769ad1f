-- ===== src/Findings/Judged.antt =====
-- internal/findings/transition.go: which requests a person may make.
use secure_dev.Prelude.{
  String, Bool, true, false, ◌≡◌, ◌≤◌, ◌<◌, ◌⊎◌, inl, inr, refl, Option, none, some, [], ◌∷◌, any,
  ◌==◌, ltb, ltb→lt, arith, Bool-cases,
}
use secure_dev.Prelude.Text.Bytes.{byte_length}
use secure_dev.Normalization.Finding.{
  Status, status_valid, open_, acknowledged, in_progress, resolved, reopened, false_positive,
  ignored,
}
use secure_dev.Findings.{
  TransitionRequest, TransitionError, human_settable, request_validate, max_note_length,
  unknown_status, set_by_scans, unknown_reason, long_note,
}

-- The states that a person may judge a finding to be in.
pub data IsJudgement : Status → Type 0 where
  judged_open : IsJudgement open_
  judged_known : IsJudgement acknowledged
  judged_started : IsJudgement in_progress
  judged_false : IsJudgement false_positive
  judged_ignored : IsJudgement ignored

abbrev pub is_reason : String → Bool
is_reason reason =
    any (λ word. word == reason)
      ("false_positive" ∷ "accepted_risk" ∷ "triaged" ∷ "work_started" ∷ "reinstated" ∷ [])

-- What is wrong with a request that is refused with an error.
pub data IsFaulty (r : TransitionRequest) : TransitionError → Type 0 where
  no_status : (t : String) → r.to_status ≡ Status.other t → IsFaulty r unknown_status
  no_judgement : (r.to_status ≡ resolved) ⊎ (r.to_status ≡ reopened) → IsFaulty r set_by_scans
  no_reason : is_reason r.reason ≡ false → IsFaulty r unknown_reason
  wordy : 2000 < byte_length r.note → IsFaulty r long_note

abbrev pub IsSound : TransitionRequest → Type 0
IsSound r = IsJudgement r.to_status × (is_reason r.reason ≡ true) × (byte_length r.note ≤ 2000)

settable-IsJudgement : (s : Status) → human_settable s ≡ true → IsJudgement s
unfolding human_settable
settable-IsJudgement open_ h = judged_open
settable-IsJudgement acknowledged h = judged_known
settable-IsJudgement in_progress h = judged_started
settable-IsJudgement false_positive h = judged_false
settable-IsJudgement ignored h = judged_ignored
settable-IsJudgement _ h = cc

scans_only :
    (s : Status)
    → status_valid s ≡ true
    → human_settable s ≡ false
    → (s ≡ resolved) ⊎ (s ≡ reopened)
unfolding status_valid human_settable
scans_only resolved v h = inl refl
scans_only reopened v h = inr refl
scans_only _ v h = cc

unknown_other : (s : Status) → status_valid s ≡ false → (t : String) × (s ≡ Status.other t)
unfolding status_valid
unknown_other (Status.other t) h = (t, refl)
unknown_other _ h = cc

-- A request is refused for what is wrong with it, and else accepted.
abbrev pub Verdict : TransitionRequest → Option TransitionError → Type 0
Verdict r none = IsSound r
Verdict r (some e) = IsFaulty r e

pub request_validate-Verdict : (r : TransitionRequest) → Verdict r (request_validate r)
unfolding request_validate
request_validate-Verdict r = elim (Bool-cases (status_valid r.to_status)) [
  | inr v ↦ rw v (let (t, same) = unknown_other r.to_status v in no_status t same)
  | inl v ↦ elim (Bool-cases (human_settable r.to_status)) [
    | inr h ↦ rw (v, h) (no_judgement (scans_only r.to_status v h))
    | inl h ↦ elim (Bool-cases (is_reason r.reason)) [
      | inr w ↦ rw (v, h, w) (no_reason w)
      | inl w ↦ elim (Bool-cases (ltb max_note_length (byte_length r.note))) [
        | inl b ↦ rw (v, h, w, b) (wordy (ltb→lt 2000 (byte_length r.note) b))
        | inr b ↦ rw (v, h, w, b) (settable-IsJudgement r.to_status h, w, ground (arith, b))
      ]
    ]
  ]
]
