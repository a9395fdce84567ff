-- ===== src/Learning.antt =====
-- runtime/learning.py and api/v1/feedback.py: a vote on the result of a job, and its fold into the agent's memory. The
-- lesson that the fold model writes from a vote, a comment and a summary of the job is a parameter.
pub mod Votes
pub mod Screened
mod Tests
use Prim.Native.Nat.{◌/◌, ◌%◌}
use sleeper_service.Base.{
  ℕ, suc, ◌+◌, String, Bool, true, false, Option, none, some, List, [], ◌∷◌, ◌++◌, ◌&&◌, not, map,
}
use sleeper_service.Base.Tests.{◌==◌, ltb, str_eq, if◌then◌else◌}
use sleeper_service.Base.Lists.{any, length, take}
use sleeper_service.Base.Table.{find, find_by}
use sleeper_service.Base.Text.{Text, codes, occurs}
use sleeper_service.Base.Result.{
  Result, ok, err, ◌>>=◌, ◌>>◌, guard, or_raise, forbidden, not_found, conflict,
}
use sleeper_service.Models.Json.{ℤ, pos, negsuc, Value, text, object, Fields, get, as_object}
use sleeper_service.Models.Time.{DateTime}
use sleeper_service.Models.Auth.{Tenant, tenant_keyed}
use sleeper_service.Models.Agents.{Agent, agent_keyed}
use sleeper_service.Models.Jobs.{Job, job_keyed}
use sleeper_service.Models.Memory.{MemoryVersion, Feedback, feedback_keyed}
use sleeper_service.State.{Db, enqueue, fold_feedback}
use sleeper_service.Services.{Services, screen}
use sleeper_service.Access.{is_some}
use sleeper_service.Memory.{
  learning_enabled, approval_required, latest_memory, write_memory, fold_model_string,
}
use sleeper_service.Memory.Cap.{newline, strip_space, rstrip_space, lstrip_space}

-- `FeedbackCreate`
pub record FeedbackCreate : Type 0 where
  pub vote : ℤ
  pub comment : Option String

abbrev pub add_feedback : ℕ → FeedbackCreate → Db → Db
add_feedback job_id body db = record db {
  feedback =
      db.feedback
      ++ record { id = db.next_id; job_id = job_id; vote = body.vote; comment = body.comment } ∷ [];
  next_id = suc db.next_id;
}

-- `feedback_token` is the keyed hash of a job's id, and `token` the one that the request brings.
unfoldable pub submit_feedback : (ℕ → String) → Db → ℕ → FeedbackCreate → String → Result Db
submit_feedback feedback_token db job_id body token = do
  guard (not (str_eq token "") && str_eq token (feedback_token job_id)) forbidden
  job ← or_raise (find job_id db.jobs) not_found
  agent ← or_raise (find job.agent_id db.agents) not_found
  guard (learning_enabled agent.options) not_found
  guard (not (is_some (find_by (λ (f : Feedback). f.job_id == job_id) db.feedback))) conflict
  ok (enqueue (fold_feedback db.next_id) (add_feedback job_id body db))

abbrev pub to_space : ℕ → ℕ
to_space c = if c == newline then 32 else c

abbrev pub text_or : Option Value → Text → Text
text_or (some (text s)) other = codes s
text_or _ other = other

abbrev pub output_of : Job → Fields
output_of job = as_object job.output

abbrev pub payload_of : Job → Fields
payload_of job = as_object (some job.payload)

-- `_summarize`
unfoldable pub summarize : Job → Text
summarize job = map to_space (
    take 200 (text_or (get "summary" (output_of job)) (text_or (get "prompt" (payload_of job)) [])))

-- `date().isoformat()`
abbrev pub digit : ℕ → ℕ
digit n = 48 + n % 10

abbrev pub two_digits : ℕ → Text
two_digits n = digit (n / 10) ∷ digit n ∷ []

abbrev pub iso_date : DateTime → Text
iso_date t =
    (two_digits (t.year / 100) ++ two_digits t.year)
    ++ (45 ∷ two_digits t.month ++ 45 ∷ two_digits t.day)

abbrev pub is_positive : ℤ → Bool
is_positive (pos n) = ltb 0 n
is_positive (negsuc n) = false

abbrev pub lesson_line : Bool → DateTime → Text → Text
lesson_line positive now rest =
    codes (if positive then "- ✔ " else "- ✘ ") ++ (iso_date now ++ codes ": " ++ rest)

-- The deterministic lesson.
unfoldable pub plain_lesson : Bool → DateTime → Text → Job → Text
unfolding summarize
plain_lesson positive now comment job =
    if positive
    then lesson_line true now (codes "positive feedback on: " ++ summarize job)
    else elim comment [
      | [] ↦ lesson_line false now (codes "negative feedback on: " ++ summarize job)
      | c ∷ cs ↦ lesson_line false now (codes "correction from feedback: " ++ take 300 (c ∷ cs))
    ]

-- The model's answer to a vote, a comment and the job's summary; none where it is not available.
abbrev pub Distiller : Type 0
Distiller = String → Bool → Text → Text → Option Text

abbrev pub non_empty : Text → Option Text
non_empty [] = none
non_empty (c ∷ cs) = some (c ∷ cs)

unfoldable pub distill_lesson : Distiller → Tenant → Bool → Text → Job → Option Text
unfolding summarize
distill_lesson distill tenant positive comment job = elim (fold_model_string tenant.settings) [
  | none ↦ none
  | some model ↦ elim (distill model positive (take 1000 comment) (summarize job)) [
    | none ↦ none
    | some answer ↦ non_empty (take 300 (map to_space (strip_space answer)))
  ]
]

-- A comment that the screen flags is left out.
unfoldable pub screened_comment : Services → Tenant → Option String → Text
screened_comment s tenant comment =
    let stripped = strip_space (elim comment [ none ↦ [] | some c ↦ codes c ]) in
    elim stripped [
      | [] ↦ []
      | c ∷ cs ↦ elim (screen s tenant.settings ((c ∷ cs) ∷ [])) [ none ↦ c ∷ cs | some flag ↦ [] ]
    ]

-- The model's lesson, where it passes the screen, and the deterministic one otherwise.
unfoldable pub lesson_of : Services → Distiller → Tenant → DateTime → Bool → Text → Job → Text
unfolding plain_lesson distill_lesson
lesson_of s distill tenant now positive comment job =
    elim (distill_lesson distill tenant positive comment job) [
      | none ↦ plain_lesson positive now comment job
      | some distilled ↦ elim (screen s tenant.settings (distilled ∷ [])) [
        | none ↦ lesson_line positive now distilled
        | some flag ↦ plain_lesson positive now comment job
      ]
    ]

abbrev pub lessons_header : Text
lessons_header = codes "## Lessons"

abbrev pub with_header : Text → Text
with_header content =
    if occurs lessons_header content
    then content
    else lstrip_space (content ++ (newline ∷ newline ∷ lessons_header ++ newline ∷ []))

unfoldable pub add_lesson : Text → Text → Text
add_lesson content lesson = rstrip_space (with_header content) ++ (newline ∷ lesson ++ newline ∷ [])

abbrev pub content_of : Option MemoryVersion → Text
content_of none = []
content_of (some v) = v.content

-- From the screened comment on: the lesson, and the write of the document that ends with it.
unfoldable pub fold_lesson : Services → Distiller → Bool → Job → Agent → Tenant → Db → Text → Db
unfolding lesson_of add_lesson
fold_lesson s distill positive job agent tenant db comment =
    let lesson = lesson_of s distill tenant db.now positive comment job in
    (write_memory s agent.id (add_lesson (content_of (latest_memory db agent.id)) lesson)
      (some job.id) false (approval_required agent.options) db).0

-- With the rows that the vote refers to.
unfoldable pub fold_vote : Services → Distiller → Feedback → Job → Agent → Tenant → Db → Db
unfolding screened_comment fold_lesson
fold_vote s distill fb job agent tenant db =
    fold_lesson s distill (is_positive fb.vote) job agent tenant db
      (screened_comment s tenant fb.comment)

-- The task of the queue; the rows that are looked up after the vote are promised by foreign keys.
unfoldable pub run_fold : Services → Distiller → ℕ → Db → Db
unfolding fold_vote
run_fold s distill feedback_id db = elim (find feedback_id db.feedback) [
  | none ↦ db
  | some fb ↦ elim (find fb.job_id db.jobs) [
    | none ↦ db
    | some job ↦ elim (find job.agent_id db.agents) [
      | none ↦ db
      | some agent ↦ elim (find agent.tenant_id db.tenants) [
        | none ↦ db
        | some tenant ↦
            if learning_enabled agent.options
            then fold_vote s distill fb job agent tenant db
            else db
      ]
    ]
  ]
]
