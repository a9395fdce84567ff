-- ===== src/Learning/Votes.antt =====
-- At most one vote for a job.
use mathlib.Core.Path.{subst}
use sleeper_service.Base.{
  ℕ, ◌≤◌, ◌≡◌, String, Bool, true, Option, none, some, List, [], ◌∷◌, ◌&&◌, not, arith, refl, sym,
}
use sleeper_service.Base.Tests.{◌==◌, str_eq}
use sleeper_service.Base.Lists.{count, count-append}
use sleeper_service.Base.Table.{find, find_by, find_by-none_count}
use sleeper_service.Base.Result.{
  ok, bind_ok, guard, guard_ok, or_raise, or_raise_ok, after_request, after_request-keeps,
  forbidden, not_found, conflict,
}
use sleeper_service.Models.Agents.{Agent, agent_keyed}
use sleeper_service.Models.Jobs.{Job, job_keyed}
use sleeper_service.Models.Memory.{Feedback}
use sleeper_service.State.{Db, enqueue, fold_feedback}
use sleeper_service.Access.{is_some}
use sleeper_service.Memory.{learning_enabled}
use sleeper_service.Learning.{FeedbackCreate, submit_feedback, add_feedback}

abbrev pub votes_on : ℕ → Feedback → Bool
votes_on job_id f = f.job_id == job_id

-- A vote that is taken: by the holder of the job's token, on a job whose agent learns, and the first for the job; it is
-- added with the task that folds it.
abbrev pub IsTaken : (ℕ → String) → Db → ℕ → FeedbackCreate → String → Db → Type 0
IsTaken feedback_token db job_id body token db' =
    (str_eq token (feedback_token job_id) ≡ true)
    × ((job : Job) × (find job_id db.jobs ≡ some job)
        × ((agent : Agent) × (find job.agent_id db.agents ≡ some agent)
            × (learning_enabled agent.options ≡ true)))
    × (count (votes_on job_id) db.feedback ≡ 0)
    × (db' ≡ enqueue (fold_feedback db.next_id) (add_feedback job_id body db))

and_right : (a b : Bool) → (a && b) ≡ true → b ≡ true
and_right a b h = ground arith

absent {ℓ} : {A : Type ℓ} (o : Option A) → not (is_some o) ≡ true → o ≡ none
absent none h = refl
absent (some x) h = absurd (cc)

ok_inj {ℓ} : {A : Type ℓ} {a b : A} → ok a ≡ ok b → a ≡ b
ok_inj h = cc

-- A vote that is accepted comes with the token of its job, for a job whose agent learns, is the first on that job, and
-- is added together with the task that folds it.
pub submit_feedback-IsTaken :
    (feedback_token : ℕ → String) (db : Db) (job_id : ℕ) (body : FeedbackCreate) (token : String)
    {db' : Db}
    → submit_feedback feedback_token db job_id body token ≡ ok db'
    → IsTaken feedback_token db job_id body token db'
unfolding submit_feedback
submit_feedback-IsTaken feedback_token db job_id body token h =
    let signed : Bool = not (str_eq token "") && str_eq token (feedback_token job_id) in
    let (u, e0, h1) = bind_ok (guard signed forbidden) _ h in
    let (job, e1, h2) = bind_ok (or_raise (find job_id db.jobs) not_found) _ h1 in
    let (agent, e2, h3) = bind_ok (or_raise (find job.agent_id db.agents) not_found) _ h2 in
    let (w, e3, h4) = bind_ok (guard (learning_enabled agent.options) not_found) _ h3 in
    let voted : Bool = is_some (find_by (votes_on job_id) db.feedback) in
    let (x, e4, h5) = bind_ok (guard (not voted) conflict) _ h4 in
    (
      and_right (not (str_eq token "")) (str_eq token (feedback_token job_id))
          (guard_ok signed forbidden e0),
      (
        job,
        or_raise_ok (find job_id db.jobs) not_found e1,
        (
          agent,
          or_raise_ok (find job.agent_id db.agents) not_found e2,
          guard_ok (learning_enabled agent.options) not_found e3,
        ),
      ),
      find_by-none_count (votes_on job_id) db.feedback
          (absent (find_by (votes_on job_id) db.feedback) (guard_ok (not voted) conflict e4)),
      sym (ok_inj h5),
    )

abbrev pub OneVote : Db → Type 0
OneVote db = (job_id : ℕ) → count (votes_on job_id) db.feedback ≤ 1

-- A request to vote, with the job, the body and the token of it.
abbrev pub Ballot : Type 0
Ballot = ℕ × FeedbackCreate × String

pub collect : (ℕ → String) → Db → List Ballot → Db
collect feedback_token db [] = db
collect feedback_token db ((job_id, body, token) ∷ bs) =
    collect feedback_token (after_request db (submit_feedback feedback_token db job_id body token))
      bs

one_more :
    (feedback_token : ℕ → String) (db : Db) (job_id : ℕ) (body : FeedbackCreate) (token : String)
    {db' : Db}
    → submit_feedback feedback_token db job_id body token ≡ ok db'
    → OneVote db
    → OneVote db'
one_more feedback_token db job_id body token h one =
    let (signed, rows, none_yet, same) =
      submit_feedback-IsTaken feedback_token db job_id body token h in
    subst OneVote (sym same) λ i. ground (
      arith,
      one i,
      none_yet,
      count-append (votes_on i) db.feedback (
          record { id = db.next_id; job_id = job_id; vote = body.vote; comment = body.comment }
          ∷ []),
    )

-- After any sequence of requests to vote there is at most one vote on a job, where there was at most one before.
pub collect-OneVote :
    (feedback_token : ℕ → String) (db : Db) (bs : List Ballot)
    → OneVote db
    → OneVote (collect feedback_token db bs)
unfolding collect
collect-OneVote feedback_token db [] one = one
collect-OneVote feedback_token db ((job_id, body, token) ∷ bs) one =
    collect-OneVote feedback_token
      (after_request db (submit_feedback feedback_token db job_id body token)) bs
      (after_request-keeps OneVote db (submit_feedback feedback_token db job_id body token)
        (λ d h. one_more feedback_token db job_id body token h one) one)
