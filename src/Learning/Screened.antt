-- ===== src/Learning/Screened.antt =====
-- What a comment on a vote can do to the memory of an agent.
use sleeper_service.Base.{◌≡◌, String, none, some, [], ◌∷◌, ap, ◌∙◌, refl}
use sleeper_service.Base.Text.{Text, codes}
use sleeper_service.Models.Jobs.{Job, Flag}
use sleeper_service.Models.Memory.{Feedback}
use sleeper_service.Models.Auth.{Tenant}
use sleeper_service.Models.Agents.{Agent}
use sleeper_service.State.{Db}
use sleeper_service.Services.{Services, screen}
use sleeper_service.Memory.Cap.{strip_space}
use sleeper_service.Learning.{Distiller, is_positive, fold_lesson, screened_comment, fold_vote}

flagged_comment :
    (s : Services) (tenant : Tenant) (t : Text) {flag : Flag}
    → screen s tenant.settings (t ∷ []) ≡ some flag
    → elim t [
      | [] ↦ []
      | c ∷ cs ↦ elim (screen s tenant.settings ((c ∷ cs) ∷ [])) [ none ↦ c ∷ cs | some f ↦ [] ]
    ]
      ≡ []
flagged_comment s tenant [] h = refl
flagged_comment s tenant (c ∷ cs) h = rw h refl

-- A comment that the screen flags has no effect: the vote folds into the memory as the same vote without a comment, in
-- every table, event and alert. It reaches neither the lesson nor the model that distills one.
pub fold_vote-flagged :
    (s : Services) (distill : Distiller) (fb : Feedback) (job : Job) (agent : Agent)
    (tenant : Tenant) (db : Db) (comment : String) {flag : Flag}
    → fb.comment ≡ some comment
    → screen s tenant.settings (strip_space (codes comment) ∷ []) ≡ some flag
    → fold_vote s distill fb job agent tenant db
      ≡ fold_vote s distill (record fb { comment = none }) job agent tenant db
unfolding fold_vote screened_comment
fold_vote-flagged s distill fb job agent tenant db comment e h =
    ap (fold_lesson s distill (is_positive fb.vote) job agent tenant db)
      (ap (screened_comment s tenant) e ∙ flagged_comment s tenant (strip_space (codes comment)) h)
