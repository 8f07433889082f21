-- ===== src/Services/Process.antt =====
-- The services beside the loop of execution_process.py.
use mathlib.Core.Path.{subst}
use qcg_task.Prelude.{
  String, ◌≡◌, ap, ◌∙◌, some, List, [], ◌∷◌, map, All, arith, Option-cases, inl, inr,
}
use qcg_task.Prelude.Int.{ℤ}
use qcg_task.Prelude.Json.{Hashing}
use qcg_task.Config.{Config}
use qcg_task.Runtime.{Texts}
use qcg_task.Ledger.{EvidenceLedger}
use qcg_task.Trust.Identity.{Ecdsa}
use qcg_task.Execution.Defs.{Message, Answer, Executor, handle, run_all}
use qcg_task.Services.Turn.{System, turn, turns}
use qcg_task.Services.Follows.{
  calm, process_of, Follows, AllMatch, Carries, process_turn, services_turn, Follows-keeps,
  Follows-matches, process_of-same, turn-Follows,
}

module _ (cfg : Config) (h : Hashing) (e : Ecdsa) (t : Texts) where
  -- When every call is answered and each message carries its time, the services and the loop of
  -- `execution_process` take the same decisions: if the loop ends with a list of answers, the services
  -- send on as many, which say the same one by one, and both are left with the same replay authority
  -- and the same trust registry.
  pub turns_follow_process :
      (ws : List (ℤ × ℤ × String × Message)) (s : System) (l : EvidenceLedger)
      (answers : List Answer) (after : Executor)
      → All Carries ws
      → run_all cfg h e t (map process_turn ws) (process_of s l) ≡ some (answers, after)
      → let r = turns cfg h e t (map services_turn ws) s in
        AllMatch answers r.0 × (r.1.replay.authority ≡ after.authority) × (r.1.trust ≡ after.trust)
  unfolding turns run_all
  turns_follow_process [] s l answers after carried done =
      let none_left : [] ≡ answers = ground (arith, done) in
      let same : process_of s l ≡ after = cc done in
      (
        subst (λ x. AllMatch x []) none_left tt,
        ap (λ (p : Executor). p.authority) same,
        ap (λ (p : Executor). p.trust) same,
      )
  turns_follow_process ((now, replay_now, exec_id, m) ∷ ws) s l answers after carried done =
      elim (Option-cases (handle cfg h e t replay_now exec_id m (process_of s l))) [
        | inl ended ↦ absurd (ground (arith, ended, done))
        | inr ((a, p), answered_a) ↦
            elim (Option-cases (run_all cfg h e t (map process_turn ws) p)) [
              | inl ended ↦ absurd (ground (arith, answered_a, ended, done))
              | inr ((others, p'), answered_others) ↦
                  let r = turn cfg h e t (calm now replay_now exec_id) m s in
                  let (issued, issue) = carried.0 in
                  let first : Follows (some (a, p)) r =
                    subst (λ x. Follows x r) answered_a
                      (turn-Follows cfg h e t now replay_now exec_id issued m s l issue) in
                  let kept = Follows-keeps a p r first in
                  let rest_run : run_all cfg h e t (map process_turn ws) (process_of r.1 p.ledger)
                      ≡ some (others, p') =
                    ap (run_all cfg h e t (map process_turn ws))
                      (process_of-same r.1 p kept.0 kept.1)
                    ∙ answered_others in
                  let (matched, authority, trust) =
                    turns_follow_process ws r.1 p.ledger others p' carried.1 rest_run in
                  let all : a ∷ others ≡ answers =
                    ground (arith, answered_a, answered_others, done) in
                  let end : p' ≡ after = ground (arith, answered_a, answered_others, done) in
                  (
                    subst (λ x. AllMatch x (r.0 ∷ (turns cfg h e t (map services_turn ws) r.1).0))
                        all
                        (Follows-matches a p r others (turns cfg h e t (map services_turn ws) r.1).0
                          first matched),
                    authority ∙ ap (λ (x : Executor). x.authority) end,
                    trust ∙ ap (λ (x : Executor). x.trust) end,
                  )
            ]
      ]
