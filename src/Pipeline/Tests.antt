-- ===== src/Pipeline/Tests.antt =====
-- The pipeline of `main` of LabWork/Lab9/leetify.c.
use cs.Common.{codes, ◌≡◌, inl, inr, refl, true, none, some, List, [], ◌∷◌, map, ◌==◌}
use cs.Pipeline.{inherited, pipe, Program, Os, all_started, execute_pipeline, leetify}
use cs.Pipeline.Connected.{Connected, execute_pipeline-Connected}

abbrev working : Os
working = record { opens = λ _. true; dup2 = true; pipes = λ _. true; forks = λ _. true }

execute_pipeline-Connected_example :
    (ps : List Program) × (execute_pipeline working 0 inherited
        (leetify (codes "in") (some (codes "out")))
      ≡ (ps, all_started))
    × Connected 0 inherited (leetify (codes "in") (some (codes "out"))) ps
unfolding leetify
execute_pipeline-Connected_example =
    execute_pipeline-Connected working 0 inherited (leetify (codes "in") (some (codes "out")))
      (record { opened = λ _. refl; doubled = refl; piped = λ _. refl; forked = λ _. refl })
      (inr (refl, inr (refl, inl refl)))

-- When the second pipe cannot be made, the first command has been started already.
second_pipe_fails :
    map
      (λ p. p.output)
      ((execute_pipeline
        (record working { pipes = λ n. n == 0 })
        0
        inherited
        (leetify (codes "in") none)).0)
    ≡ pipe 0 ∷ []
unfolding execute_pipeline leetify
second_pipe_fails = refl
