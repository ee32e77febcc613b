-- ===== src/Learning/Stages/Prompts.antt =====
-- crates/sovalune-self-learning/src/stages: the texts that the handlers send to the inference engine,
-- and the numbers that they read in its answers.

use sovalune_core.Common.{ℕ, Bool, not, ◌&&◌, ◌==◌, Option, none, some, List, ◌++◌, map, length}
use sovalune_core.Text.{Text, codes}
use sovalune_core.Text.Decimal.{is_digit, print_nat}
use sovalune_core.Text.Pieces.{join, lines, words, trim_matches, before, second_piece, find_map}
use sovalune_core.Learning.Monad.{Evidence, TestResult}
use sovalune_core.Learning.Orchestrator.{LearningCycle}
use sovalune_core.Learning.Stages.{Outside}

-- the excerpts, with a line of dashes between them
unfoldable pub evidence_summary : List Evidence → Text
evidence_summary evidence = join (codes "\n---\n") (map (λ (e : Evidence). e.excerpt) evidence)

-- a character that is trimmed off a number
unfoldable pub no_number : ℕ → Bool
no_number c = not (is_digit c) && not (c == b'.')

module _ {F : Type 0} (env : Outside F) where
  open env use {print_id, print_confidence, parse_f32}

  unfoldable pub analysis_prompt : LearningCycle F → Text
  analysis_prompt cycle =
      codes "A task with ID "
      ++ (print_id cycle.origin_task_id
          ++ codes
              " failed. Analyze what might have gone wrong and suggest a research plan. Return a JSON object with analysis and research_queries fields.")

  unfoldable pub memory_query : LearningCycle F → Text
  memory_query cycle =
      codes "task " ++ (print_id cycle.origin_task_id ++ codes " failure knowledge")

  unfoldable pub known : Option Text → Text
  known none = codes "No existing knowledge found."
  known (some c) = codes "Existing knowledge:\n" ++ c

  unfoldable pub research_prompt : LearningCycle F → Option Text → Text
  unfolding known
  research_prompt cycle memory_context =
      codes "Research the following task failure and gather insights.\n\nTask ID: "
      ++ (print_id cycle.origin_task_id
          ++ (codes "\nProject: "
              ++ (print_id cycle.project_id
                  ++ (codes "\n"
                      ++ (known memory_context
                          ++ codes
                              "\n\nBased on available information, provide:\n1. What likely went wrong\n2. Relevant patterns or conventions\n3. Recommended fixes or approaches\nReturn a JSON object with findings, confidence (0.0-1.0), and sources array.")))))

  unfoldable pub tier_text : Evidence → Text
  tier_text e = e.source_type ++ (codes "(tier=" ++ (print_nat e.trust_tier ++ codes ")"))

  unfoldable pub verify_prompt : List Evidence → Text
  unfolding tier_text
  verify_prompt evidence =
      codes
        "Verify the following research findings for consistency and correctness.\n\nEvidence count: "
      ++ (print_nat (length evidence)
          ++ (codes "\nTrust scores: "
              ++ (join (codes ", ") (map tier_text evidence)
                  ++ codes "\n\nRate the overall reliability from 0.0 to 1.0 and explain why.")))

  unfoldable pub practice_prompt : List Evidence → Text
  unfolding evidence_summary
  practice_prompt evidence =
      codes
        "Based on the research findings below, generate 3 synthetic practice tasks that test the knowledge gained.\n\nResearch findings:\n"
      ++ (evidence_summary evidence
          ++ codes
              "\n\nReturn a JSON array of tasks: [{\"task\": \"...\", \"expected_approach\": \"...\", \"difficulty\": \"easy|medium|hard\"}]")

  unfoldable pub test_prompt : LearningCycle F → List Evidence → List (TestResult F) → Text
  unfolding evidence_summary
  test_prompt cycle evidence test_results =
      codes "Evaluate the following learned knowledge by testing it.\n\nTask ID: "
      ++ (print_id cycle.origin_task_id
          ++ (codes "\nKnowledge gathered:\n"
              ++ (evidence_summary evidence
                  ++ (codes "\nPractice results: "
                      ++ (print_nat (length test_results)
                          ++ codes
                              " items\n\nPerform a self-evaluation:\n1. Can the knowledge be applied to the original task?\n2. Are there edge cases not covered?\n3. Is the knowledge generalizable?\n\nReturn a JSON object: {\"passed\": true/false, \"pass_rate\": 0.0-1.0, \"evaluation\": \"...\", \"gaps\": [\"...\"]}")))))

  unfoldable pub apply_prompt : LearningCycle F → List Evidence → Text
  unfolding evidence_summary
  apply_prompt cycle evidence =
      codes "Apply the following learned knowledge to improve the project.\n\nTask ID: "
      ++ (print_id cycle.origin_task_id
          ++ (codes "\nProject: "
              ++ (print_id cycle.project_id
                  ++ (codes "\nConfidence: "
                      ++ (print_confidence cycle.confidence_score
                          ++ (codes "\nKnowledge gathered:\n"
                              ++ (evidence_summary evidence
                                  ++ codes
                                      "\n\nGenerate an actionable summary:\n1. What specific changes should be made\n2. What files or modules are affected\n3. What conventions or patterns should be followed\n\nReturn a JSON object: {\"summary\": \"...\", \"changes\": [\"...\"], \"files_affected\": [\"...\"]}")))))))

  unfoldable pub knowledge_content : LearningCycle F → Text → Text
  knowledge_content cycle shown =
      codes "Learning from task "
      ++ (print_id cycle.origin_task_id
          ++ (codes " (project " ++ (print_id cycle.project_id ++ (codes "):\n" ++ shown))))

  -- the number in a line: the line itself, or the first word that is one, without what is around it
  unfoldable pub number_in : Text → Option F
  number_in line = elim (parse_f32 line) [
    | some x ↦ some x
    | none ↦ find_map (λ word. parse_f32 (trim_matches no_number word)) (words line)
  ]

  unfoldable pub extract_confidence : Text → Option F
  unfolding number_in
  extract_confidence response = find_map number_in (lines response)

  unfoldable pub rate_in : Text → Option F
  rate_in line = elim (second_piece (codes "\"pass_rate\"") line) [
    | none ↦ none
    | some s ↦ parse_f32 (before (codes ",") (trim_matches no_number s))
  ]

  unfoldable pub extract_rate : Text → Option F
  unfolding rate_in
  extract_rate evaluation = find_map rate_in (lines evaluation)
