-- ===== src/Executor/Container/Bounds.antt =====
-- The limits on the output of backend/internal/executor/executor.go.
use pairly.Prelude.{
  ℕ, zero, suc, ◌≤◌, String, ◌≡◌, refl, sym, ap, subst, ◌∙◌, inl, inr, Option, none, some, [], ◌∷◌,
  ◌++◌, arith, ltb, if◌then◌else◌, string_eq, nat_eq, Bool-cases, Option-cases, length,
  length-append,
}
use pairly.Mongo.Documents.{Bytes}
use pairly.Executor.Container.{
  Docker, RunResult, exit_code_of, killed_text, take, max_output, output_of, cut_output, is_killed,
  run_container, lang_configs,
}

append_nil : (bs : Bytes) → bs ++ [] ≡ bs
append_nil [] = refl
append_nil (b ∷ bs) = ap (λ x. b ∷ x) (append_nil bs)

length-take : (n : ℕ) (bs : Bytes) → length (take n bs) ≤ n
unfolding take
length-take zero bs = omega arith
length-take (suc n) [] = omega arith
length-take (suc n) (b ∷ bs) = omega (arith, length-take n bs)

take_whole : (n : ℕ) (bs : Bytes) → length bs ≤ n → take n bs ≡ bs
unfolding take
take_whole zero [] h = refl
take_whole zero (b ∷ bs) h = absurd (omega arith)
take_whole (suc n) [] h = refl
take_whole (suc n) (b ∷ bs) h = ap (λ x. b ∷ x) (take_whole n bs (omega arith))

cut_output-take : (n : ℕ) (bs : Bytes) → cut_output n bs ≡ take n bs
unfolding cut_output
cut_output-take n bs = elim (Bool-cases (ltb n (length bs))) [
  | inl e ↦ ground arith
  | inr e ↦ ground (arith, take_whole n bs)
]

output_of_lem :
    (exit_code : Option ℕ) (logs : Bytes)
    → output_of exit_code logs
      ≡ take max_output logs ++ (if is_killed exit_code then killed_text else [])
unfolding output_of
output_of_lem none logs = ap (λ x. x ++ killed_text) (cut_output-take max_output logs)
output_of_lem (some status) logs =
    cut_output-take max_output logs ∙ sym (append_nil (take max_output logs))

max_output-eq : max_output ≡ 51200
unfolding max_output
max_output-eq = refl

length-killed : length killed_text ≡ 58
unfolding killed_text
length-killed = refl

length-output_of :
    (exit_code : Option ℕ) (logs : Bytes)
    → length (output_of exit_code logs) ≤ (if is_killed exit_code then 51258 else 51200)
length-output_of none logs = omega (
  arith,
  ap length (output_of_lem none logs),
  length-append (take max_output logs) killed_text,
  length-take max_output logs,
  max_output-eq,
  length-killed,
)
length-output_of (some status) logs = omega (
  arith,
  ap length (output_of_lem (some status) logs),
  length-append (take max_output logs) [],
  length-take max_output logs,
  max_output-eq,
)

run_container_lem :
    (docker : Docker) (entry_path language : String) (logs : Bytes) (r : RunResult)
    → docker.logs ≡ some logs
    → run_container docker entry_path language ≡ some r
    → (r.output ≡ output_of r.exit_code logs) × (r.exit_code ≡ exit_code_of docker.wait)
unfolding run_container
run_container_lem docker entry_path language logs r l e =
    elim (Option-cases (lang_configs language)) [
      | inl u ↦ ground arith
      | inr (cfg, u) ↦ ground arith
    ]

-- A container whose output could be read returns at most 51200 bytes of it, its first, followed by
-- the 58 bytes of the line about the time limit where the exit code is -1, and by nothing else
-- where it is not; so an output has at most 51258 bytes.
pub run_container-take :
    (docker : Docker) (entry_path language : String) (logs : Bytes) (r : RunResult)
    → docker.logs ≡ some logs
    → run_container docker entry_path language ≡ some r
    → (r.output ≡ take max_output logs ++ (if is_killed r.exit_code then killed_text else []))
      × (r.exit_code ≡ exit_code_of docker.wait)
      × (length r.output ≤ (if is_killed r.exit_code then 51258 else 51200))
run_container-take docker entry_path language logs r l e =
    let (output, code) = run_container_lem docker entry_path language logs r l e in
    (
      output ∙ output_of_lem r.exit_code logs,
      code,
      subst (λ o. length o ≤ (if is_killed r.exit_code then 51258 else 51200)) (sym output)
          (length-output_of r.exit_code logs),
    )
