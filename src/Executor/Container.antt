-- ===== src/Executor/Container.antt =====
-- backend/internal/executor/executor.go: one run of a container. What Docker answers is an argument.
pub mod Bounds
use pairly.Prelude.{
  ℕ, zero, suc, ◌+◌, ◌-◌, ◌*◌, ◌≤◌, ◌<◌, String, ◌≡◌, refl, sym, ap, subst, ◌∙◌, ◌≢◌, ◌↔◌, ◌⊎◌, inl,
  inr, Bool, true, false, not, ◌&&◌, ◌||◌, Option, none, some, List, [], ◌∷◌, ◌++◌, map, arith, ltb,
  leb, if◌then◌else◌, Comparable, string_eq, nat_eq, Bool-cases, ◌==◌, ==_iff, ==_refl,
  Option-cases, length, keep, any, find, update, All, length-append, All-keep, All-append,
}
use pairly.Mongo.Documents.{Bytes}

pub record LangConfig : Type 0 where
  pub image : String
  pub command : List String

abbrev config : String → List String → LangConfig
config image command = record { image = image; command = command }

unfoldable pub lang_configs : String → Option LangConfig
lang_configs language =
    if language == "python"
    then some (config "python:3.11-alpine" ("python3" ∷ []))
    else if language == "javascript"
    then some (config "node:20-alpine" ("node" ∷ []))
    else if language == "typescript"
    then some (config "node:20-alpine" ("npx" ∷ "ts-node" ∷ []))
    else if language == "go"
    then some (config "golang:1.21-alpine" ("go" ∷ "run" ∷ []))
    else if language == "java"
    then some (config "eclipse-temurin:21-alpine" ("java" ∷ []))
    else none

-- The select on errCh, statusCh and the timeout: an error of the wait or none, the container's
-- status, or 30 seconds.
pub data Wait : Type 0 where
  wait_error wait_closed timed_out : Wait
  finished : ℕ → Wait

-- ContainerCreate, ContainerStart, ContainerWait, ContainerLogs with StdCopy, and the clock: `true`
-- is a call without an error, and `none` an error.
pub record Docker : Type 0 where
  pub creates : LangConfig → List String → Bool
  pub starts : Bool
  pub wait : Wait
  pub logs : Option Bytes
  pub duration_ms : ℕ

-- An exit code is -1 or a status of the container: `none` stands for -1.
pub record RunResult : Type 0 where
  pub output : Bytes
  pub exit_code : Option ℕ
  pub duration_ms : ℕ

unfoldable pub exit_code_of : Wait → Option ℕ
exit_code_of wait_error = none
exit_code_of wait_closed = some 0
exit_code_of timed_out = none
exit_code_of (finished status) = some status

-- "\n[Process killed: execution exceeded 30 second time limit]", whose characters are ASCII
unfoldable pub killed_text : Bytes
killed_text =
    10 ∷ 91 ∷ 80 ∷ 114 ∷ 111 ∷ 99 ∷ 101 ∷ 115 ∷ 115 ∷ 32 ∷ 107 ∷ 105 ∷ 108 ∷ 108 ∷ 101 ∷ 100 ∷ 58
    ∷ 32 ∷ 101 ∷ 120 ∷ 101 ∷ 99 ∷ 117 ∷ 116 ∷ 105 ∷ 111 ∷ 110 ∷ 32 ∷ 101 ∷ 120 ∷ 99 ∷ 101 ∷ 101
    ∷ 100 ∷ 101 ∷ 100 ∷ 32 ∷ 51 ∷ 48 ∷ 32 ∷ 115 ∷ 101 ∷ 99 ∷ 111 ∷ 110 ∷ 100 ∷ 32 ∷ 116 ∷ 105 ∷ 109
    ∷ 101 ∷ 32 ∷ 108 ∷ 105 ∷ 109 ∷ 105 ∷ 116 ∷ 93 ∷ []

abbrev pub is_killed : Option ℕ → Bool
is_killed none = true
is_killed (some status) = false

-- s[:n] of a string that is longer
unfoldable pub take : ℕ → Bytes → Bytes
take zero bs = []
take (suc n) [] = []
take (suc n) (b ∷ bs) = b ∷ take n bs

unfoldable pub max_output : ℕ
max_output = 50 * 1024

-- if len(output) > n { output = output[:n] }
unfoldable pub cut_output : ℕ → Bytes → Bytes
cut_output n output = if ltb n (length output) then take n output else output

unfoldable pub output_of : Option ℕ → Bytes → Bytes
output_of exit_code logs =
    let output = cut_output max_output logs in
    if is_killed exit_code then output ++ killed_text else output

unfoldable pub run_container : Docker → String → String → Option RunResult
run_container docker entry_path language = elim (lang_configs language) [
  | none ↦ none
  | some cfg ↦
      if not (docker.creates cfg (cfg.command ++ entry_path ∷ [])) || not docker.starts
      then none
      else elim docker.logs [
        | none ↦ none
        | some logs ↦ some (record {
          output = output_of (exit_code_of docker.wait) logs;
          exit_code = exit_code_of docker.wait;
          duration_ms = docker.duration_ms;
        })
      ]
]
