-- ===== src/Composite.antt =====
-- internal/composite: the steps of a composite tool, and the batches they run in.
mod Tests
pub mod Batches
pub mod Single
pub mod FanOut
pub mod Scrub
pub mod Pages
pub mod Checks
pub mod Body
pub mod Bound
use solace_broker_mcp.Common.{
  String, ℕ, Bool, true, false, List, [], ◌∷◌, ◌++◌, ◌&&◌, not, if◌then◌else◌,
}

-- A step of a tool, with the fields that its execution reads.
pub record Step : Type 0 where
  pub id : String
  pub operation : String
  pub select : List String
  pub parallel : Bool
  pub follow_pages : Bool
  pub for_each : String
  pub for_each_if : String
  pub for_each_key : String
  pub concurrency : ℕ
  pub optional_args : List String
  pub body_checks : List String
  pub resumable : Bool

pub record ExecutionBatch : Type 0 where
  pub sequential : Bool
  pub steps : List Step

abbrev pub batch_of : Step → ExecutionBatch
batch_of s = record { sequential = not s.parallel; steps = s ∷ [] }

-- One turn of the loop of `GroupStepsIntoBatches`; `currentBatch` points at the last batch.
pub add_step : List ExecutionBatch → Step → List ExecutionBatch
add_step [] s = batch_of s ∷ []
add_step (b ∷ []) s =
    if s.parallel && not b.sequential
    then record b { steps = b.steps ++ (s ∷ []) } ∷ []
    else b ∷ batch_of s ∷ []
add_step (b ∷ c ∷ batches) s = b ∷ add_step (c ∷ batches) s

pub add_steps : List ExecutionBatch → List Step → List ExecutionBatch
add_steps batches [] = batches
add_steps batches (s ∷ steps) = add_steps (add_step batches s) steps

pub group_steps : List Step → List ExecutionBatch
group_steps steps = add_steps [] steps
