-- ===== src/Composite/Batches.antt =====
-- GroupStepsIntoBatches of internal/composite/executor.go: the batches are the steps in their order,
-- cut as coarsely as the parallel marks allow.
use solace_broker_mcp.Common.{
  Bool, true, false, List, [], ◌∷◌, ◌++◌, ◌&&◌, ◌||◌, not, ◌≡◌, refl, ap, sym, subst, if_cases,
  arith, Bool-cases, append_nil, append_assoc, inl, inr, ◌∙◌,
}
use solace_broker_mcp.Composite.{Step, ExecutionBatch, batch_of, add_step, add_steps, group_steps}

-- The steps of the batches, one batch after the other.
abbrev pub flatten : List ExecutionBatch → List Step
flatten [] = []
flatten (b ∷ batches) = b.steps ++ flatten batches

abbrev pub AllParallel : List Step → Type 0
AllParallel [] = Unit
AllParallel (s ∷ steps) = (s.parallel ≡ true) × AllParallel steps

-- A sequential batch is one step that is not parallel, another is some steps that are.
pub data Shaped : ExecutionBatch → Type 0 where
  alone : (s : Step) → s.parallel ≡ false → Shaped (record { sequential = true; steps = s ∷ [] })
  together :
      (s : Step) (steps : List Step)
      → AllParallel (s ∷ steps)
      → Shaped (record { sequential = false; steps = s ∷ steps })

-- Each batch has its shape, and of it and the batch before at least one is sequential.
abbrev Linked : Bool → List ExecutionBatch → Type 0
Linked before [] = Unit
Linked before (b ∷ batches) =
    Shaped b × ((before || b.sequential) ≡ true) × Linked b.sequential batches

abbrev pub Grouped : List ExecutionBatch → Type 0
Grouped batches = Linked true batches

flatten-add_step :
    (batches : List ExecutionBatch) (s : Step)
    → flatten (add_step batches s) ≡ flatten batches ++ (s ∷ [])
unfolding add_step
flatten-add_step [] s = refl
flatten-add_step (b ∷ []) s = elim (Bool-cases (s.parallel && not b.sequential)) [
  | inl e ↦ rw (e, append_nil b.steps, append_nil (b.steps ++ (s ∷ [])))
  | inr e ↦ rw (e, append_nil b.steps)
]
flatten-add_step (b ∷ c ∷ batches) s =
    rw (flatten-add_step (c ∷ batches) s, append_assoc b.steps (flatten (c ∷ batches)) (s ∷ []))

flatten-add_steps :
    (batches : List ExecutionBatch) (steps : List Step)
    → flatten (add_steps batches steps) ≡ flatten batches ++ steps
unfolding add_steps
flatten-add_steps batches [] = sym (append_nil (flatten batches))
flatten-add_steps batches (s ∷ steps) =
    flatten-add_steps (add_step batches s) steps
    ∙ ap (λ l. l ++ steps) (flatten-add_step batches s)
    ∙ append_assoc (flatten batches) (s ∷ []) steps

-- The batches of a list of steps hold these steps, in this order.
flatten-group_steps : (steps : List Step) → flatten (group_steps steps) ≡ steps
unfolding group_steps
flatten-group_steps steps = flatten-add_steps [] steps

-- A list of batches is apart from a step when its last batch does not take the step in.
abbrev Apart : List ExecutionBatch → Step → Type 0
Apart [] s = Unit
Apart (b ∷ []) s = (s.parallel && not b.sequential) ≡ false
Apart (b ∷ c ∷ batches) s = Apart (c ∷ batches) s

add_step-Apart :
    (batches : List ExecutionBatch) (s : Step)
    → Apart batches s
    → add_step batches s ≡ batches ++ (batch_of s ∷ [])
unfolding add_step
add_step-Apart [] s h = refl
add_step-Apart (b ∷ []) s h = rw h
add_step-Apart (b ∷ c ∷ batches) s h = rw (add_step-Apart (c ∷ batches) s h)

add_step_joins :
    (batches : List ExecutionBatch) (run : List Step) (s : Step)
    → s.parallel ≡ true
    → add_step (batches ++ (record { sequential = false; steps = run } ∷ [])) s
      ≡ batches ++ (record { sequential = false; steps = run ++ (s ∷ []) } ∷ [])
unfolding add_step
add_step_joins [] run s h = rw h
add_step_joins (b ∷ []) run s h = ap (◌∷◌ b) (add_step_joins [] run s h)
add_step_joins (b ∷ c ∷ batches) run s h = ap (◌∷◌ b) (add_step_joins (c ∷ batches) run s h)

-- A run of parallel steps goes into the last batch, when that is not sequential.
add_steps_joins :
    (batches : List ExecutionBatch) (run steps rest : List Step)
    → AllParallel steps
    → add_steps (batches ++ (record { sequential = false; steps = run } ∷ [])) (steps ++ rest)
      ≡ add_steps (batches ++ (record { sequential = false; steps = run ++ steps } ∷ [])) rest
unfolding add_steps
add_steps_joins batches run [] rest h = rw (append_nil run)
add_steps_joins batches run (s ∷ steps) rest h =
    ap (λ bs. add_steps bs (steps ++ rest)) (add_step_joins batches run s h.0)
    ∙ add_steps_joins batches (run ++ (s ∷ [])) steps rest h.1
    ∙ ap (λ l. add_steps (batches ++ (record { sequential = false; steps = l } ∷ [])) rest)
        (append_assoc run (s ∷ []) steps)

Follows : List ExecutionBatch → ExecutionBatch → Type 0
Follows batches b = (s : Step) → s.parallel ≡ not b.sequential → Apart batches s

add_steps-batch :
    (batches : List ExecutionBatch) (b : ExecutionBatch) (rest : List Step)
    → Shaped b
    → Follows batches b
    → add_steps batches (b.steps ++ rest) ≡ add_steps (batches ++ (b ∷ [])) rest
unfolding add_steps Follows
add_steps-batch batches _ rest (alone s e) f =
    ap (λ bs. add_steps bs rest) (add_step-Apart batches s (f s e))
    ∙ ap (λ b. add_steps (batches ++ (record { sequential = b; steps = s ∷ [] } ∷ [])) rest)
        (ap not e)
add_steps-batch batches _ rest (together s steps h) f =
    ap (λ bs. add_steps bs (steps ++ rest)) (add_step-Apart batches s (f s h.0))
    ∙ ap
        (λ b.
          add_steps (batches ++ (record { sequential = b; steps = s ∷ [] } ∷ [])) (steps ++ rest))
        (ap not h.0)
    ∙ add_steps_joins batches (s ∷ []) steps rest h.1

Apart-append :
    (batches : List ExecutionBatch) (b : ExecutionBatch) (s : Step)
    → (s.parallel && not b.sequential) ≡ false
    → Apart (batches ++ (b ∷ [])) s
Apart-append [] b s h = h
Apart-append (c ∷ []) b s h = h
Apart-append (c ∷ d ∷ batches) b s h = Apart-append (d ∷ batches) b s h

Follows-append :
    (batches : List ExecutionBatch) (b c : ExecutionBatch)
    → (b.sequential || c.sequential) ≡ true
    → Follows (batches ++ (b ∷ [])) c
unfolding Follows
Follows-append batches b c h s e =
    Apart-append batches b s
      (elim (Bool-cases b.sequential) [ inl t ↦ ground arith | inr t ↦ ground arith ])

regroup :
    (q : Bool) (done : List ExecutionBatch) (b : ExecutionBatch) (batches : List ExecutionBatch)
    → Linked q (b ∷ batches)
    → Follows done b
    → add_steps done (flatten (b ∷ batches)) ≡ done ++ (b ∷ batches)
unfolding add_steps
regroup q done b [] g f = add_steps-batch done b [] g.0 f
regroup q done b (c ∷ batches) g f =
    add_steps-batch done b (flatten (c ∷ batches)) g.0 f
    ∙ regroup b.sequential (done ++ (b ∷ [])) c batches g.2 (Follows-append done b c g.2.1)
    ∙ append_assoc done (b ∷ []) (c ∷ batches)

-- Batches that are grouped are what grouping makes of their steps: there is one way to cut them.
pub group_steps-flatten :
    (batches : List ExecutionBatch) → Grouped batches → group_steps (flatten batches) ≡ batches
unfolding group_steps add_steps Follows
group_steps-flatten [] g = refl
group_steps-flatten (b ∷ batches) g = regroup true [] b batches g (λ s e. tt)

AllParallel-append :
    (steps : List Step) (s : Step)
    → AllParallel steps
    → s.parallel ≡ true
    → AllParallel (steps ++ (s ∷ []))
AllParallel-append [] s h e = (e, tt)
AllParallel-append (t ∷ steps) s h e = (h.0, AllParallel-append steps s h.1 e)

Shaped-extend :
    (b : ExecutionBatch) (s : Step)
    → Shaped b
    → (s.parallel && not b.sequential) ≡ true
    → Shaped (record b { steps = b.steps ++ (s ∷ []) })
Shaped-extend _ s (alone t e) h = ground arith
Shaped-extend _ s (together t steps e) h =
    together t (steps ++ (s ∷ [])) (e.0, AllParallel-append steps s e.1 (ground arith))

batch_of-Shaped : (s : Step) → Shaped (batch_of s)
batch_of-Shaped s = elim (Bool-cases s.parallel) [
  | inl e ↦
      subst (λ b. Shaped (record { sequential = b; steps = s ∷ [] })) (sym (ap not e))
        (together s [] (e, tt))
  | inr e ↦
      subst (λ b. Shaped (record { sequential = b; steps = s ∷ [] })) (sym (ap not e)) (alone s e)
]

add_step-Linked :
    (q : Bool) (b : ExecutionBatch) (batches : List ExecutionBatch) (s : Step)
    → Linked q (b ∷ batches)
    → Linked q (add_step (b ∷ batches) s)
unfolding add_step
add_step-Linked q b [] s g =
    if_cases (λ bs. Linked q bs) (s.parallel && not b.sequential)
      (record b { steps = b.steps ++ (s ∷ []) } ∷ []) (b ∷ batch_of s ∷ [])
      (λ e. (Shaped-extend b s g.0 e, g.1, tt))
      (λ e. (
        g.0,
        g.1,
        (
          batch_of-Shaped s,
          elim (Bool-cases s.parallel) [ inl p ↦ ground arith | inr p ↦ ground arith ],
          tt,
        ),
      ))
add_step-Linked q b (c ∷ batches) s g = (g.0, g.1, add_step-Linked b.sequential c batches s g.2)

add_steps-Linked :
    (batches : List ExecutionBatch) (steps : List Step)
    → Grouped batches
    → Grouped (add_steps batches steps)
unfolding add_steps add_step
add_steps-Linked batches [] g = g
add_steps-Linked [] (s ∷ steps) g =
    add_steps-Linked (batch_of s ∷ []) steps (batch_of-Shaped s, refl, tt)
add_steps-Linked (b ∷ batches) (s ∷ steps) g =
    add_steps-Linked (add_step (b ∷ batches) s) steps (add_step-Linked true b batches s g)

-- Of the batches of any steps, a sequential one is a single step that is not parallel, another is one
-- or more parallel steps, and of two neighbours at least one is sequential.
group_steps-Grouped : (steps : List Step) → Grouped (group_steps steps)
unfolding group_steps
group_steps-Grouped steps = add_steps-Linked [] steps tt

-- The batches of a list of steps hold these steps in this order; a sequential batch is a single step
-- that is not parallel, another is one or more parallel steps, and of two neighbours one is sequential.
pub group_steps-partition :
    (steps : List Step) → (flatten (group_steps steps) ≡ steps) × Grouped (group_steps steps)
group_steps-partition steps = (flatten-group_steps steps, group_steps-Grouped steps)
