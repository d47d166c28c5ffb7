-- ===== src/Commands/Relayed/Laws/Saves.antt =====
-- A save by `run --relay`, and the ends of a relayed drive.
use agentic_dev_harness.Shared.{
  ◌≡◌, refl, ap, ◌∙◌, ◌⊎◌, inl, inr, Bool, true, false, Option, none, some, List, String,
  if◌then◌else◌, lookup, insert, lookup-insert, eq_iff,
}
use agentic_dev_harness.Adh.Error.{Error, Result, ok, err, context}
use agentic_dev_harness.Adh.Stage.{Stage, ops, same_stage, stage_text, blocked}
use agentic_dev_harness.Adh.Arc.{Arc, Pending}
use agentic_dev_harness.Store.{Store, path, save}
use agentic_dev_harness.Store.Laws.{save-insert}
use agentic_dev_harness.Relay.{has_turn}
use agentic_dev_harness.Worktree.{touched}
use agentic_dev_harness.Commands.World.{Machine, Outcome, done, error, exit}
use agentic_dev_harness.Commands.Run.{is_open, report_done}
use agentic_dev_harness.Commands.Relayed.{Workspace, Part, stop, next, saved, stored}

module _ {U : Type 0} (machine : Machine) (name : String) (arc : Arc U) (w : Workspace U) where
  -- A save ends the command with an error and changes nothing, or puts the arc into its file.
  abbrev pub saved_store : Store U → Workspace U
  saved_store store = record w { world = record w.world { store = store } }

  pub saved_cases :
      ((e : Error) × (saved machine name arc w ≡ stop (error e) w))
      ⊎ (saved machine name arc w ≡ next arc (saved_store (insert (path arc.id) arc w.world.store)))
  saved_cases = split (save machine.files arc w.world.store) refl
    where
      split :
          (r : Result (Store U))
          → save machine.files arc w.world.store ≡ r
          → ((e : Error) × (stored machine name arc w r ≡ stop (error e) w))
            ⊎ (stored machine name arc w r
                ≡ next arc (saved_store (insert (path arc.id) arc w.world.store)))
      split (err e) h = inl (context name e, refl)
      split (ok store) h =
          inr (
            ap (λ s. next arc (saved_store s))
              (save-insert machine.files arc w.world.store store h))

-- How an arc rests when a drive ends with the outcome: it is not open, with what its status reports;
-- it is blocked at the ship gate; it is open and its stage's turn is; or it is open without one, in a
-- routing gap, which is exit code 12.
pub data Resting {U : Type 0} (arc : Arc U) : Outcome → Type 0 where
  is_over : is_open arc.status ≡ false → Resting arc (report_done arc)
  at_gate : arc.stage ≡ ops → arc.status ≡ blocked → Resting arc done
  turn_open :
      is_open arc.status ≡ true
      → (p : Pending) → arc.pending ≡ some p
      → same_stage p.stage arc.stage ≡ true
      → Resting arc done
  finds_gap :
      is_open arc.status ≡ true → has_turn arc.pending arc.stage ≡ false → Resting arc (exit 12)

-- The ends of a relayed drive of the arc of an id: an error, or an arc of this id that is stored in
-- the file of its id and rests.
pub data Ends {U : Type 0} (id : String) (w : Workspace U) : Outcome → Type 0 where
  fails : (e : Error) → Ends id w (error e)
  rests :
      {o : Outcome} (arc : Arc U)
      → arc.id ≡ id
      → lookup (path arc.id) w.world.store ≡ some arc
      → Resting arc o
      → Ends id w o

-- Two arcs at the same point of the same turn.
pub record SameTurn {U : Type 0} (a b : Arc U) : Type 0 where
  pub stage_ : a.stage ≡ b.stage
  pub pending_ : a.pending ≡ b.pending
  pub status_ : a.status ≡ b.status
  pub reworks_ : a.reworks ≡ b.reworks
  pub id_ : a.id ≡ b.id

pub barred_same :
    {U : Type 0} (is_plan : Bool) (arc : Arc U) (bar_ : String)
    → SameTurn (if is_plan then record arc { bar = bar_ } else arc) arc
barred_same true arc bar_ = record {
  stage_ = refl;
  pending_ = refl;
  status_ = refl;
  reworks_ = refl;
  id_ = refl;
}
barred_same false arc bar_ = record {
  stage_ = refl;
  pending_ = refl;
  status_ = refl;
  reworks_ = refl;
  id_ = refl;
}

pub touched_same :
    {U : Type 0} (was_execution : Bool) (paths : Option (List String)) (arc arc' : Arc U)
    → SameTurn arc arc'
    → SameTurn (if was_execution then touched paths arc else arc) arc'
touched_same true none arc arc' s = s
touched_same true (some ps) arc arc' s = record {
  stage_ = s.stage_;
  pending_ = s.pending_;
  status_ = s.status_;
  reworks_ = s.reworks_;
  id_ = s.id_;
}
touched_same false paths arc arc' s = s

-- A command's end, as a pair.
abbrev pub Ended : {U : Type 0} → String → Outcome × Workspace U → Type 0
Ended id (o, w) = Ends id w o

pub same_stage_refl : (s : Stage) → same_stage s s ≡ true
unfolding same_stage
same_stage_refl s = (eq_iff (stage_text s) (stage_text s)).1 refl

pub lookup-inserted :
    {A : Type 0} (key : String) (a : A) (dir : List (String × A))
    → lookup key (insert key a dir) ≡ some a
lookup-inserted key a dir =
    let same = (eq_iff key key).1 refl in lookup-insert key key a dir ∙ rw same refl

-- A part of the command that ends it, well.
abbrev pub Stops : {U : Type 0} → String → Part U → Type 0
Stops {U = U} id part = (o : Outcome) × (w' : Workspace U) × (part ≡ stop o w') × Ends id w' o
