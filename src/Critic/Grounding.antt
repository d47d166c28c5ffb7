-- ===== src/Critic/Grounding.antt =====
-- internal/critic/critic.go: the working set that a stage acts on. An artifact of a proof packet
-- (`P`), a tool of the registry (`T`) and an entry that a critic left unexamined (`U`) are types of
-- libraries or of other parts that grounding only passes on; reading the store, the contents of the
-- units and the packet, and the scan for hidden characters, are the parameter `Loads`.
pub mod Laws
use agentic_dev_harness.Shared.{
  ℕ, Bool, true, false, not, ◌&&◌, ◌||◌, Option, none, some, List, [], ◌∷◌, String, ◌==◌,
  if◌then◌else◌, is_empty, join, concat, lookup, insert,
}
use agentic_dev_harness.Adh.Error.{Result, ok, err, ◌>>=◌, wrap}
use agentic_dev_harness.Adh.Stage.{Stage, critic}
use agentic_dev_harness.Adh.Arc.{Arc}
use agentic_dev_harness.Context.Freshness.{ContextUnit}
use agentic_dev_harness.Context.Route.{route}

pub record Withheld : Type 0 where
  pub id : String
  pub reason : String

pub record Inputs (U T : Type 0) : Type 0 where
  pub acceptance_bar : String
  pub diff : String
  pub tools : List T
  pub coverage : List String
  pub noisy : List String
  pub denied : List String
  pub prior_gaps : List U

pub record Grounding (U T P : Type 0) : Type 0 where
  pub paths : List String
  pub diff : String
  pub acceptance_bar : String
  pub proof : List P
  pub context : List ContextUnit
  pub tools : List T
  pub coverage : List String
  pub noisy : List String
  pub denied : List String
  pub prior_gaps : List U
  pub withheld : List Withheld

-- What `loadInputs` reads. `hidden` gives, of a content, one text for each class of hidden
-- characters in it; `content` is none where the text cannot be read.
pub record Loads (P : Type 0) : Type 0 where
  pub units : Result (List ContextUnit)
  pub content : ContextUnit → Option String
  pub hidden : String → List String
  pub packet : String → Result (List P)

-- `DefaultWorkingSet`
abbrev pub max_context_units : ℕ
max_context_units = 8

abbrev artifacts : {P : Type 0} → Option (List P) → List P
artifacts none = []
artifacts (some pkt) = pkt

module _ {U T P : Type 0} where
  -- `Ground`
  unfoldable pub ground_arc :
      Arc U → List ContextUnit → Option (List P) → Inputs U T → Grounding U T P
  unfolding route
  ground_arc arc units pkt in_ = record {
    paths = arc.paths;
    diff = in_.diff;
    acceptance_bar = in_.acceptance_bar;
    proof = artifacts pkt;
    context = route units arc.labels arc.paths max_context_units;
    tools = in_.tools;
    coverage = in_.coverage;
    noisy = in_.noisy;
    denied = in_.denied;
    prior_gaps = in_.prior_gaps;
    withheld = [];
  }

  -- `HasGrounding`
  unfoldable pub has_grounding : Grounding U T P → Bool
  has_grounding g = not (is_empty g.proof) || not (is_empty g.context)

-- The units kept and the units withheld.
pub record Partition : Type 0 where
  pub kept : List ContextUnit
  pub withheld : List Withheld

-- A unit with no content reads as the empty text.
abbrev pub or_empty : Option String → String
or_empty none = ""
or_empty (some s) = s

abbrev hidden_reason : List String → String
hidden_reason parts = concat ("content carries hidden codepoints: " ∷ join ", " parts ∷ [])

abbrev pub sort_out : ContextUnit → List String → Partition → Partition
sort_out u [] later = record later { kept = u ∷ later.kept }
sort_out u (part ∷ parts) later = record later {
  withheld = record { id = u.id; reason = hidden_reason (part ∷ parts) } ∷ later.withheld;
}

-- `WithholdHidden`
unfoldable pub withhold_hidden :
    (String → List String) → List ContextUnit → List (String × String) → Partition
unfolding lookup
withhold_hidden hidden [] contents = record { kept = []; withheld = [] }
withhold_hidden hidden (u ∷ units) contents =
    sort_out u (hidden (or_empty (lookup u.id contents))) (withhold_hidden hidden units contents)

-- The loop that fills `contents`.
unfoldable pub read_contents :
    (ContextUnit → Option String)
    → List ContextUnit
    → List (String × String)
    → List (String × String)
unfolding insert
read_contents content [] contents = contents
read_contents content (u ∷ units) contents =
    read_contents content units
      (elim (content u) [ none ↦ contents | some body ↦ insert u.id body contents ])

module _ {P : Type 0} (loads : Loads P) where
  abbrev pub wrapped : {A : Type 0} → Result A → Result A
  wrapped (ok a) = ok a
  wrapped (err e) = err (wrap "critic.loadInputs" e)

  abbrev pub read_packet : String → Result (Option (List P))
  read_packet proof =
      if proof == "" then ok none else (wrapped (loads.packet proof) >>= λ pkt. ok (some pkt))

  -- The units that a stage may read, and those withheld from it.
  abbrev pub partition : List ContextUnit → Partition
  partition units = withhold_hidden loads.hidden units (read_contents loads.content units [])

  -- `loadInputs`
  unfoldable pub load_inputs : {U : Type 0} → Arc U → Result (Partition × Option (List P))
  unfolding withhold_hidden read_contents
  load_inputs arc =
      wrapped loads.units >>= λ units. (read_packet arc.proof >>= λ pkt. ok (partition units, pkt))

abbrev pub at_critic : Stage → Bool
at_critic critic = true
at_critic _ = false

module _ {U T P : Type 0} (loads : Loads P) where
  -- What `ForStage` makes of the inputs it loaded.
  abbrev pub grounded : Arc U → Inputs U T → Partition × Option (List P) → Grounding U T P × Bool
  grounded arc in_ (parts, pkt) =
      let g : Grounding U T P = record (ground_arc arc parts.kept pkt in_) {
        withheld = parts.withheld;
      } in
      let declared : Bool = not (is_empty arc.labels) || not (is_empty arc.paths) in
      let gap : Bool =
        at_critic arc.stage && (declared && (not (is_empty parts.kept) && not (has_grounding g))) in
      (g, gap)

  -- `ForStage`
  unfoldable pub for_stage : Arc U → Inputs U T → Result (Grounding U T P × Bool)
  unfolding load_inputs ground_arc has_grounding
  for_stage arc in_ = load_inputs loads arc >>= λ loaded. ok (grounded arc in_ loaded)
