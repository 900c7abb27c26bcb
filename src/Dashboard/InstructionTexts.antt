-- ===== src/Dashboard/InstructionTexts.antt =====
-- The summaries of instructions, web/src/lib/instructions.ts. `decimal` is the text of a number in a
-- template.
use flag_it.Common.{ℕ, Option, none, some, String, List, [], ◌∷◌, map, str_eq, if◌then◌else◌}
use flag_it.Flags.{FlagInstruction}
use flag_it.Dashboard.Api.{◌<>◌}
use flag_it.Dashboard.Clauses.{join_commas}

abbrev pub join_semicolons : List String → String
join_semicolons [] = ""
join_semicolons (t ∷ []) = t
join_semicolons (t ∷ u ∷ ts) = t <> "; " <> join_semicolons (u ∷ ts)

abbrev pub or_none : Option (List String) → List String
or_none none = []
or_none (some values) = values

module _ (decimal : ℕ → String) where
  -- A number in a template, or the word `undefined`.
  abbrev pub number : Option ℕ → String
  number none = "undefined"
  number (some n) = decimal n

  module _ {V : Type 0} where
    abbrev pub instruction_text : FlagInstruction V → String
    instruction_text ins =
        let variation = "#" <> number ins.variation in
        let values = join_commas (or_none ins.values) in
        if str_eq ins.kind "turnFlagOn"
        then "Turn targeting on"
        else if str_eq ins.kind "turnFlagOff"
        then "Turn targeting off"
        else if str_eq ins.kind "updateOffVariation"
        then "Set off variation to " <> variation
        else if str_eq ins.kind "updateFallthroughVariation"
        then "Set default variation to " <> variation
        else if str_eq ins.kind "addTargets"
        then "Serve " <> variation <> " to " <> values
        else if str_eq ins.kind "removeTargets"
        then "Stop serving " <> variation <> " to " <> values
        else if str_eq ins.kind "addRule"
        then "Add a targeting rule serving " <> variation
        else if str_eq ins.kind "removeRule"
        then "Remove a targeting rule"
        else ins.kind

    unfoldable pub instructions_text : List (FlagInstruction V) → String
    instructions_text instructions = join_semicolons (map instruction_text instructions)
