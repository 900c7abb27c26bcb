-- ===== src/Backend/Changes/Overlap.antt =====
-- Two approvals of one change request that overlap: `approve` waits for the body of its request
-- between its test and its edits, and another approval may be served then.
use flag_it.Common.{ℕ, some, List, ◌≡◌, length}
use flag_it.Flags.{Clause, FlagInstruction, FlagConfig}
use flag_it.Backend.Store.{Store}

module _ {V : Type 0} where
  -- The instruction adds a rule.
  abbrev pub IsAdding : FlagInstruction V → Type 0
  IsAdding ins =
      (ins.kind ≡ "addRule") × ((clauses : List (Clause V)) × (ins.clauses ≡ some clauses))

  abbrev pub count_rules : FlagConfig V → ℕ
  count_rules c = length c.rules
