-- ===== src/Dashboard/Coherence/Memory.antt =====
-- A cache that keeps the promises of `IsLawful`: a function from keys to entries.
use flag_it.Common.{refl, Option, none, if◌then◌else◌}
use flag_it.Dashboard.Hooks.Keys.{Key}
use flag_it.Dashboard.Coherence.Client.{
  QueryClient, IsLawful, Entry, invalidated, fresh, is_prefix, is_same,
}

abbrev pub memory : {N : Type 0} → QueryClient N
memory {N} = record {
  State = Key → Option (Entry N);
  entry = λ s k. s k;
  invalidate_queries = λ s k j. if is_prefix k j then invalidated (s j) else s j;
  set_query_data = λ s k v j. if is_same k j then fresh v else s j;
  remove_all = λ s j. none;
}

pub memory-IsLawful : {N : Type 0} → IsLawful (memory {N = N})
memory-IsLawful = record {
  entry-invalidate_queries = λ s k j. refl;
  entry-set_query_data = λ s k j v. refl;
  entry-remove_all = λ s j. refl;
}
