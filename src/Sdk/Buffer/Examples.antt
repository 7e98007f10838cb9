-- ===== src/Sdk/Buffer/Examples.antt =====
-- A buffer of two events under three offers and a drain.
use recursive_self_improveme.Common.{ℕ, ◌≡◌, refl, false, List, [], ◌∷◌}
use recursive_self_improveme.Sdk.Buffer.{EventBuffer, new_buffer, offer, drain, counters}
use recursive_self_improveme.Sdk.Buffer.Accounting.{
  BufferCall, offering, draining, call_all, IsAccounted, unseen, call_all-accounts,
}

abbrev small : EventBuffer ℕ
small = record {
  max_events = 2;
  high_water = 2;
  items = [];
  accepted_count = 0;
  dropped_count = 0;
  woken = false;
}

abbrev calls : List (BufferCall ℕ)
calls = offering 1 ∷ offering 2 ∷ offering 3 ∷ draining ∷ offering 4 ∷ []

counts_of_calls :
    counters (call_all calls (small, unseen)).0 ≡ record { accepted = 3; dropped = 1; size = 1 }
unfolding counters call_all offer drain
counts_of_calls = refl

call_all-accounts_example :
    IsAccounted 2 (call_all calls (small, unseen)).0 (call_all calls (small, unseen)).1
unfolding new_buffer
call_all-accounts_example = call_all-accounts calls 2 9 small refl
