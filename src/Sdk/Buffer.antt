-- ===== src/Sdk/Buffer.antt =====
-- The bounded emit buffer: sdk/buffer.py. The lock makes each method one step.
pub mod Accounting
mod Examples
use recursive_self_improveme.Common.{
  ℕ, zero, suc, ◌+◌, ◌-◌, ◌*◌, ◌/◌, ◌%◌, ◌≤◌, ◌<◌, min, max, String, ◌≡◌, refl, sym, ap, ◌∙◌, subst,
  ◌≢◌, ◌↔◌, ◌⊎◌, inl, inr, Bool, true, false, ◌&&◌, ◌||◌, not, Option, none, some, List, [], ◌∷◌,
  ◌++◌, map, arith, str_eq, str_eq_iff, ltb, leb, ◌==◌, if◌then◌else◌, ltb→lt, lt→ltb, leb→le,
  ==_iff, Bool-cases, Option-cases, opt_eq, opt_eq→eq, opt_eq_refl, length, length-append,
  replicate, All, All-append, Outcome, ok, err, Outcome-cases,
}

pub record BufferCounters : Type 0 where
  pub accepted : ℕ
  pub dropped : ℕ
  pub size : ℕ

pub data BufferError : Type 0 where
  bad_max_events bad_high_water : BufferError

-- `woken` is whether the event `wake` is set.
pub record EventBuffer (A : Type 0) : Type 0 where
  pub max_events : ℕ
  pub high_water : ℕ
  pub items : List A
  pub accepted_count : ℕ
  pub dropped_count : ℕ
  pub woken : Bool

unfoldable pub new_buffer : {A : Type 0} → ℕ → ℕ → Outcome BufferError (EventBuffer A)
new_buffer max_events high_water =
    if ltb max_events 1
    then err bad_max_events
    else if ltb high_water 1
    then err bad_high_water
    else ok (record {
      max_events = max_events;
      high_water = min high_water max_events;
      items = [];
      accepted_count = 0;
      dropped_count = 0;
      woken = false;
    })

module _ {A : Type 0} where
  unfoldable pub offer : A → EventBuffer A → Bool × EventBuffer A
  offer event b =
      if leb b.max_events (length b.items)
      then (false, record b { dropped_count = b.dropped_count + 1 })
      else (
        true,
        record b {
          items = b.items ++ event ∷ [];
          accepted_count = b.accepted_count + 1;
          woken = b.woken || leb b.high_water (length (b.items ++ event ∷ []));
        },
      )

  unfoldable pub drain : EventBuffer A → List A × EventBuffer A
  drain b = (b.items, record b { items = [] })

  unfoldable pub counters : EventBuffer A → BufferCounters
  counters b = record {
    accepted = b.accepted_count;
    dropped = b.dropped_count;
    size = length b.items;
  }
