-- ===== src/Sdk/Buffer/Accounting.antt =====
-- No event of sdk/buffer.py is lost without being counted, overwritten or handed out twice.
use mathlib.Core.List.{append-nil, append_assoc}
use recursive_self_improveme.Common.{
  ℕ, ◌≤◌, ◌<◌, min, ◌≡◌, refl, sym, ap, ◌∙◌, subst, ◌⊎◌, inl, inr, Bool, true, false, ◌||◌, List,
  [], ◌∷◌, ◌++◌, arith, ltb, leb, Bool-cases, length, length-append, Outcome, ok, err,
}
use recursive_self_improveme.Sdk.Buffer.{BufferError, EventBuffer, new_buffer, offer, drain}

-- A call of a producer or of the flusher.
pub data BufferCall (A : Type 0) : Type 0 where
  offering : A → BufferCall A
  draining : BufferCall A

-- What the callers have seen: the events queued and dropped, and those drained, in order.
pub record Seen (A : Type 0) : Type 0 where
  pub queued : List A
  pub refused : List A
  pub handed_out : List A

below : (a b : ℕ) → leb a b ≡ false → b < a
below a b h = ground arith

one_below : (a b : ℕ) → ltb a 1 ≡ false → ltb b 1 ≡ false → 1 ≤ min a b
one_below a b h k = ground arith

waking : (woken : Bool) (mark size : ℕ) → (size < mark) ⊎ ((woken || leb mark size) ≡ true)
waking true mark size = inr refl
waking false mark size = elim (Bool-cases (leb mark size)) [
  | inl e ↦ inr e
  | inr e ↦ inl (below mark size e)
]

module _ {A : Type 0} where
  seen_offer : Bool → A → Seen A → Seen A
  seen_offer true event v = record v { queued = v.queued ++ event ∷ [] }
  seen_offer false event v = record v { refused = v.refused ++ event ∷ [] }

  unfoldable pub call : BufferCall A → EventBuffer A × Seen A → EventBuffer A × Seen A
  unfolding seen_offer
  call (offering event) (b, v) = ((offer event b).1, seen_offer (offer event b).0 event v)
  call draining (b, v) = ((drain b).1, record v { handed_out = v.handed_out ++ (drain b).0 })

  unfoldable pub call_all : List (BufferCall A) → EventBuffer A × Seen A → EventBuffer A × Seen A
  unfolding call
  call_all [] w = w
  call_all (c ∷ cs) w = call_all cs (call c w)

  -- The events handed out and then those in the buffer are the queued ones, in the order in which
  -- they were queued; the counters count the queued and the refused; the buffer is within its bound,
  -- and the flusher has been woken if it holds `high_water` events.
  pub record IsAccounted (bound : ℕ) (b : EventBuffer A) (v : Seen A) : Type 0 where
    pub same_bound : b.max_events ≡ bound
    pub in_order : v.handed_out ++ b.items ≡ v.queued
    pub counts_queued : b.accepted_count ≡ length v.queued
    pub counts_refused : b.dropped_count ≡ length v.refused
    pub bounded : length b.items ≤ b.max_events
    pub positive : 1 ≤ b.high_water
    pub wakes : (length b.items < b.high_water) ⊎ (b.woken ≡ true)

  offer-IsAccounted :
      (bound : ℕ) (event : A) (b : EventBuffer A) (v : Seen A)
      → IsAccounted bound b v
      → IsAccounted bound (call (offering event) (b, v)).0 (call (offering event) (b, v)).1
  unfolding call seen_offer offer
  offer-IsAccounted bound event b v h = elim (Bool-cases (leb b.max_events (length b.items))) [
    | inl full ↦ rw full (record {
      same_bound = h.same_bound;
      in_order = h.in_order;
      counts_queued = h.counts_queued;
      counts_refused = omega (arith, h.counts_refused, length-append v.refused (event ∷ []));
      bounded = h.bounded;
      positive = h.positive;
      wakes = h.wakes;
    })
    | inr room ↦ rw room (record {
      same_bound = h.same_bound;
      in_order =
          sym (append_assoc v.handed_out b.items (event ∷ []))
          ∙ ap (λ x. x ++ event ∷ []) h.in_order;
      counts_queued = omega (arith, h.counts_queued, length-append v.queued (event ∷ []));
      counts_refused = h.counts_refused;
      bounded =
          omega
            (arith, below b.max_events (length b.items) room, length-append b.items (event ∷ []));
      positive = h.positive;
      wakes = waking b.woken b.high_water (length (b.items ++ event ∷ []));
    })
  ]

  drain-IsAccounted :
      (bound : ℕ) (b : EventBuffer A) (v : Seen A)
      → IsAccounted bound b v
      → IsAccounted bound (call draining (b, v)).0 (call draining (b, v)).1
  unfolding call drain
  drain-IsAccounted bound b v h = record {
    same_bound = h.same_bound;
    in_order = append-nil (v.handed_out ++ b.items) ∙ h.in_order;
    counts_queued = h.counts_queued;
    counts_refused = h.counts_refused;
    bounded = omega arith;
    positive = h.positive;
    wakes = inl (omega (arith, h.positive));
  }

  call_all-IsAccounted :
      (bound : ℕ) (cs : List (BufferCall A)) (b : EventBuffer A) (v : Seen A)
      → IsAccounted bound b v
      → IsAccounted bound (call_all cs (b, v)).0 (call_all cs (b, v)).1
  unfolding call_all
  call_all-IsAccounted bound [] b v h = h
  call_all-IsAccounted bound (offering event ∷ cs) b v h =
      call_all-IsAccounted bound cs _ _ (offer-IsAccounted bound event b v h)
  call_all-IsAccounted bound (draining ∷ cs) b v h =
      call_all-IsAccounted bound cs _ _ (drain-IsAccounted bound b v h)

  abbrev pub unseen : Seen A
  unseen = record { queued = []; refused = []; handed_out = [] }

  err_is_no_buffer :
      {e : BufferError} {b : EventBuffer A}
      → ◌≡◌ {A = Outcome BufferError (EventBuffer A)} (err e) (ok b)
      → ⊥
  err_is_no_buffer h = ground arith

  same_buffer :
      {b c : EventBuffer A} → ◌≡◌ {A = Outcome BufferError (EventBuffer A)} (ok b) (ok c) → b ≡ c
  same_buffer h = ground arith

  new_buffer-IsAccounted :
      (max_events high_water : ℕ) (b : EventBuffer A)
      → new_buffer max_events high_water ≡ ok b
      → IsAccounted max_events b unseen
  unfolding new_buffer
  new_buffer-IsAccounted max_events high_water b h = elim (Bool-cases (ltb max_events 1)) [
    | inl e ↦ absurd (err_is_no_buffer (rw e at h))
    | inr e ↦ elim (Bool-cases (ltb high_water 1)) [
      | inl f ↦ absurd (err_is_no_buffer (rw (e, f) at h))
      | inr f ↦
          subst (λ x. IsAccounted max_events x unseen) (same_buffer (rw (e, f) at h))
            (record {
              same_bound = refl;
              in_order = refl;
              counts_queued = refl;
              counts_refused = refl;
              bounded = omega arith;
              positive = one_below high_water max_events f e;
              wakes = inl (one_below high_water max_events f e);
            })
    ]
  ]

  -- After any offers and drains, in any order, on a new buffer: what was handed out and then what the
  -- buffer holds are the events that were queued, in the order of the offers; the counters count the
  -- queued and the dropped events; the buffer holds at most `max_events`; and if it holds as many as
  -- the high-water mark, the flusher was woken.
  pub call_all-accounts :
      (cs : List (BufferCall A)) (max_events high_water : ℕ) (b : EventBuffer A)
      → new_buffer max_events high_water ≡ ok b
      → IsAccounted max_events (call_all cs (b, unseen)).0 (call_all cs (b, unseen)).1
  call_all-accounts cs max_events high_water b h =
      call_all-IsAccounted max_events cs b unseen (new_buffer-IsAccounted max_events high_water b h)
