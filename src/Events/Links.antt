-- ===== src/Events/Links.antt =====
-- What it means that db/chain_verification.py finds no violation.
use recursive_self_improveme.Common.{
  ℕ, suc, ◌+◌, String, ◌≡◌, refl, sym, ap, ◌∙◌, subst, ◌↔◌, List, [], ◌∷◌, ◌++◌, arith, str_eq_iff,
  ==_iff,
}
use recursive_self_improveme.Common.Json.{Bytes}
use recursive_self_improveme.Events.{
  EventEnvelope, Event, genesis_hash, tenant_rows, compute_event_hash, check_row, check_rows,
  verify_chain,
}

module _ (canonical_bytes : EventEnvelope → Bytes) (sha256_hex : Bytes → String) where
  -- The rows continue the chain from a hash and a number.
  abbrev pub Chained : String → ℕ → List Event → Type 0
  Chained prev seq [] = Unit {0}
  Chained prev seq (r ∷ rs) =
      (r.chain_seq ≡ seq)
      × (r.prev_hash ≡ prev)
      × (r.event_hash ≡ compute_event_hash canonical_bytes sha256_hex r.envelope prev)
      × Chained r.event_hash (suc seq) rs

  nil_of_append : {A : Type 0} (xs ys : List A) → xs ++ ys ≡ [] → (xs ≡ []) × (ys ≡ [])
  nil_of_append [] ys h = (refl, h)
  nil_of_append (x ∷ xs) ys h = ground arith

  Facts : String → ℕ → Event → Type 0
  Facts prev seq r =
      (r.chain_seq ≡ seq)
      × (r.prev_hash ≡ prev)
      × (r.event_hash ≡ compute_event_hash canonical_bytes sha256_hex r.envelope r.prev_hash)

  check_row-Facts :
      (prev : String) (seq : ℕ) (r : Event)
      → (check_row canonical_bytes sha256_hex prev seq r ≡ []) ↔ Facts prev seq r
  unfolding check_row Facts
  check_row-Facts prev seq r = (
    λ h. ground (
      arith,
      str_eq_iff r.prev_hash prev,
      str_eq_iff (compute_event_hash canonical_bytes sha256_hex r.envelope r.prev_hash)
          r.event_hash,
    ),
    λ h.
        rw
          (
            (==_iff r.chain_seq seq).1 h.0,
            (str_eq_iff r.prev_hash prev).1 h.1,
            (str_eq_iff (compute_event_hash canonical_bytes sha256_hex r.envelope r.prev_hash)
                  r.event_hash).1
                (sym h.2),
          )
          refl,
  )

  check_rows→Chained :
      (prev : String) (seq : ℕ) (rs : List Event)
      → check_rows canonical_bytes sha256_hex prev seq rs ≡ []
      → Chained prev seq rs
  unfolding check_rows Facts
  check_rows→Chained prev seq [] h = tt
  check_rows→Chained prev seq (r ∷ rs) h =
      let (here, later) = nil_of_append _ _ h in
      let (a, b, c) = (check_row-Facts prev seq r).0 here in
      (
        a,
        b,
        c ∙ ap (compute_event_hash canonical_bytes sha256_hex r.envelope) b,
        subst (λ n. Chained r.event_hash n rs) (omega (arith, a))
            (check_rows→Chained r.event_hash (r.chain_seq + 1) rs later),
      )

  Chained→check_rows :
      (prev : String) (seq : ℕ) (rs : List Event)
      → Chained prev seq rs
      → check_rows canonical_bytes sha256_hex prev seq rs ≡ []
  unfolding check_rows Facts
  Chained→check_rows prev seq [] h = refl
  Chained→check_rows prev seq (r ∷ rs) (a, b, c, later) =
      let here =
        (check_row-Facts prev seq r).1
          (a, b, c ∙ ap (compute_event_hash canonical_bytes sha256_hex r.envelope) (sym b)) in
      rw here (
        Chained→check_rows r.event_hash (r.chain_seq + 1) rs
          (subst (λ n. Chained r.event_hash n rs) (omega (arith, a)) later))

  -- The verification of a tenant finds no violation exactly when its rows, by `chain_seq`, are
  -- numbered from 1 without a gap, each naming the hash of the row before it (the first, the genesis
  -- hash) and having the hash of its own envelope and that predecessor.
  pub verify_chain_iff :
      (table : List Event) (tenant : String)
      → ((verify_chain canonical_bytes sha256_hex table tenant).violations ≡ [])
        ↔ Chained genesis_hash 1 (tenant_rows tenant table)
  unfolding verify_chain
  verify_chain_iff table tenant = (
    check_rows→Chained genesis_hash 1 (tenant_rows tenant table),
    Chained→check_rows genesis_hash 1 (tenant_rows tenant table),
  )
