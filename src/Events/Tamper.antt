-- ===== src/Events/Tamper.antt =====
-- What the head of a verified chain of db/chain_verification.py fixes.
use recursive_self_improveme.Common.{
  ℕ, suc, String, ◌≡◌, refl, sym, ap, ◌∙◌, ◌≢◌, ◌⊎◌, inl, inr, List, [], ◌∷◌, ◌++◌, arith, ◌==◌,
  ==_iff, Bool-cases, length, length-append,
}
use recursive_self_improveme.Common.Json.{Bytes, codes}
use recursive_self_improveme.Events.{
  EventEnvelope, Event, genesis_hash, tenant_rows, compute_event_hash, verify_chain,
}
use recursive_self_improveme.Events.Links.{Chained, verify_chain_iff}

head_eq : (x y : ℕ) (xs ys : List ℕ) → x ∷ xs ≡ y ∷ ys → (x ≡ y) × (xs ≡ ys)
head_eq x y xs ys h = ground arith

same_or_other : (xs ys : List ℕ) → (xs ≡ ys) ⊎ (xs ≢ ys)
same_or_other [] [] = inl refl
same_or_other [] (y ∷ ys) = inr (λ e. cc)
same_or_other (x ∷ xs) [] = inr (λ e. cc)
same_or_other (x ∷ xs) (y ∷ ys) = elim (Bool-cases (x == y)) [
  | inr differ ↦ inr (λ e. ground (arith, head_eq x y xs ys e))
  | inl equal ↦ elim (same_or_other xs ys) [
    | inl e ↦ inl (cc ((==_iff x y).0 equal, e))
    | inr ne ↦ inr (λ e. ne (head_eq x y xs ys e).1)
  ]
]

-- Two texts with ends of the same length are equal only part by part.
split_eq :
    (xs ys us vs : List ℕ) → length us ≡ length vs → xs ++ us ≡ ys ++ vs → (xs ≡ ys) × (us ≡ vs)
split_eq [] [] us vs l h = (refl, h)
split_eq [] (y ∷ ys) us vs l h = absurd (omega (arith, l, ap length h, length-append ys vs))
split_eq (x ∷ xs) [] us vs l h = absurd (omega (arith, l, ap length h, length-append xs us))
split_eq (x ∷ xs) (y ∷ ys) us vs l h =
    let (e, rest) = head_eq x y (xs ++ us) (ys ++ vs) h in
    let (e', u) = split_eq xs ys us vs l rest in (cc (e, e'), u)

-- The hash of the last row, or the given one.
abbrev pub head_hash : String → List Event → String
head_hash prev [] = prev
head_hash prev (r ∷ rs) = head_hash r.event_hash rs

module _ (canonical_bytes : EventEnvelope → Bytes) (sha256_hex : Bytes → String) where
  -- What is hashed for a row.
  abbrev pub hashed : Event → Bytes
  hashed r = canonical_bytes r.envelope ++ codes r.prev_hash

  -- At some position the two rows were hashed from different bytes and have the same hash.
  abbrev pub Collides : List Event → List Event → Type 0
  Collides [] ss = ⊥
  Collides (r ∷ rs) [] = ⊥
  Collides (r ∷ rs) (s ∷ ss) =
      ((hashed r ≢ hashed s) × (codes r.event_hash ≡ codes s.event_hash)) ⊎ Collides rs ss

  -- Row by row, the envelopes have the same canonical bytes.
  abbrev pub SameEvents : List Event → List Event → Type 0
  SameEvents [] [] = Unit {0}
  SameEvents [] (s ∷ ss) = ⊥
  SameEvents (r ∷ rs) [] = ⊥
  SameEvents (r ∷ rs) (s ∷ ss) =
      (canonical_bytes r.envelope ≡ canonical_bytes s.envelope) × SameEvents rs ss

  module _ (hex_length : (b : Bytes) → length (codes (sha256_hex b)) ≡ 64) where
    from_head :
        (p q : String) (n m : ℕ) (rs ss : List Event)
        → length (codes p) ≡ length (codes q)
        → Chained canonical_bytes sha256_hex p n rs
        → Chained canonical_bytes sha256_hex q m ss
        → length rs ≡ length ss
        → codes (head_hash p rs) ≡ codes (head_hash q ss)
        → Collides rs ss ⊎ ((codes p ≡ codes q) × SameEvents rs ss)
    unfolding compute_event_hash
    from_head p q n m [] [] l h k e heads = inr (heads, tt)
    from_head p q n m [] (s ∷ ss) l h k e heads = absurd (omega (arith, e))
    from_head p q n m (r ∷ rs) [] l h k e heads = absurd (omega (arith, e))
    from_head p q n m (r ∷ rs) (s ∷ ss) l (_, pr, hr, later) (_, ps, hs, later') e heads =
        let lr = ap (λ x. length (codes x)) hr ∙ hex_length _ in
        let ls = ap (λ x. length (codes x)) hs ∙ hex_length _ in
        elim (from_head r.event_hash s.event_hash (suc n) (suc m) rs ss (lr ∙ sym ls) later later'
          (omega (arith, e)) heads) [
            | inl collision ↦ inl (inr collision)
            | inr (same, rest) ↦
                elim (same_or_other (canonical_bytes r.envelope ++ codes p)
                  (canonical_bytes s.envelope ++ codes q)) [
                    | inr differ ↦ inl (inl (rw (pr, ps) differ, same))
                    | inl equal ↦
                        let (bytes, ends) =
                          split_eq (canonical_bytes r.envelope) (canonical_bytes s.envelope)
                            (codes p) (codes q) l equal in
                        inr (ends, (bytes, rest))
                  ]
          ]

    -- With digests of 64 characters: if a tenant's rows in two tables both verify without a
    -- violation, are equally many and end in the same hash, then they hold the same envelopes (by
    -- canonical bytes) in the same order, or at some position the two rows were hashed from different
    -- bytes to the same hash.
    pub same_head-SameEvents :
        (table table' : List Event) (tenant : String)
        → (verify_chain canonical_bytes sha256_hex table tenant).violations ≡ []
        → (verify_chain canonical_bytes sha256_hex table' tenant).violations ≡ []
        → (verify_chain canonical_bytes sha256_hex table tenant).event_count
          ≡ (verify_chain canonical_bytes sha256_hex table' tenant).event_count
        → head_hash genesis_hash (tenant_rows tenant table)
          ≡ head_hash genesis_hash (tenant_rows tenant table')
        → Collides (tenant_rows tenant table) (tenant_rows tenant table')
          ⊎ SameEvents (tenant_rows tenant table) (tenant_rows tenant table')
    unfolding verify_chain
    same_head-SameEvents table table' tenant v v' count heads =
        elim (from_head genesis_hash genesis_hash 1 1 (tenant_rows tenant table)
          (tenant_rows tenant table') refl
          ((verify_chain_iff canonical_bytes sha256_hex table tenant).0 v)
          ((verify_chain_iff canonical_bytes sha256_hex table' tenant).0 v') count
          (ap codes heads)) [ inl collision ↦ inl collision | inr (_, same) ↦ inr same ]
