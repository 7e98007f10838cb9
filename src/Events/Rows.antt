-- ===== src/Events/Rows.antt =====
-- The rows of one tenant under appends to the table.
use recursive_self_improveme.Common.{
  ◌≤◌, String, ◌≡◌, refl, ap, ◌∙◌, inl, inr, true, false, List, [], ◌∷◌, ◌++◌, arith, str_eq, leb,
  Bool-cases, All,
}
use recursive_self_improveme.Events.{Event, of_tenant, insert_row, by_seq, tenant_rows}

insert_row-append :
    (r row : Event) (rs : List Event)
    → r.chain_seq ≤ row.chain_seq
    → insert_row r (rs ++ row ∷ []) ≡ insert_row r rs ++ row ∷ []
unfolding insert_row
insert_row-append r row [] h = rw le refl
  where
    le : leb r.chain_seq row.chain_seq ≡ true
    le = ground (arith, h)
insert_row-append r row (s ∷ rs) h = elim (Bool-cases (leb r.chain_seq s.chain_seq)) [
  | inl e ↦ rw e refl
  | inr e ↦ rw e (ap (λ x. s ∷ x) (insert_row-append r row rs h))
]

by_seq-append :
    (row : Event) (rs : List Event)
    → All (λ r. r.chain_seq ≤ row.chain_seq) rs
    → by_seq (rs ++ row ∷ []) ≡ by_seq rs ++ row ∷ []
unfolding by_seq insert_row
by_seq-append row [] h = refl
by_seq-append row (r ∷ rs) h =
    ap (insert_row r) (by_seq-append row rs h.1) ∙ insert_row-append r row (by_seq rs) h.0

insert_row-All :
    (P : Event → Type 0) (r : Event) (rs : List Event) → All P (insert_row r rs) → P r × All P rs
unfolding insert_row
insert_row-All P r [] h = h
insert_row-All P r (s ∷ rs) h = elim (Bool-cases (leb r.chain_seq s.chain_seq)) [
  | inl e ↦ rw e at h
  | inr e ↦
      let h' : All P (s ∷ insert_row r rs) = rw e at h in
      let (hr, hs) = insert_row-All P r rs h'.1 in (hr, (h'.0, hs))
]

by_seq-All : (P : Event → Type 0) (rs : List Event) → All P (by_seq rs) → All P rs
unfolding by_seq
by_seq-All P [] h = tt
by_seq-All P (r ∷ rs) h =
    let (hr, hs) = insert_row-All P r (by_seq rs) h in (hr, by_seq-All P rs hs)

of_tenant-same :
    (tenant : String) (row : Event) (table : List Event)
    → str_eq row.envelope.tenant_id tenant ≡ true
    → of_tenant tenant (table ++ row ∷ []) ≡ of_tenant tenant table ++ row ∷ []
unfolding of_tenant
of_tenant-same tenant row [] h = rw h refl
of_tenant-same tenant row (r ∷ rs) h = elim (Bool-cases (str_eq r.envelope.tenant_id tenant)) [
  | inl e ↦ rw e (ap (λ x. r ∷ x) (of_tenant-same tenant row rs h))
  | inr e ↦ rw e (of_tenant-same tenant row rs h)
]

of_tenant-other :
    (tenant : String) (row : Event) (table : List Event)
    → str_eq row.envelope.tenant_id tenant ≡ false
    → of_tenant tenant (table ++ row ∷ []) ≡ of_tenant tenant table
unfolding of_tenant
of_tenant-other tenant row [] h = rw h refl
of_tenant-other tenant row (r ∷ rs) h = elim (Bool-cases (str_eq r.envelope.tenant_id tenant)) [
  | inl e ↦ rw e (ap (λ x. r ∷ x) (of_tenant-other tenant row rs h))
  | inr e ↦ rw e (of_tenant-other tenant row rs h)
]

-- A row of the tenant behind all of its rows comes last.
pub tenant_rows-same :
    (tenant : String) (row : Event) (table : List Event)
    → str_eq row.envelope.tenant_id tenant ≡ true
    → All (λ r. r.chain_seq ≤ row.chain_seq) (tenant_rows tenant table)
    → tenant_rows tenant (table ++ row ∷ []) ≡ tenant_rows tenant table ++ row ∷ []
unfolding tenant_rows
tenant_rows-same tenant row table h later =
    ap by_seq (of_tenant-same tenant row table h)
    ∙ by_seq-append row (of_tenant tenant table) (by_seq-All _ (of_tenant tenant table) later)

-- A row of another tenant is none of its rows.
pub tenant_rows-other :
    (tenant : String) (row : Event) (table : List Event)
    → str_eq row.envelope.tenant_id tenant ≡ false
    → tenant_rows tenant (table ++ row ∷ []) ≡ tenant_rows tenant table
unfolding tenant_rows
tenant_rows-other tenant row table h = ap by_seq (of_tenant-other tenant row table h)
