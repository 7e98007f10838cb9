-- ===== src/Release/Fleet/Namespaces.antt =====
-- The memory of release/fleet.py: what the sessions of each arm can change.
use recursive_self_improveme.Common.{
  String, ◌≡◌, refl, inl, inr, false, some, List, ◌∷◌, str_eq, str_eq_iff, Bool-cases, ok,
}
use recursive_self_improveme.Common.Json.{Json}
use recursive_self_improveme.Release.Fleet.{
  candidate, Session, Fleet, find_session, required, require_session, arm_namespace, write_found,
  write_state, find_memory, read_state,
}

find-other :
    (namespace other key k : String) (value : Json) (memory : List (String × String × Json))
    → str_eq namespace other ≡ false
    → find_memory other key ((namespace, k, value) ∷ memory) ≡ find_memory other key memory
unfolding find_memory
find-other namespace other key k value memory h = rw h refl

write_found-reads :
    (f : Fleet) (s : Session) (id k : String) (value : Json) (namespace other key : String)
    → str_eq (arm_namespace s.arm) other ≡ false
    → read_state key other (write_found (ok s) id k value namespace f).1 ≡ read_state key other f
unfolding write_found read_state
write_found-reads f s id k value namespace other key h =
    elim (Bool-cases (str_eq namespace (arm_namespace s.arm))) [
      | inl e ↦ rw e (
          find-other namespace other key k value f.memory
            (cc (h, (str_eq_iff namespace (arm_namespace s.arm)).0 e)))
      | inr e ↦ rw e refl
    ]

-- Whatever a session of the candidate arm writes, under whatever key and into whatever namespace,
-- every read in the incumbent's namespace gives what it gave before.
pub candidate_writes_stay_apart :
    (f : Fleet) (id k namespace key : String) (value : Json) (s : Session)
    → find_session id f.sessions ≡ some s
    → s.arm ≡ candidate
    → read_state key "incumbent" (write_state id k value namespace f).1
      ≡ read_state key "incumbent" f
unfolding write_state require_session required arm_namespace
candidate_writes_stay_apart f id k namespace key value s h arm =
    rw h (write_found-reads f s id k value namespace "incumbent" key (simp arm))

find-written :
    (namespace key : String) (value : Json) (memory : List (String × String × Json))
    → find_memory namespace key ((namespace, key, value) ∷ memory) ≡ some value
unfolding find_memory
find-written namespace key value memory =
    rw ((str_eq_iff namespace namespace).1 refl, (str_eq_iff key key).1 refl) refl

-- A write by a known session into its own arm's namespace returns, and the key then reads as the
-- written value in that namespace.
pub write-read :
    (f : Fleet) (id key : String) (value : Json) (s : Session)
    → find_session id f.sessions ≡ some s
    → (let call = write_state id key value (arm_namespace s.arm) f in
        (call.0 ≡ ok tt) × (read_state key (arm_namespace s.arm) call.1 ≡ some value))
unfolding write_state require_session required write_found read_state
write-read f id key value s h =
    rw (h, (str_eq_iff (arm_namespace s.arm) (arm_namespace s.arm)).1 refl)
      (refl, find-written (arm_namespace s.arm) key value f.memory)
