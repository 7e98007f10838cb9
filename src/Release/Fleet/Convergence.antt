-- ===== src/Release/Fleet/Convergence.antt =====
-- Convergence of the fleet of release/fleet.py after its caches are dropped.
use recursive_self_improveme.Common.{
  ℕ, suc, ◌+◌, ◌≤◌, ◌<◌, String, ◌≡◌, refl, ap, true, false, some, List, [], ◌∷◌, map, arith, leb,
  opt_eq_refl, length, All,
}
use recursive_self_improveme.Release.Fleet.{
  Worker, Fleet, drop_cache, invalidate_caches, is_due, tick_worker, tick, count_cached,
  converged_workers,
}

-- No worker needs longer than `bound` to resolve again.
Within : ℕ → List Worker → Type 0
Within bound ws = All (λ w. w.convergence_latency ≤ bound) ws

count-all :
    (digest : String) (start now bound : ℕ) (ws : List Worker)
    → Within bound ws
    → start + bound ≤ now
    → count_cached (some digest) (map (tick_worker (some digest) now) (map (drop_cache start) ws))
      ≡ length ws
unfolding Within count_cached tick_worker drop_cache is_due
count-all digest start now bound [] h le = refl
count-all digest start now bound (w ∷ ws) h le =
    rw (due, opt_eq_refl (some digest)) (ap suc (count-all digest start now bound ws h.1 le))
  where
    due : leb (start + w.convergence_latency) now ≡ true
    due = ground (arith, h.0)

count-none :
    (digest : String) (start now : ℕ) (ws : List Worker)
    → All (λ w. now < start + w.convergence_latency) ws
    → count_cached (some digest) (map (tick_worker (some digest) now) (map (drop_cache start) ws))
      ≡ 0
unfolding count_cached tick_worker drop_cache is_due
count-none digest start now [] h = refl
count-none digest start now (w ∷ ws) h = rw early (count-none digest start now ws h.1)
  where
    early : leb (start + w.convergence_latency) now ≡ false
    early = ground (arith, h.0)

-- When the caches are dropped at `start` and no worker's latency is above `bound`, then from
-- `start + bound` on every worker of the fleet counts as converged.
pub invalidate_caches-converges :
    (f : Fleet) (digest : String) (start now bound : ℕ)
    → All (λ w. w.convergence_latency ≤ bound) f.workers
    → start + bound ≤ now
    → (converged_workers now (invalidate_caches digest start f)).0 ≡ length f.workers
unfolding converged_workers invalidate_caches tick Within
invalidate_caches-converges f digest start now bound = count-all digest start now bound f.workers

-- As long as no worker's latency has passed since the caches were dropped, no worker counts as
-- converged.
invalidate_caches-stale :
    (f : Fleet) (digest : String) (start now : ℕ)
    → All (λ w. now < start + w.convergence_latency) f.workers
    → (converged_workers now (invalidate_caches digest start f)).0 ≡ 0
unfolding converged_workers invalidate_caches tick
invalidate_caches-stale f digest start now = count-none digest start now f.workers
