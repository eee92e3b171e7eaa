-- ===== src/Buffers/Laws.antt =====
-- Callers share the pool of a size.
use go_grpcbridge.Base.{
  ℕ, ℤ, zero, suc, ◌+◌, ◌≡◌, ◌++◌, refl, Bool, true, false, Option, none, some, List, [], ◌∷◌,
  arith, if◌then◌else◌, All, get_elem?, ℤ,
}
use go_grpcbridge.Buffers.{
  is_cacheable_web_socket_write_buffer_size, pool_size, Pools, no_pools, load, return_pool,
  start_build, load_or_store, finish_build, Step, starts, finishes, Reach, unused, after_step,
  Stored, get_buffer, reverse_proxy_buffer_size,
}

-- A pool that was returned for a size that is cached is the one in the cache.
abbrev IsShared : List (ℕ × ℕ) → ℕ × ℕ → Type 0
IsShared cache (size, pool) =
    is_cacheable_web_socket_write_buffer_size size ≡ true → load size cache ≡ some pool

-- Storing under a size that is missing keeps what was shared.
IsShared-store :
    (size pool : ℕ) (cache returned : List (ℕ × ℕ))
    → load size cache ≡ none
    → All (IsShared cache) returned
    → All (IsShared ((size, pool) ∷ cache)) returned
unfolding load
IsShared-store size pool cache [] missing h = tt
IsShared-store size pool cache ((n, p) ∷ returned) missing h =
    (λ c. ground (arith, missing, h.0 c), IsShared-store size pool cache returned missing h.1)

record Inv (s : Pools) : Type 0 where
  shared : All (IsShared s.cached) s.returned

-- What start_build does, by what it finds.
started-Inv :
    (size : ℕ) (cacheable : Bool) (found : Option ℕ) (s : Pools)
    → is_cacheable_web_socket_write_buffer_size size ≡ cacheable
    → load size s.cached ≡ found
    → Inv s
    → Inv (
        if cacheable
        then elim found [
          | some pool ↦ return_pool size pool s
          | none ↦ record s {
            allocated = s.allocated + 1;
            storing = (size, s.allocated) ∷ s.storing;
          }
        ]
        else return_pool size s.allocated (record s { allocated = s.allocated + 1 }))
unfolding return_pool
started-Inv size true (some pool) s c f i = record { shared = (λ _. f, i.shared) }
started-Inv size true none s c f i = record { shared = i.shared }
started-Inv size false found s c f i = record {
  shared = (λ yes. absurd (ground (arith, yes, c)), i.shared);
}

start_build-Inv : (asked : ℤ) (s : Pools) → Inv s → Inv (start_build asked s)
unfolding start_build
start_build-Inv asked s i = started-Inv (pool_size asked) _ _ s refl refl i

stored-Inv :
    (size pool : ℕ) (found : Option ℕ) (s : Pools)
    → load size s.cached ≡ found
    → Inv s
    → Inv (elim found [
      | some stored ↦ return_pool size stored s
      | none ↦ return_pool size pool (record s { cached = (size, pool) ∷ s.cached })
    ])
unfolding return_pool load
stored-Inv size pool (some stored) s f i = record { shared = (λ _. f, i.shared) }
stored-Inv size pool none s f i = record {
  shared = (λ _. ground arith, IsShared-store size pool s.cached s.returned f i.shared);
}

load_or_store-Inv : (size pool : ℕ) (s : Pools) → Inv s → Inv (load_or_store size pool s)
unfolding load_or_store
load_or_store-Inv size pool s i = stored-Inv size pool _ s refl i

Step-Inv : (s s' : Pools) → Step s s' → Inv s → Inv s'
unfolding finish_build
Step-Inv s s' (starts asked) i = start_build-Inv asked s i
Step-Inv s s' (finishes before after size pool e) i =
    load_or_store-Inv size pool (record s { storing = before ++ after })
      (record { shared = i.shared })

Reach-Inv : (s : Pools) → Reach s → Inv s
unfolding no_pools
Reach-Inv s unused = record { shared = tt }
Reach-Inv s (after_step {s = before} r step) = Step-Inv before s step (Reach-Inv before r)

shared_at :
    (cache returned : List (ℕ × ℕ)) (i size pool : ℕ)
    → All (IsShared cache) returned
    → get_elem? returned i ≡ some (size, pool)
    → is_cacheable_web_socket_write_buffer_size size ≡ true
    → load size cache ≡ some pool
shared_at cache [] i size pool h e c = absurd (ground (arith, e))
shared_at cache ((n, p) ∷ returned) zero size pool h e c =
    ground (arith, e, h.0 (ground (arith, e, c)))
shared_at cache (x ∷ returned) (suc i) size pool h e c =
    shared_at cache returned i size pool h.1 e c

-- However the callers interleave between Load and LoadOrStore, all those that asked for one
-- cacheable size are given the same pool.
pub returned-shared :
    (s : Pools) (i j size pool pool' : ℕ)
    → Reach s
    → get_elem? s.returned i ≡ some (size, pool)
    → get_elem? s.returned j ≡ some (size, pool')
    → is_cacheable_web_socket_write_buffer_size size ≡ true
    → pool ≡ pool'
returned-shared s i j size pool pool' r at_i at_j c =
    let h = (Reach-Inv s r).shared in
    ground (
      arith,
      shared_at s.cached s.returned i size pool h at_i c,
      shared_at s.cached s.returned j size pool' h at_j c,
    )

-- A proxy buffer has one length, whatever the pool gives.
pub get_buffer-size : (stored : Option Stored) → get_buffer stored ≡ reverse_proxy_buffer_size
unfolding get_buffer
get_buffer-size stored = ground arith
