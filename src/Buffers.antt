-- ===== src/Buffers.antt =====
-- The buffer pools: the write buffers of websockets (pkg/grpctunnel/server.go and pkg/bridge/bridge.go,
-- whose functions are the same), shared by their size, and the copy buffers of the reverse proxy
-- (pkg/bridge/bridge.go). A sync.Map call is one step; between Load and LoadOrStore other callers run.
pub mod Laws
pub mod Tests
use go_grpcbridge.Base.{
  ℕ, ◌+◌, ◌≡◌, ◌++◌, Bool, ◌||◌, Option, none, some, List, [], ◌∷◌, if◌then◌else◌, ◌==◌, ltb, ℤ,
  pos, ◌*◌,
}

-- isCacheableWebSocketWriteBufferSize.
unfoldable pub is_cacheable_web_socket_write_buffer_size : ℕ → Bool
is_cacheable_web_socket_write_buffer_size size =
    size == 4096 || size == 8 * 1024 || size == 16 * 1024 || size == 32 * 1024 || size == 64 * 1024

-- A size that is not positive is replaced by the default.
abbrev pub pool_size : ℤ → ℕ
pool_size (pos n) = if n == 0 then 4096 else n
pool_size (ℤ.negsuc n) = 4096

-- A pool is the number of its allocation; a caller stands between Load and LoadOrStore with its size
-- and the pool that it allocated. The pools that were returned are kept with the size asked for.
pub record Pools : Type 0 where
  pub cached : List (ℕ × ℕ)
  pub allocated : ℕ
  pub storing : List (ℕ × ℕ)
  pub returned : List (ℕ × ℕ)

pub no_pools : Pools
no_pools = record { cached = []; allocated = 0; storing = []; returned = [] }

-- sync.Map.Load.
unfoldable pub load : ℕ → List (ℕ × ℕ) → Option ℕ
load size [] = none
load size ((other, pool) ∷ cache) =
    let later = load size cache in if other == size then some pool else later

unfoldable pub return_pool : ℕ → ℕ → Pools → Pools
return_pool size pool s = record s { returned = (size, pool) ∷ s.returned }

-- buildWebSocketWriteBufferPool up to its return, or up to LoadOrStore.
unfoldable pub start_build : ℤ → Pools → Pools
unfolding return_pool load
start_build asked s =
    let size = pool_size asked in
    if is_cacheable_web_socket_write_buffer_size size
    then elim (load size s.cached) [
      | some pool ↦ return_pool size pool s
      | none ↦ record s { allocated = s.allocated + 1; storing = (size, s.allocated) ∷ s.storing }
    ]
    else return_pool size s.allocated (record s { allocated = s.allocated + 1 })

-- LoadOrStore, and the return: a pool that is stored already wins.
unfoldable pub load_or_store : ℕ → ℕ → Pools → Pools
unfolding return_pool load
load_or_store size pool s = elim (load size s.cached) [
  | some stored ↦ return_pool size stored s
  | none ↦ return_pool size pool (record s { cached = (size, pool) ∷ s.cached })
]

-- A caller, out of those that stand before LoadOrStore.
unfoldable pub finish_build : List (ℕ × ℕ) → ℕ → ℕ → List (ℕ × ℕ) → Pools → Pools
unfolding load_or_store
finish_build before size pool after s =
    load_or_store size pool (record s { storing = before ++ after })

pub data Step (s : Pools) : Pools → Type 0 where
  starts : (asked : ℤ) → Step s (start_build asked s)
  finishes :
      (before after : List (ℕ × ℕ)) (size pool : ℕ)
      → s.storing ≡ before ++ (size, pool) ∷ after
      → Step s (finish_build before size pool after s)

-- The pools that concurrent callers reach.
pub data Reach : Pools → Type 0 where
  unused : Reach no_pools
  after_step : {s s' : Pools} → Reach s → Step s s' → Reach s'

-- What a sync.Pool of the reverse proxy holds: arrays of the size, since only Put stores there, or a
-- slice with its capacity.
pub data Stored : Type 0 where
  sized_array : Stored
  slice : ℕ → Stored

abbrev pub reverse_proxy_buffer_size : ℕ
reverse_proxy_buffer_size = 32 * 1024

-- reverseProxyBufferPool.Get: the length of the buffer.
pub get_buffer : Option Stored → ℕ
get_buffer none = reverse_proxy_buffer_size
get_buffer (some sized_array) = reverse_proxy_buffer_size
get_buffer (some (slice capacity)) =
    if ltb capacity reverse_proxy_buffer_size
    then reverse_proxy_buffer_size
    else reverse_proxy_buffer_size

-- reverseProxyBufferPool.Put of a buffer with this capacity.
pub put_buffer : ℕ → List Stored → List Stored
put_buffer capacity pool =
    if ltb capacity reverse_proxy_buffer_size then pool else sized_array ∷ pool
