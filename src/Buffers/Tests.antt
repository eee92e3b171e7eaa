-- ===== src/Buffers/Tests.antt =====
-- Two callers that build the pool of one size at the same time.
use go_grpcbridge.Base.{ℕ, ◌≡◌, refl, true, some, [], ◌∷◌, pos, get_elem?}
use go_grpcbridge.Buffers.{
  Pools, no_pools, start_build, finish_build, starts, finishes, Reach, unused, after_step,
  is_cacheable_web_socket_write_buffer_size,
}
use go_grpcbridge.Buffers.Laws.{returned-shared}

abbrev both_started : Pools
both_started = start_build (pos 0) (start_build (pos 4096) no_pools)

abbrev second_stored : Pools
second_stored = finish_build [] 4096 1 ((4096, 0) ∷ []) both_started

abbrev both_returned : Pools
both_returned = finish_build [] 4096 0 [] second_stored

both_returned-Reach : Reach both_returned
unfolding start_build finish_build is_cacheable_web_socket_write_buffer_size no_pools
both_returned-Reach =
    after_step
      (after_step (after_step (after_step unused (starts (pos 4096))) (starts (pos 0)))
        (finishes [] ((4096, 0) ∷ []) 4096 1 refl))
      (finishes [] [] 4096 0 refl)

first : get_elem? both_returned.returned 0 ≡ some (4096, 1)
unfolding start_build finish_build is_cacheable_web_socket_write_buffer_size no_pools
first = refl

second : get_elem? both_returned.returned 1 ≡ some (4096, 1)
unfolding start_build finish_build is_cacheable_web_socket_write_buffer_size no_pools
second = refl

cacheable : is_cacheable_web_socket_write_buffer_size 4096 ≡ true
unfolding is_cacheable_web_socket_write_buffer_size
cacheable = refl

returned-shared_example : ◌≡◌ {A = ℕ} 1 1
returned-shared_example =
    returned-shared both_returned 0 1 4096 1 1 both_returned-Reach first second cacheable
