-- ===== src/SystemAllocator/Tests.antt =====
-- A system that takes each block from behind the last and moves every block that it reallocates.
use vsclib.Prelude.Errno.{success, failure, enomem, einval}
use vsclib.Prelude.{ℕ, ◌+◌, ◌≤◌, ◌<◌, true, false, pow2, ◌≡◌, ◌⊎◌, inr, refl, arith}
use vsclib.Memory.Allocation.{Flags, xcalloc}
use vsclib.SystemAllocator.Allocated.{extent, IsAllocated, malloc_-IsAllocated}
use vsclib.SystemAllocator.Bytes.{Memory, load_word, memmove, memmove_moved}
use vsclib.SystemAllocator.Default.{calloc, IsNew, calloc-IsNew}
use vsclib.SystemAllocator.Header.{State, System, mem2hdr, malloc_, size_, system_allocator}
use vsclib.SystemAllocator.Prepared.{IsGiven, headed, headed-IsBlock}
use vsclib.SystemAllocator.Moved.{IsMoved}
use vsclib.SystemAllocator.Reallocated.{malloc_-IsMoved}
use vsclib.SystemAllocator.Trailing.{ctz, ctz-pow2}

-- where the first and the second block stand
abbrev first_at : ℕ
first_at = 4112

abbrev second_at : ℕ
second_at = 8192

-- Each block stands 4080 behind the one before.
abbrev moving : System ℕ
moving = record {
  sys_realloc = λ old n state. (
    state.heap,
    record { memory = memmove state.memory state.heap old n; heap = state.heap + 4080 },
  );
  sys_free = λ p state. state;
}

abbrev start : State ℕ
start = record { memory = λ q. 7; heap = 4112 }

abbrev growing : Flags
growing = record { zeroed = false; nofail = false; realloc = true }

abbrev clear : Flags
clear = record { zeroed = true; nofail = false; realloc = false }

-- 16 bytes at a multiple of 64
abbrev first_state : State ℕ
first_state = (malloc_ moving 0 16 64 clear start).heap

found :
    ((malloc_ moving 0 16 64 clear start).block ≡ 4160)
    × (mem2hdr first_state.memory 4160 ≡ 4112)
    × (size_ moving 4160 first_state ≡ 16)
    × (first_state.memory 4175 ≡ 0)
    × (first_state.memory 4176 ≡ 7)
unfolding malloc_ size_
found = (refl, refl, refl, refl, refl)

-- The ninth byte and those behind it are the header's address, 8192.
damaged :
    (let reply = malloc_ moving 4160 16 64 growing first_state in
      (reply.block ≡ 8256)
      × (reply.heap.memory 8263 ≡ 0)
      × (load_word reply.heap.memory 8264 ≡ 8192)
      × (size_ moving 8256 reply.heap ≡ 16))
unfolding malloc_ size_ load_word
damaged = (refl, refl, refl, refl)

decreased : (malloc_ moving 4160 16 8 growing first_state).status ≡ failure einval
unfolding malloc_
decreased = refl

cleared_array : (xcalloc (system_allocator moving) 3 4 start).0 ≡ 4144
unfolding xcalloc system_allocator
cleared_array = refl

four : ctz 16 ≡ 4
unfolding ctz
four = refl

ctz-pow2_example : ctz (pow2 12) ≡ 12
ctz-pow2_example = ctz-pow2 12 (omega arith)

given : IsGiven 4112 (extent 16 6)
given = record { some_block = omega arith; block_aligned = refl; limit = omega arith }

given_again : IsGiven 8192 (extent 24 6)
given_again = record { some_block = omega arith; block_aligned = refl; limit = omega arith }

malloc_-IsAllocated_example :
    (let reply = malloc_ moving 0 16 64 clear start in
      ((first_at ≡ 0)
        × (reply ≡ record {
          status = failure enomem;
          block = 0;
          heap = record { memory = memmove start.memory 4112 0 104; heap = 8192 };
        }))
      ⊎ ((reply.status ≡ success)
          × IsAllocated moving 4112 reply.block 16 6 true 0 reply.heap.memory
          × ((q : ℕ)
              → (q < 4112) ⊎ (4112 + 104 ≤ q)
              → reply.heap.memory q ≡ memmove start.memory 4112 0 104 q)))
malloc_-IsAllocated_example =
    malloc_-IsAllocated moving 16 6 clear start
      (record { memory = memmove start.memory 4112 0 104; heap = 8192 }) 4112 (omega arith)
      (omega arith) refl (inr given)

-- the first block's header, before its data
abbrev headed_memory : Memory
headed_memory = headed 4112 16 3 given (omega arith) start.memory

abbrev held : State ℕ
held = record { memory = headed_memory; heap = 8192 }

malloc_-IsMoved_example :
    (let reply = malloc_ moving 4160 24 64 growing held in
      ((64 < 64) × (reply ≡ record { status = failure einval; block = 4160; heap = held }))
      ⊎ ((64 ≤ 64)
          × (((second_at ≡ 0)
                × (reply ≡ record {
                  status = failure enomem;
                  block = 4160;
                  heap = record { memory = memmove headed_memory 8192 4112 112; heap = 12272 };
                }))
              ⊎ ((reply.status ≡ success)
                  × IsAllocated moving 8192 reply.block 24 6 false 16 reply.heap.memory
                  × IsMoved headed_memory reply.heap.memory 48 16 8192 reply.block 24 4160))))
malloc_-IsMoved_example =
    malloc_-IsMoved moving 4112 4160 16 3 104 24 6 growing held
      (record { memory = memmove headed_memory 8192 4112 112; heap = 12272 }) 8192 refl
      (headed-IsBlock 4112 16 3 given (omega arith) start.memory) (omega arith) (omega arith)
      (omega arith) refl (inr given_again)
      (λ q h h'. memmove_moved headed_memory 8192 4112 112 q h')

calloc-IsNew_example :
    IsNew moving first_at 48 4 true
      (record { memory = memmove start.memory 4112 0 88; heap = 8192 })
      (calloc moving 3 16 start)
calloc-IsNew_example =
    calloc-IsNew moving 3 16 start (record { memory = memmove start.memory 4112 0 88; heap = 8192 })
      first_at (omega arith) refl
      (inr (record { some_block = omega arith; block_aligned = refl; limit = omega arith }))
