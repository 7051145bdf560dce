-- ===== src/SystemAllocator/Header.antt =====
-- The functions of vsclib/allocator.cpp, on a memory of bytes. vsc_sys_realloc and vsc_sys_free are
-- parameters. `sizeof(MemHeader)` is 24, and the sizes and alignments of a word and a pointer are 8.
use vsclib.Prelude.Errno.{success, failure, einval, enomem}
use vsclib.Prelude.Words.{add_size, sub_size}
use vsclib.Prelude.{ℕ, ◌%◌, ◌^◌, Bool, not, ◌&&◌, ◌==◌, ltb, if◌then◌else◌, pow2}
use vsclib.Memory.Alignment.{align_down, align_up}
use vsclib.Memory.Allocation.{Flags, Reply, Allocator}
use vsclib.SystemAllocator.Bytes.{Memory, load_word, store_word, memmove, memset}
use vsclib.SystemAllocator.Trailing.{ctz}

-- `VSC__MEMHDR_SIG`
abbrev pub memhdr_sig : ℕ
memhdr_sig = 0xFEED5EEDFEED5EED

-- the memory, and what the system's allocator knows of it
pub record State {ℓ} (Heap : Type ℓ) : Type ℓ where
  pub memory : Memory
  pub heap : Heap

pub record System {ℓ} (Heap : Type ℓ) : Type ℓ where
  pub sys_realloc : ℕ → ℕ → State Heap → ℕ × State Heap
  pub sys_free : ℕ → State Heap → State Heap

-- the signature before the data, or the header's address in its place
unfoldable pub mem2hdr : Memory → ℕ → ℕ
unfolding align_down load_word
mem2hdr m p =
    let pend = align_down p 8 in
    let before = load_word m (sub_size pend 8) in
    if before == memhdr_sig then sub_size pend 24 else before

unfoldable pub hdr2mem : ℕ → ℕ → ℕ
unfolding align_up
hdr2mem hdr alignment = align_up (add_size hdr 24) alignment

-- the fields of `MemHeader`: `align_power` is the low byte of the second word
unfoldable pub header_size : Memory → ℕ → ℕ
unfolding load_word
header_size m hdr = load_word m hdr

unfoldable pub align_power : Memory → ℕ → ℕ
unfolding load_word
align_power m hdr = load_word m (add_size hdr 8) % 256

-- For an alignment with padding, the header's address goes in front of the data.
unfoldable pub link : Memory → ℕ → ℕ → Memory
unfolding store_word
link m nhdr p = if add_size nhdr 24 == p then m else store_word m (sub_size p 8) nhdr

unfoldable pub write_header : Memory → ℕ → ℕ → ℕ → Memory
unfolding store_word ctz
write_header m nhdr size alignment =
    let sized = store_word m nhdr size in
    let powered = store_word sized (add_size nhdr 8) (ctz alignment % 256) in
    store_word powered (add_size nhdr 16) memhdr_sig

-- the block to reallocate: `hdr`, `oldsize` and `shift`
pub record Old : Type 0 where
  pub hdr : ℕ
  pub oldsize : ℕ
  pub shift : ℕ

unfoldable pub old_block : Bool → Memory → ℕ → Old
unfolding mem2hdr header_size
old_block reallocates m ptr =
    let hdr = mem2hdr m ptr in
    if reallocates
    then record { hdr = hdr; oldsize = header_size m hdr; shift = sub_size ptr hdr }
    else record { hdr = 0; oldsize = 0; shift = 0 }

-- "the padding between the header/data may have changed. Account for this."
unfoldable pub shift_data : Bool → Old → Memory → ℕ → ℕ → Memory
unfolding memmove
shift_data reallocates old m nhdr p =
    if reallocates && not (old.shift == sub_size p nhdr)
    then memmove m p (add_size nhdr old.shift) old.oldsize
    else m

unfoldable pub zero_rest : Bool → ℕ → ℕ → Memory → ℕ → Memory
unfolding header_size memset
zero_rest wanted oldsize nhdr m p =
    if wanted && ltb oldsize (header_size m nhdr)
    then memset m (add_size p oldsize) 0 (sub_size (header_size m nhdr) oldsize)
    else m

-- what the memory becomes once the system has given the block `nhdr`
unfoldable pub prepare : Bool → Bool → Old → ℕ → ℕ → Memory → ℕ → Memory
unfolding hdr2mem link write_header shift_data zero_rest
prepare reallocates wanted old size alignment m nhdr =
    let p = hdr2mem nhdr alignment in
    let headed = write_header (link m nhdr p) nhdr size alignment in
    zero_rest wanted old.oldsize nhdr (shift_data reallocates old headed nhdr p) p

unfoldable pub answer {ℓ} :
    {Heap : Type ℓ} → Bool → Bool → Old → ℕ → ℕ → ℕ → ℕ × State Heap → Reply (State Heap)
unfolding hdr2mem prepare
answer reallocates wanted old ptr size alignment (nhdr, state) =
    if nhdr == 0 then record { status = failure enomem; block = ptr; heap = state } else record {
      status = success;
      block = hdr2mem nhdr alignment;
      heap = record state {
        memory = prepare reallocates wanted old size alignment state.memory nhdr;
      };
    }

-- "Enforce the minimum alignment, this will break headers otherwise."
abbrev pub at_least : ℕ → ℕ
at_least alignment = if ltb alignment 8 then 8 else alignment

-- "Size of the header + block."
abbrev pub reqsize : ℕ → ℕ → ℕ
reqsize size alignment = add_size (add_size 24 size) alignment

module _ {ℓ} {Heap : Type ℓ} (sys : System Heap) where
  -- `malloc_` once it has read the old header, with `1u << align_power` in 32 bits
  unfoldable pub with_old : Bool → Bool → ℕ → ℕ → ℕ → State Heap → Old → Reply (State Heap)
  unfolding align_power answer
  with_old reallocates wanted ptr size alignment state old =
      if reallocates && ltb alignment (pow2 (align_power state.memory old.hdr) % 2 ^ 32)
      then record { status = failure einval; block = ptr; heap = state }
      else answer reallocates wanted old ptr size alignment
          (sys.sys_realloc old.hdr (reqsize size alignment) state)

  unfoldable pub malloc_ : ℕ → ℕ → ℕ → Flags → State Heap → Reply (State Heap)
  unfolding old_block with_old
  malloc_ ptr size alignment flags state =
      let reallocates = flags.realloc && not (ptr == 0) in
      with_old reallocates flags.zeroed ptr size (at_least alignment) state
        (old_block reallocates state.memory ptr)

  unfoldable pub free_ : ℕ → State Heap → State Heap
  unfolding mem2hdr
  free_ p state = if p == 0 then state else sys.sys_free (mem2hdr state.memory p) state

  unfoldable pub size_ : ℕ → State Heap → ℕ
  unfolding mem2hdr header_size
  size_ p state = if p == 0 then 0 else header_size state.memory (mem2hdr state.memory p)

  -- `vsclib_system_allocator`; the alignment is that of `max_align_t`
  unfoldable pub system_allocator : Allocator (State Heap)
  unfolding malloc_ free_ size_ memmove
  system_allocator = record {
    alloc = malloc_;
    free = free_;
    size = size_;
    memcpy = λ dst src n state. record state { memory = memmove state.memory dst src n };
    alignment = 16;
  }
