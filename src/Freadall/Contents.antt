-- ===== src/Freadall/Contents.antt =====
-- That the reading loop ends with the whole stream in the buffer.
use vsclib.Freadall.System
use vsclib.Freadall.Loop.{Procedures, Reading, Result, read_chunk, finish, read_loop}
use vsclib.Freadall.Sizes.{State}
use vsclib.Memory.Allocation.{Allocator}
use vsclib.Prelude.Errno.{success}
use vsclib.Prelude.Words.{add_size, sub_size}
use vsclib.Prelude.{
  ℕ, zero, suc, ◌+◌, ◌-◌, ◌≤◌, ◌<◌, ◌^◌, min, List, [], ◌++◌, length, length-append, append_nil,
  append_assoc, length-take, length-drop, take-append-drop, drop_whole, take, drop, true, false,
  ltb, Bool-cases, some, ◌≡◌, ◌≢◌, inl, inr, refl, sym, ap, ap₂, ◌∙◌, arith,
}
use vsclib.Freadall.Room.{IsSource, IsAmple, IsRoomy, reserve-IsRoomy}

-- the result that a caller wants
pub record IsWhole {ℓ} {Heap Stream User : Type ℓ} (res : Result Heap Stream User) (whole : List ℕ)
    : Type ℓ where
  pub status : res.status ≡ success
  pub contents : res.contents ≡ whole
  pub size : res.size ≡ length whole
  pub ptr : res.ptr ≢ 0

module _ {ℓ} {Heap Stream User : Type ℓ} (a : Allocator Heap) (sys : System.System Stream)
    (procedures : Procedures User) (left : Stream → List ℕ) (source : IsSource sys left)
    (ample : IsAmple a)
    (go_on : (state : State) (user : User) → (procedures.chunk state user).0 ≡ false) where
  -- the loop's invariant, for what there was to read
  pub record IsReading (r : Reading Heap Stream User) (whole : List ℕ) : Type ℓ where
    pub split : r.contents ++ left r.stream ≡ whole
    pub count : r.state.bytes_read ≡ length r.contents
    pub blk : 0 < r.state.blk_size
    pub fits : length whole + r.state.blk_size < 2 ^ 64
    pub word : r.state.file_size < 2 ^ 64

  -- what stands after a call of `fread`
  next : Reading Heap Stream User → Reading Heap Stream User
  unfolding read_chunk
  next r1 =
      let r2 = read_chunk a sys procedures r1 in
      record r2 { user = (procedures.chunk r2.state r2.user).1 }

  IsReading-length :
      (r : Reading Heap Stream User) (whole : List ℕ)
      → IsReading r whole
      → length r.contents + length (left r.stream) ≡ length whole
  IsReading-length r whole v = sym (length-append r.contents (left r.stream)) ∙ ap length v.split

  next-IsReading :
      (r r1 : Reading Heap Stream User) (whole : List ℕ)
      → IsReading r whole
      → IsRoomy a sys procedures ample r r1
      → IsReading (next r1) whole
  unfolding next read_chunk
  next-IsReading r r1 whole v room =
      let n = sub_size r1.state.file_size r1.state.bytes_read in
      let bytes = source.bytes n r1.stream in
      let len = IsReading-length r whole v in
      let got = (sys.fread n r1.stream).0 in
      let taken : length got ≡ min n (length (left r.stream)) =
        ap length bytes
        ∙ length-take n (left r1.stream)
        ∙ ap (λ s. min n (length (left s))) room.stream in
      let before : r1.state.bytes_read ≡ length r.contents = room.bytes_read ∙ v.count in
      let after : length (r1.contents ++ got) ≡ length r.contents + length got =
        length-append r1.contents got ∙ ap (λ c. length c + length got) room.contents in
      let sum : add_size r1.state.bytes_read (length got) ≡ length (r1.contents ++ got) =
        omega (arith, v.fits, len) in
      record {
        split =
            ap₂ (λ b l. (r1.contents ++ b) ++ l) bytes (source.rest n r1.stream)
            ∙ append_assoc r1.contents (take n (left r1.stream)) (drop n (left r1.stream))
            ∙ ap (λ l. r1.contents ++ l) (take-append-drop n (left r1.stream))
            ∙ ap₂ (λ c s. c ++ left s) room.contents room.stream
            ∙ v.split;
        count = sum;
        blk = omega (arith, v.blk, room.blk_size);
        fits = omega (arith, v.fits, room.blk_size);
        word = room.word;
      }

  ended :
      (fuel : ℕ) (r : Reading Heap Stream User) (whole : List ℕ)
      → IsReading r whole
      → r.p ≢ 0
      → sys.feof r.stream ≡ true
      → left r.stream ≡ []
      → 0 < fuel
      → (res : Result Heap Stream User) × (read_loop a sys procedures fuel r ≡ some res)
        × IsWhole res whole
  unfolding read_loop finish
  ended zero r whole v p over none_left pos = absurd (omega arith)
  ended (suc fuel) r whole v p over none_left pos =
      let all_read : r.contents ≡ whole =
        sym (append_nil r.contents) ∙ ap (λ l. r.contents ++ l) (sym none_left) ∙ v.split in
      (
        finish a sys procedures r,
        rw over refl,
        rw (source.fine r.stream) (record {
          status = refl;
          contents = all_read;
          size = v.count ∙ ap length all_read;
          ptr = p;
        }),
      )

  pub read_loop-IsWhole :
      (fuel : ℕ) (r : Reading Heap Stream User) (whole : List ℕ)
      → IsReading r whole
      → sys.feof r.stream ≡ false
      → length whole + length (left r.stream) + 2 ≤ fuel
      → (res : Result Heap Stream User) × (read_loop a sys procedures fuel r ≡ some res)
        × IsWhole res whole
  unfolding read_loop next
  read_loop-IsWhole zero r whole v more enough = absurd (omega arith)
  read_loop-IsWhole (suc fuel) r whole v more enough =
      let len = IsReading-length r whole v in
      let (r1, room, roomy) =
        reserve-IsRoomy a sys procedures ample fuel r v.blk (omega (arith, v.fits, v.count, len))
          v.word (omega (arith, v.count, len)) in
      let n = sub_size r1.state.file_size r1.state.bytes_read in
      let v' = next-IsReading r r1 whole v roomy in
      let r2 = read_chunk a sys procedures r1 in
      let same = ap left roomy.stream in
      let one_step : read_loop a sys procedures (suc fuel) r
          ≡ read_loop a sys procedures fuel (next r1) =
        rw (more, source.fine r.stream, room, go_on r2.state r2.user) refl in
      elim (Bool-cases (ltb (length (left r1.stream)) n)) [
        | inl last ↦
            let none_left : left (next r1).stream ≡ [] =
              source.rest n r1.stream ∙ drop_whole n (left r1.stream) (ground arith) in
            let over : sys.feof (next r1).stream ≡ true = source.ends n r1.stream ∙ last in
            let (res, found, good) =
              ended fuel (next r1) whole v' roomy.p over none_left (omega arith) in
            (res, one_step ∙ found, good)
        | inr other ↦
            let go_on_too : sys.feof (next r1).stream ≡ false = source.ends n r1.stream ∙ other in
            let less : length (left (next r1).stream) ≡ length (left r.stream) - n =
              ap length (source.rest n r1.stream)
              ∙ length-drop n (left r1.stream)
              ∙ ap (λ l. length l - n) same in
            let n_pos : 0 < n = omega (arith, roomy.more, roomy.bytes_read, roomy.word) in
            let n_fits : n ≤ length (left r.stream) = ground (arith, ap length same) in
            let (res, found, good) =
              read_loop-IsWhole fuel (next r1) whole v' go_on_too (omega arith) in
            (res, one_step ∙ found, good)
      ]
