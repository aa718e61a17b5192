-- ===== src/Buffer.antt =====
-- include/net/buffer.hpp and src/net/buffer.cpp: a vector of bytes with a read and a write position.
-- `storage` is all that the vector has allocated: its capacity is the length of it, and `size` of
-- its bytes are elements. `memcpy` to bytes that are not allocated is `none`.
pub mod Refinement
mod Tests
use rtmp_abr_transcoder.Base.{
  ℕ, zero, suc, ◌+◌, ◌-◌, min, ◌&&◌, List, [], ◌++◌, Option, none, some, ltb, leb, ◌==◌,
  if◌then◌else◌, length, take, drop, replicate,
}

pub record Buffer : Type 0 where
  pub storage : List ℕ
  pub size : ℕ
  pub read_pos : ℕ
  pub write_pos : ℕ

unfoldable pub new_buffer : Buffer
new_buffer = record { storage = []; size = 0; read_pos = 0; write_pos = 0 }

-- readable(): the bytes between the two positions.
unfoldable pub readable : Buffer → List ℕ
readable b = drop b.read_pos (take b.write_pos b.storage)

-- size() and empty().
unfoldable pub readable_size : Buffer → ℕ
readable_size b = b.write_pos - b.read_pos

unfoldable pub compact : Buffer → Buffer
unfolding readable
compact b =
    let data_size = b.write_pos - b.read_pos in
    if ltb 0 b.read_pos
    then record b {
      storage = readable b ++ drop data_size b.storage;
      read_pos = 0;
      write_pos = data_size;
    }
    else b

unfoldable pub consume : ℕ → Buffer → Buffer
consume n b =
    let read_pos = b.read_pos + min n (b.write_pos - b.read_pos) in
    if read_pos == b.write_pos
    then record b { read_pos = 0; write_pos = 0 }
    else record b { read_pos = read_pos }

unfoldable pub clear : Buffer → Buffer
clear b = record b { read_pos = 0; write_pos = 0 }

-- The standard library decides how much a vector allocates: `grow` gives the capacity from the old
-- one and the size that is needed, and `memory` is what a new byte beyond the elements holds.
module _ (grow : ℕ → ℕ → ℕ) (memory : ℕ) where
  -- buffer_.resize(n): new elements are 0; an allocation keeps the elements only.
  unfoldable pub resize : ℕ → Buffer → Buffer
  resize n b =
      if leb n b.size
      then record b { size = n }
      else if leb n (length b.storage)
      then record b {
        storage = take b.size b.storage ++ (replicate (n - b.size) 0 ++ drop n b.storage);
        size = n;
      }
      else record b {
        storage =
            take b.size b.storage
            ++ (replicate (n - b.size) 0 ++ replicate (grow (length b.storage) n - n) memory);
        size = n;
      }

  -- The test before the copy.
  unfoldable pub make_room : ℕ → Buffer → Buffer
  make_room len b =
      if ltb b.size (b.write_pos + len)
      then (if ltb 0 b.read_pos && leb (b.write_pos - b.read_pos + len) (length b.storage)
          then compact b
          else resize (b.write_pos + len) b)
      else b

  -- The copy.
  unfoldable pub store : List ℕ → Buffer → Option Buffer
  store bytes b =
      let end = b.write_pos + length bytes in
      if leb end (length b.storage)
      then some (record b {
        storage = take b.write_pos b.storage ++ (bytes ++ drop end b.storage);
        write_pos = end;
      })
      else none

  unfoldable pub append : List ℕ → Buffer → Option Buffer
  append bytes b = store bytes (make_room (length bytes) b)
