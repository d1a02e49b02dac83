-- ===== src/Storage/Log.antt =====
-- storage/log.go: the write-ahead log, and the replay loop of `KV.Open` (storage/kv.go). The file is
-- its bytes and the offset of the open descriptor (it is not opened for append). The file system
-- is not the program's: what a call meets is an argument, `Io`.
pub mod Replay
pub mod Torn
use db.Prelude.{
  ℕ, zero, suc, ◌+◌, ◌-◌, Bool, true, false, List, [], ◌∷◌, ◌++◌, Bytes, length, take, drop,
  if◌then◌else◌,
}
use db.Bytes.File
use db.Storage.Entry
use db.Storage.Entry.{Entry, Decoded, encode, decode, done}
use db.Storage.SortedArray
use db.Storage.SortedArray.{SortedArray, set_entry, del}

pub record Log : Type 0 where
  pub content : Bytes
  pub offset : ℕ

-- Open: the descriptor starts at offset 0.
unfoldable pub open_log : Bytes → Log
open_log content = record { content = content; offset = 0 }

-- What the file system does with a write and the sync behind it: both succeed, the write fails
-- after n bytes, or the sync fails.
pub data Io : Type 0 where
  succeeds : Io
  short_write : ℕ → Io
  sync_fails : Io

-- write(2) at the descriptor's offset: one behind the file's end leaves zeros between.
unfoldable pub write_at : Log → Bytes → Log
write_at log b = record {
  content = File.write_at log.offset b log.content;
  offset = log.offset + length b;
}

-- Write: the log and whether nil was returned.
unfoldable pub write : Io → Log → Entry → Log × Bool
write succeeds log ent = (write_at log (encode ent), true)
write (short_write n) log ent = (write_at log (take n (encode ent)), false)
write sync_fails log ent = (write_at log (encode ent), false)

-- Truncate empties the file and rewinds; `failed` is the step that does not succeed.
pub data TruncateIo : Type 0 where
  all_succeed truncate_fails seek_fails sync_fails : TruncateIo

unfoldable pub truncate : TruncateIo → Log → Log × Bool
truncate all_succeed log = (record { content = []; offset = 0 }, true)
truncate truncate_fails log = (log, false)
truncate seek_fails log = (record log { content = [] }, false)
truncate TruncateIo.sync_fails log = (record { content = []; offset = 0 }, false)

-- Read: a record, the end of the usable log (a clean end, a torn tail or a bad checksum), or the
-- panic of a record whose sizes wrap.
pub data ReadResult : Type 0 where
  entry : Entry → ReadResult
  end panics : ReadResult

abbrev pub read_outcome : Decoded → ReadResult
read_outcome (done e) = entry e
read_outcome Decoded.eof = end
read_outcome Decoded.unexpected_eof = end
read_outcome Decoded.bad_sum = end
read_outcome Decoded.panic = panics

unfoldable pub read : Log → ReadResult × Log
read log =
    let (d, rest) = decode (drop log.offset log.content) in
    (read_outcome d, record log { offset = length log.content - length rest })

-- if ent.deleted { kv.mem.Del(ent.key) } else { kv.mem.Set(ent.key, ent.val) }
unfoldable pub apply : SortedArray → Entry → SortedArray
apply mem ent = if ent.deleted then del mem ent.key else (set_entry mem ent.key ent.val).0

pub data Replayed : Type 0 where
  recovered : SortedArray → Log → Replayed
  panicked : Replayed
  out_of_fuel : Replayed

-- The loop of Open, on fuel; each round reads 13 bytes at least.
unfoldable pub replay_loop : ℕ → Log → SortedArray → Replayed
replay_loop zero log mem = out_of_fuel
replay_loop (suc fuel) log mem =
    let (r, log') = read log in
    elim r [
      | entry ent ↦ replay_loop fuel log' (apply mem ent)
      | end ↦ recovered mem log'
      | panics ↦ panicked
    ]

unfoldable pub replay : Log → Replayed
replay log = replay_loop (suc (length log.content)) log SortedArray.empty
