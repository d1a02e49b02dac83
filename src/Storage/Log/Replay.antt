-- ===== src/Storage/Log/Replay.antt =====
-- Replaying a log applies the records that were written, in order, whatever torn tail follows.
use db.Prelude.{
  ℕ, zero, suc, ◌-◌, ◌≤◌, ◌<◌, ◌≡◌, ap, List, [], ◌∷◌, ◌++◌, arith, append_assoc, Bytes, All,
  length, length-append, drop-append,
}
use db.Storage.Entry.{Entry, Decoded, encode, decode}
use db.Storage.Entry.RoundTrip.{Fits, decode-encode, length-encode}
use db.Storage.SortedArray
use db.Storage.SortedArray.{SortedArray}
use db.Storage.Log.{
  Log, entry, end, read_outcome, read, apply, recovered, replay_loop, replay, open_log,
}

-- The file after these records were written to an empty log.
abbrev pub log_bytes : List Entry → Bytes
log_bytes [] = []
log_bytes (e ∷ es) = encode e ++ log_bytes es

abbrev pub apply_all : SortedArray → List Entry → SortedArray
apply_all mem [] = mem
apply_all mem (e ∷ es) = apply_all (apply mem e) es

abbrev at : Bytes → Bytes → Log
at pre ahead = record { content = pre ++ ahead; offset = length pre }

read-at :
    (pre ahead rest : Bytes) {d : Decoded}
    → decode ahead ≡ (d, rest)
    → read (at pre ahead) ≡ (
      read_outcome d,
      record { content = pre ++ ahead; offset = length (pre ++ ahead) - length rest },
    )
unfolding read
read-at pre ahead rest e = rw (drop-append pre ahead, e)

read_entry :
    (pre rest : Bytes) (ent : Entry)
    → Fits ent
    → read (at pre (encode ent ++ rest)) ≡ (entry ent, at (pre ++ encode ent) rest)
read_entry pre rest ent fits =
    rw
      (
        read-at pre (encode ent ++ rest) rest (decode-encode ent fits rest),
        append_assoc pre (encode ent) rest,
      )
      (ap (λ (n : ℕ). (entry ent, record { content = pre ++ (encode ent ++ rest); offset = n }))
        (omega (
          arith,
          length-append pre (encode ent ++ rest),
          length-append (encode ent) rest,
          length-append pre (encode ent),
        )))

module _ (fuel : ℕ) (log log' : Log) (mem : SortedArray) where
  replay_step :
      (ent : Entry)
      → read log ≡ (entry ent, log')
      → replay_loop (suc fuel) log mem ≡ replay_loop fuel log' (apply mem ent)
  unfolding replay_loop
  replay_step ent e = ground (arith, e)

  replay_end : read log ≡ (end, log') → replay_loop (suc fuel) log mem ≡ recovered mem log'
  unfolding replay_loop
  replay_end e = ground (arith, e)

module _ (tail rest : Bytes) (d : Decoded) (stops : decode tail ≡ (d, rest))
    (ends : read_outcome d ≡ end) where
  replay_loop-entries :
      (es : List Entry) (pre : Bytes) (fuel : ℕ) (mem : SortedArray)
      → All Fits es
      → length es < fuel
      → replay_loop fuel (at pre (log_bytes es ++ tail)) mem
        ≡ recovered (apply_all mem es) (record {
          content = pre ++ (log_bytes es ++ tail);
          offset = length (pre ++ (log_bytes es ++ tail)) - length rest;
        })
  replay_loop-entries es pre zero mem fits f = absurd (omega arith)
  replay_loop-entries [] pre (suc fuel) mem fits f =
      replay_end fuel (at pre tail) _ mem (rw (read-at pre tail rest stops, ends))
  replay_loop-entries (e ∷ es) pre (suc fuel) mem fits f =
      let later = log_bytes es ++ tail in
      rw (
        append_assoc (encode e) (log_bytes es) tail,
        replay_step fuel (at pre (encode e ++ later)) (at (pre ++ encode e) later) mem e
            (read_entry pre later e fits.0),
        replay_loop-entries es (pre ++ encode e) fuel (apply mem e) fits.1 (omega arith),
        append_assoc pre (encode e) later,
      )

  length-log_bytes : (es : List Entry) → length es ≤ length (log_bytes es)
  length-log_bytes [] = omega arith
  length-log_bytes (e ∷ es) =
      omega (arith, length-append (encode e) (log_bytes es), length-encode e, length-log_bytes es)

  -- Opening a log that holds these records and then something that reads as the end of the log,
  -- applies the records in order and nothing else. The descriptor is left behind what was read.
  pub replay-log_bytes :
      (es : List Entry)
      → All Fits es
      → replay (open_log (log_bytes es ++ tail))
        ≡ recovered (apply_all SortedArray.empty es) (record {
          content = log_bytes es ++ tail;
          offset = length (log_bytes es ++ tail) - length rest;
        })
  unfolding replay open_log
  replay-log_bytes es fits =
      replay_loop-entries es [] _ SortedArray.empty fits
        (omega (arith, length-append (log_bytes es) tail, length-log_bytes es))
