-- ===== src/Storage/Log/Torn.antt =====
-- Writing to a log that was replayed to its end: durability, the torn tail of a crash, and what is
-- written behind such a tail.
use db.Prelude.{
  ℕ, ◌-◌, ◌<◌, ◌≡◌, refl, ap, true, List, [], ◌∷◌, ◌++◌, arith, append_assoc, append-nil, Bytes,
  All, All-append, length, take, length-append,
}
use native.Mathlib.Nat.{sub-zero}
use db.Bytes.File
use db.Storage.Entry.{Entry, Decoded, encode, decode}
use db.Storage.Entry.RoundTrip.{Fits, decode_torn, decode_empty}
use db.Storage.SortedArray
use db.Storage.SortedArray.{SortedArray}
use db.Storage.Log.{
  Log, end, read_outcome, open_log, succeeds, short_write, write_at, write, apply, recovered,
  replay,
}
use db.Storage.Log.Replay.{log_bytes, apply_all, replay-log_bytes}

-- A descriptor at the end of the file.
abbrev pub at_end : Bytes → Log
at_end content = record { content = content; offset = length content }

pub write_at-at_end : (c b : Bytes) → write_at (at_end c) b ≡ at_end (c ++ b)
unfolding write_at
write_at-at_end c b = rw (File.write_at-end c b, length-append c b) refl

pub log_bytes-append : (es fs : List Entry) → log_bytes (es ++ fs) ≡ log_bytes es ++ log_bytes fs
log_bytes-append [] fs = refl
log_bytes-append (e ∷ es) fs =
    rw (log_bytes-append es fs, append_assoc (encode e) (log_bytes es) (log_bytes fs))

pub apply_all-append :
    (mem : SortedArray) (es fs : List Entry)
    → apply_all mem (es ++ fs) ≡ apply_all (apply_all mem es) fs
apply_all-append mem [] fs = refl
apply_all-append mem (e ∷ es) fs = apply_all-append (apply mem e) es fs

-- A log of whole records replays to a descriptor at its end.
pub replay_clean :
    (es : List Entry)
    → All Fits es
    → replay (open_log (log_bytes es))
      ≡ recovered (apply_all SortedArray.empty es) (at_end (log_bytes es))
replay_clean es fits =
    rw (append-nil (log_bytes es), sub-zero) at
      (replay-log_bytes [] [] Decoded.eof decode_empty refl es fits)

-- On a log of whole records, with the descriptor at its end and sizes that fit 32 bits, a record whose
-- write returned nil is replayed by the next Open, behind the earlier ones.
pub write_durable :
    (es : List Entry) (e : Entry)
    → All Fits es
    → Fits e
    → replay (open_log (write succeeds (at_end (log_bytes es)) e).0.content)
      ≡ recovered (apply (apply_all SortedArray.empty es) e) (at_end (log_bytes (es ++ e ∷ [])))
unfolding write
write_durable es e fits fit =
    let whole = ap (λ (b : Bytes). log_bytes es ++ b) (append-nil (encode e)) in
    rw (
      write_at-at_end (log_bytes es) (encode e),
      ← whole,
      ← log_bytes-append es (e ∷ []),
      replay_clean (es ++ e ∷ []) (All-append Fits es (e ∷ []) fits (fit, tt)),
      apply_all-append SortedArray.empty es (e ∷ []),
    )

-- On a log of whole records, with the descriptor at its end and sizes that fit 32 bits, a write that
-- was cut inside the record leaves a log that replays to the earlier records, for every place of the
-- cut.
pub write_torn :
    (es : List Entry) (e : Entry) (n : ℕ)
    → All Fits es
    → Fits e
    → n < length (encode e)
    → replay (open_log (write (short_write n) (at_end (log_bytes es)) e).0.content)
      ≡ recovered (apply_all SortedArray.empty es) (at_end (log_bytes es ++ take n (encode e)))
unfolding write
write_torn es e n fits fit h = rw (write_at-at_end (log_bytes es) (take n (encode e))) (
    rw sub-zero at
      (replay-log_bytes (take n (encode e)) [] _ (decode_torn e n fit h) (ground arith) es fits))

-- With the descriptor behind a tail of the log, where the tail and the record written behind it do
-- not read as a record, the write returns nil, and the next replay stops where the tail begins: it
-- applies the records before the tail and not the one that was written.
pub write_behind_torn_tail :
    (es : List Entry) (tail rest : Bytes) (e : Entry) {d : Decoded}
    → All Fits es
    → decode (tail ++ encode e) ≡ (d, rest)
    → read_outcome d ≡ end
    → ((write succeeds (at_end (log_bytes es ++ tail)) e).1 ≡ true)
      × (replay (open_log (write succeeds (at_end (log_bytes es ++ tail)) e).0.content)
          ≡ recovered (apply_all SortedArray.empty es) (record {
            content = log_bytes es ++ (tail ++ encode e);
            offset = length (log_bytes es ++ (tail ++ encode e)) - length rest;
          }))
unfolding write
write_behind_torn_tail es tail rest e {d} fits stops ends = (
  refl,
  rw
      (
        write_at-at_end (log_bytes es ++ tail) (encode e),
        append_assoc (log_bytes es) tail (encode e),
      )
      (replay-log_bytes (tail ++ encode e) rest d stops ends es fits),
)
