-- ===== src/Tests/Log.antt =====
-- The log on two records, whole and torn.
use db.Prelude.{◌-◌, ◌≡◌, refl, true, [], ◌∷◌, ◌++◌, Bytes, length, take, arith}
use db.Storage.SortedArray
use db.Storage.SortedArray.{SortedArray}
use db.Storage.Entry.{encode, decode, done, bad_sum}
use db.Storage.Entry.RoundTrip.{Fits, decode-encode, length-encode}
use db.Storage.Log.{succeeds, short_write, write, open_log, replay, recovered}
use db.Storage.Log.Replay.{log_bytes, apply_all}
use db.Storage.Log.Torn.{at_end, write_torn, write_behind_torn_tail}
use db.Bytes.Reader.{read_full}
use db.Bytes.Endian.{le_bytes, from_le}
use db.Bytes.Crc.{crc32}
use db.Tests.Data.{put_a, del_b}

put_a-Fits : Fits put_a
put_a-Fits = omega arith

del_b-Fits : Fits del_b
del_b-Fits = omega arith

decode-encode_example : decode (encode put_a ++ 5 ∷ []) ≡ (done put_a, 5 ∷ [])
decode-encode_example = decode-encode put_a put_a-Fits (5 ∷ [])

write_torn_example :
    replay (open_log (write (short_write 9) (at_end (log_bytes (put_a ∷ []))) del_b).0.content)
    ≡ recovered
        (apply_all SortedArray.empty (put_a ∷ []))
        (at_end (log_bytes (put_a ∷ []) ++ take 9 (encode del_b)))
write_torn_example =
    write_torn (put_a ∷ []) del_b 9 (put_a-Fits, tt) del_b-Fits (omega (arith, length-encode del_b))

-- What the decoder leaves behind the body that it takes.
abbrev unread : Bytes
unread = 239 ∷ 182 ∷ 1 ∷ 0 ∷ 0 ∷ 0 ∷ 0 ∷ 0 ∷ 0 ∷ 0 ∷ 1 ∷ 98 ∷ []

-- Fourteen bytes of a torn record, and a whole record behind them, read as a bad checksum.
bad_tail : decode (take 14 (encode put_a) ++ encode del_b) ≡ (bad_sum, unread)
unfolding decode encode read_full le_bytes from_le crc32
bad_tail = refl

write_behind_torn_tail_example :
    ((write succeeds (at_end (log_bytes (put_a ∷ []) ++ take 14 (encode put_a))) del_b).1 ≡ true)
    × (replay (
          open_log
            (write succeeds
              (at_end (log_bytes (put_a ∷ []) ++ take 14 (encode put_a)))
              del_b).0.content)
        ≡ recovered (apply_all SortedArray.empty (put_a ∷ [])) (record {
          content = log_bytes (put_a ∷ []) ++ (take 14 (encode put_a) ++ encode del_b);
          offset =
              length (log_bytes (put_a ∷ []) ++ (take 14 (encode put_a) ++ encode del_b))
              - length unread;
        }))
write_behind_torn_tail_example =
    write_behind_torn_tail (put_a ∷ []) (take 14 (encode put_a)) unread del_b (put_a-Fits, tt)
      bad_tail refl
