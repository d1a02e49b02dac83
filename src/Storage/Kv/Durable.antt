-- ===== src/Storage/Kv/Durable.antt =====
-- The log of an engine that met no failed write replays to its MemTable.
use db.Prelude.{
  ◌+◌, ◌<◌, ◌^◌, ◌≡◌, refl, sym, ap, ◌∙◌, true, false, List, [], ◌∷◌, ◌++◌, arith, Bytes, All,
  All-append, length, append-nil, ◌⊎◌, inl, inr,
}
use db.Storage.Entry.{Entry, encode}
use db.Storage.Entry.RoundTrip.{Fits}
use db.Storage.SortedArray
use db.Storage.SortedArray.{SortedArray}
use db.Storage.Log.{succeeds, write, apply, open_log, recovered, replay}
use db.Storage.Log.Replay.{log_bytes, apply_all}
use db.Storage.Log.Torn.{at_end, replay_clean, write_at-at_end, log_bytes-append, apply_all-append}
use db.Storage.Kv.Write.{applied}
use db.Storage.Sstable.{SortedFile}
use db.Storage.Kv.{Kv, UpdateMode, log_and_apply, set_existing, set_ex, del}

-- The log holds these records, and the MemTable is what they make.
pub record IsDurable (kv : Kv) (es : List Entry) : Type 0 where
  pub log_eq : kv.log ≡ at_end (log_bytes es)
  pub mem_eq : kv.mem ≡ apply_all SortedArray.empty es
  pub fit : All Fits es

-- A call on the engine.
pub data Op : Type 0 where
  set_op : Bytes → Bytes → UpdateMode → Op
  del_op : Bytes → Op

abbrev pub OpFits : Op → Type 0
OpFits (set_op k v mode) = length k + length v < 2 ^ 32
OpFits (del_op k) = length k < 2 ^ 32

abbrev pub perform : Kv → Op → Kv
perform kv (set_op k v mode) = (set_ex succeeds kv k v mode).0
perform kv (del_op k) = (del succeeds kv k).0

abbrev pub run : Kv → List Op → Kv
run kv [] = kv
run kv (op ∷ ops) = run (perform kv op) ops

-- An engine with an empty log, over any SSTables.
abbrev pub started : List SortedFile → Kv
started main = record { log = at_end []; mem = SortedArray.empty; main = main }

write-at_end :
    (es : List Entry) (e : Entry)
    → (write succeeds (at_end (log_bytes es)) e).0 ≡ at_end (log_bytes (es ++ e ∷ []))
unfolding write
write-at_end es e =
    rw (
      write_at-at_end (log_bytes es) (encode e),
      log_bytes-append es (e ∷ []),
      append-nil (encode e),
    )

abbrev entry_of : Op → Entry
entry_of (set_op k v mode) = record { key = k; val = v; deleted = false }
entry_of (del_op k) = record { key = k; val = []; deleted = true }

abbrev change_of : Op → SortedArray → SortedArray
change_of (set_op k v mode) mem = (SortedArray.set_entry mem k v).0
change_of (del_op k) mem = SortedArray.del mem k

change-apply : (op : Op) (mem : SortedArray) → change_of op mem ≡ apply mem (entry_of op)
unfolding apply
change-apply (set_op k v mode) mem = refl
change-apply (del_op k) mem = refl

-- A call changes nothing, or writes one log record and applies it.
perform_cases :
    (kv : Kv) (op : Op)
    → (perform kv op ≡ kv)
      ⊎ (perform kv op ≡ (log_and_apply succeeds kv (entry_of op) (change_of op)).0)
unfolding set_ex set_existing del
perform_cases kv (set_op k v mode) = ground arith
perform_cases kv (del_op k) = ground arith

entry-Fits : (op : Op) → OpFits op → Fits (entry_of op)
entry-Fits (set_op k v mode) f = f
entry-Fits (del_op k) f = omega arith

module _ (kv : Kv) (es : List Entry) (d : IsDurable kv es) where
  log_and_apply-IsDurable :
      (e : Entry) (change : SortedArray → SortedArray)
      → change kv.mem ≡ apply kv.mem e
      → Fits e
      → IsDurable (log_and_apply succeeds kv e change).0 (es ++ e ∷ [])
  log_and_apply-IsDurable e change same f = rw (applied kv e change) (record {
    log_eq = rw d.log_eq (write-at_end es e);
    mem_eq =
        same ∙ ap (λ m. apply m e) d.mem_eq ∙ sym (apply_all-append SortedArray.empty es (e ∷ []));
    fit = All-append Fits es (e ∷ []) d.fit (f, tt);
  })

  perform-IsDurable : (op : Op) → OpFits op → (fs : List Entry) × IsDurable (perform kv op) fs
  perform-IsDurable op f = elim (perform_cases kv op) [
    | inl e ↦ (es, rw e d)
    | inr e ↦ (
      es ++ entry_of op ∷ [],
      rw e (
          log_and_apply-IsDurable (entry_of op) (change_of op) (change-apply op kv.mem)
            (entry-Fits op f)),
    )
  ]

run-IsDurable :
    (kv : Kv) (ops : List Op) (es : List Entry)
    → IsDurable kv es
    → All OpFits ops
    → (fs : List Entry) × IsDurable (run kv ops) fs
run-IsDurable kv [] es d f = (es, d)
run-IsDurable kv (op ∷ ops) es d f =
    let (fs, d') = perform-IsDurable kv es d op f.0 in run-IsDurable (perform kv op) ops fs d' f.1

-- After any calls of `SetEx` and `Del` on an engine that started with an empty log and MemTable, with
-- sizes that fit 32 bits and log writes that succeeded, replaying the log gives the MemTable and the
-- log of the engine that was running: a restart loses and adds nothing.
pub replay-run :
    (main : List SortedFile) (ops : List Op)
    → All OpFits ops
    → replay (open_log (run (started main) ops).log.content)
      ≡ recovered (run (started main) ops).mem (run (started main) ops).log
replay-run main ops f =
    let (es, d) =
      run-IsDurable (started main) ops [] (record { log_eq = refl; mem_eq = refl; fit = tt }) f in
    rw (d.log_eq, d.mem_eq) (replay_clean es d.fit)
