-- ===== src/Tests/Kv.antt =====
-- Reads and writes of a small engine.
use db.Prelude.{◌≡◌, refl, ap, true, List, [], ◌∷◌, if◌then◌else◌, arith}
use db.Bytes.Order.{cmp, is_eq}
use db.Storage.Run.{find}
use db.Storage.Kv.{found, missing, get, mode_upsert, mode_insert, set_ex, del, done}
use db.Storage.Kv.Lookup.{answer, get-first_hit}
use db.Storage.Kv.Write.{get-set_ex, get-del, set_ex-failure, is_found, allowed}
use db.Storage.Kv.Durable.{started, run, Op, set_op, del_op, replay-run}
use db.Storage.Merge.Reference.{first_hit}
use db.Storage.Log.{succeeds, short_write, open_log, replay, recovered}
use db.Tests.Data.{key_a, key_b, key_c, mem_run, old_run, engine, engine-IsValid}

get-first_hit_example : get engine key_b ≡ answer (first_hit key_b (mem_run ∷ old_run ∷ []))
get-first_hit_example = get-first_hit engine mem_run (old_run ∷ []) key_b engine-IsValid

-- The tombstone of "b" hides the older value, and "c" is read from the file.
get_c : get engine key_c ≡ found (3 ∷ [])
unfolding find cmp
get_c = get-first_hit engine mem_run (old_run ∷ []) key_c engine-IsValid

get_b : get engine key_b ≡ missing
unfolding find cmp
get_b = get-first_hit engine mem_run (old_run ∷ []) key_b engine-IsValid

get-set_ex_example :
    get (set_ex succeeds engine key_b (9 ∷ []) mode_insert).0 key_c
    ≡ (if is_eq (cmp key_b key_c) then found (9 ∷ []) else get engine key_c)
get-set_ex_example =
    get-set_ex engine mem_run (old_run ∷ []) engine-IsValid key_b (9 ∷ []) key_c mode_insert
      (ap (λ g. allowed mode_insert (is_found g)) get_b)

get-del_example :
    get (del succeeds engine key_c).0 key_c
    ≡ (if is_eq (cmp key_c key_c) then missing else get engine key_c)
get-del_example =
    get-del engine mem_run (old_run ∷ []) engine-IsValid key_c key_c (ap is_found get_c)

set_ex-failure_example :
    (get (set_ex (short_write 5) engine key_b (9 ∷ []) mode_upsert).0 key_b ≡ get engine key_b)
    × ((set_ex (short_write 5) engine key_b (9 ∷ []) mode_upsert).1 ≡ done true → ⊥)
set_ex-failure_example = set_ex-failure (short_write 5) engine key_b (9 ∷ []) key_b mode_upsert refl

abbrev calls : List Op
calls = set_op key_a (1 ∷ []) mode_upsert ∷ set_op key_b (2 ∷ []) mode_insert ∷ del_op key_a ∷ []

replay-run_example :
    replay (open_log (run (started []) calls).log.content)
    ≡ recovered (run (started []) calls).mem (run (started []) calls).log
replay-run_example = replay-run [] calls (omega arith, (omega arith, (omega arith, tt)))
