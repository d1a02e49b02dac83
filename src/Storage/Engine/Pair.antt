-- ===== src/Storage/Engine/Pair.antt =====
-- storage/kv.go: compacting two neighbouring levels keeps what `Get` answers.
use db.Prelude.{
  ℕ, ◌+◌, ◌*◌, ◌^◌, ◌<◌, ◌≡◌, ◌≢◌, refl, sym, ap, subst, ◌∙◌, true, List, [], ◌∷◌, ◌++◌, none, some,
  arith, Bytes, All, All-append, length, ◌==◌, take, drop, get_or, take-append,
}
use db.Storage.Run.{Rec, IsSorted}
use db.Storage.Sstable.{SortedFile, file_of}
use db.Storage.Sstable.Disk.{open_file}
use db.Storage.Sstable.Disk.Read.{Sized}
use db.Storage.Sstable.Disk.Write.{data_size}
use db.Storage.Meta.{KvMetaData, Json, succeeds, KvMetaStore}
use db.Storage.Meta
use db.Storage.Kv
use db.Storage.Kv.{Kv}
use db.Storage.Kv.Lookup.{get-first_hit}
use db.Storage.Engine.{
  Engine, update, content_of, next_version, merge_files, install, remove_old, compact_pair,
}
use db.Storage.Engine.Stored.{
  IsStored, Named, InUse, Distinct, update-Opens, installed, installed-IsStored, fresh,
}
use db.Storage.Engine.Answers.{is_last, answer-append, answer-coalesced, last_test}
use db.Storage.Engine.Names.{
  removable, Cut, cut, All-left, All-right, get_or-first, get_or-second, drop-two,
}
use db.Storage.Engine.Coalesce.{coalesced, coalesced-IsSorted, merge_files_lem}

cut_names :
    (old pre post : List Bytes) (a b new : Bytes) (i : ℕ)
    → old ≡ pre ++ a ∷ b ∷ post
    → length pre ≡ i
    → take i old ++ new ∷ drop (i + 2) old ≡ pre ++ new ∷ post
cut_names old pre post a b new i e l =
    rw (e, ← l, take-append pre (a ∷ b ∷ post), drop-two pre post a b) refl

module _ (json : Json) (name_of : ℕ → Bytes) where
  pair_step :
      (e e' : Engine) (i n : ℕ) (fu fl : SortedFile) (file : Bytes)
      → merge_files fu fl
          (i + 2 == length e.kv.main)
          (content_of e.dir (name_of (next_version json name_of e)))
        ≡ some (n, file)
      → install json name_of succeeds e file (
          take i (Meta.get e.meta).sstables
          ++ name_of (next_version json name_of e) ∷ drop (i + 2) (Meta.get e.meta).sstables)
        ≡ (e', true)
      → compact_pair json name_of succeeds e i fu fl ≡ (
        remove_old
            (get_or (Meta.get e.meta).sstables i [])
            (get_or (Meta.get e.meta).sstables (i + 1) [])
            e',
        true,
      )
  unfolding compact_pair
  pair_step e e' i n fu fl file made run = ground (arith, made, run)

  -- Two files that the metadata no longer names are removed.
  remove_old-IsStored :
      (a b : Bytes) (e : Engine) (rs : List Rec) (runs : List (List Rec))
      → All (λ m. m ≢ a) (Meta.get e.meta).sstables
      → All (λ m. m ≢ b) (Meta.get e.meta).sstables
      → IsStored json name_of e rs runs
      → IsStored json name_of (remove_old a b e) rs runs
  unfolding remove_old
  remove_old-IsStored a b e rs runs f g h =
      let names = (Meta.get e.meta).sstables in
      record {
        valid = h.valid;
        opens =
            update-Opens (update a none e.dir) b none names runs g
              (update-Opens e.dir a none names runs f h.opens);
        named = h.named;
        distinct = h.distinct;
        up_to = h.up_to;
      }

  remove_old_kv :
      (a b : Bytes) (e : Engine)
      → ((remove_old a b e).kv ≡ e.kv) × ((remove_old a b e).version ≡ e.version)
  unfolding remove_old
  remove_old_kv a b e = (refl, refl)

  module _ (injective : (u v : ℕ) → u < 2 ^ 64 → v < 2 ^ 64 → name_of u ≡ name_of v → u ≡ v) where
    -- In a sound engine whose file names are injective, compacting the neighbours `upper` and `lower`, of
    -- records whose key and value take less than 2 ^ 32 bytes, with file and version in range and a metadata
    -- write that succeeds, returns nil. The two levels are one then, their merge, without its tombstones if no level is
    -- below; the other levels and the MemTable are as before; and `Get` answers for every
    -- key what it did.
    pub get-compact_pair :
        (e : Engine) (rs : List Rec) (above : List (List Rec)) (upper lower : List Rec)
        (below : List (List Rec))
        → IsStored json name_of e rs (above ++ upper ∷ lower ∷ below)
        → e.version + 1 < 2 ^ 64
        → All Sized upper
        → All Sized lower
        → 8 + 8 * (length upper + length lower) + (data_size upper + data_size lower) < 2 ^ 63
        → (e' : Engine) × (compact_pair json name_of succeeds e
              (length above)
              (file_of upper)
              (file_of lower)
            ≡ (e', true))
          × IsStored json name_of e' rs (above ++ coalesced (is_last below) upper lower ∷ below)
          × (e'.version ≡ e.version + 1)
          × ((k : Bytes) → Kv.get e'.kv k ≡ Kv.get e.kv k)
    get-compact_pair e rs above upper lower below h l zu zl s =
        let old = (Meta.get e.meta).sstables in
        let cut' = cut e.dir old above upper lower below h.opens in
        let sa = All-left IsSorted above (upper ∷ lower ∷ below) h.valid.sorted in
        let sb = All-right IsSorted above (upper ∷ lower ∷ below) h.valid.sorted in
        let (n, file, made, back) =
          merge_files_lem upper lower (is_last below)
            (content_of e.dir (name_of (next_version json name_of e))) sb.0 sb.1.0 zu zl s in
        let test = last_test above upper lower below e.kv.main h.valid.main_eq in
        placed cut' sa sb n file (rw test made) back
      where
        placed :
            Cut e.dir (Meta.get e.meta).sstables above upper lower below
            → All IsSorted above
            → All IsSorted (upper ∷ lower ∷ below)
            → (n : ℕ) (file : Bytes)
            → merge_files
                (file_of upper)
                (file_of lower)
                (length above + 2 == length e.kv.main)
                (content_of e.dir (name_of (next_version json name_of e)))
              ≡ some (n, file)
            → open_file file ≡ some (file_of (coalesced (is_last below) upper lower))
            → (e' : Engine) × (compact_pair json name_of succeeds e
                  (length above)
                  (file_of upper)
                  (file_of lower)
                ≡ (e', true))
              × IsStored json name_of e' rs (above ++ coalesced (is_last below) upper lower ∷ below)
              × (e'.version ≡ e.version + 1)
              × ((k : Bytes) → Kv.get e'.kv k ≡ Kv.get e.kv k)
        placed c sa sb n file made back =
            let old = (Meta.get e.meta).sstables in
            let new = name_of (e.version + 1) in
            let q = coalesced (is_last below) upper lower in
            let names = subst (Named json name_of e.version) c.names_eq h.named in
            let unused =
              fresh json name_of injective e.version (c.pre ++ c.first ∷ c.second ∷ c.post) l
                names in
            let ends =
              All-right (λ (m : Bytes). m ≢ new) c.pre (c.first ∷ c.second ∷ c.post) unused in
            let (distinct, others_first, others_second) =
              removable c.pre c.post c.first c.second new (subst Distinct c.names_eq h.distinct)
                (ends.0, ends.1.0) in
            let sq = coalesced-IsSorted upper lower (is_last below) sb.0 sb.1.0 in
            let (m, got, loaded, run, stored) =
              installed-IsStored json name_of injective e rs (above ++ upper ∷ lower ∷ below) h l
                c.pre c.post above below q file c.opens_pre c.opens_post
                (All-left (InUse json name_of e.version) c.pre (c.first ∷ c.second ∷ c.post) names)
                (All-right (InUse json name_of e.version) c.pre (c.first ∷ c.second ∷ c.post)
                  names).1.1
                distinct (All-append IsSorted above (q ∷ below) sa (sq, sb.1.1)) back in
            let e1 = installed json name_of e m file (above ++ q ∷ below) in
            let i = length above in
            let a = get_or old i [] in
            let b = get_or old (i + 1) [] in
            let named : (Meta.get m).sstables ≡ c.pre ++ new ∷ c.post =
              ap (λ (x : KvMetaData). x.sstables) got in
            let a_eq : a ≡ c.first =
              rw (c.names_eq, ← c.length_eq) (get_or-first c.pre (c.second ∷ c.post) c.first []) in
            let b_eq : b ≡ c.second =
              rw (c.names_eq, ← c.length_eq) (get_or-second c.pre c.post c.first c.second []) in
            let same : e.version + 1 ≡ next_version json name_of e = omega arith in
            let run' =
              subst
                (λ (v : ℕ).
                  install json name_of succeeds e file (take i old ++ name_of v ∷ drop (i + 2) old)
                  ≡ (e1, true))
                same
                (subst (λ (ns : List Bytes). install json name_of succeeds e file ns ≡ (e1, true))
                  (sym (cut_names old c.pre c.post c.first c.second new i c.names_eq c.length_eq))
                  run) in
            let gone : (m : Bytes)
                → All (λ x. x ≢ m) (c.pre ++ new ∷ c.post)
                → All (λ x. x ≢ m) (Meta.get e1.meta).sstables =
              λ m h. subst (λ (ns : List Bytes). All (λ x. x ≢ m) ns) (sym named) h in
            let kept =
              remove_old-IsStored a b e1 rs (above ++ q ∷ below)
                (rw a_eq (gone c.first others_first)) (rw b_eq (gone c.second others_second))
                stored in
            let (kv_eq, version_eq) = remove_old_kv a b e1 in
            (
              remove_old a b e1,
              pair_step e e1 i n (file_of upper) (file_of lower) file made run',
              kept,
              version_eq,
              λ k.
                  get-first_hit (remove_old a b e1).kv rs (above ++ q ∷ below) k kept.valid
                  ∙ answer-append k (rs ∷ above) (q ∷ below) (upper ∷ lower ∷ below)
                      (answer-coalesced k upper lower below sb.0 sb.1.0)
                  ∙ sym (get-first_hit e.kv rs (above ++ upper ∷ lower ∷ below) k h.valid),
            )
