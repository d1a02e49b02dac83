-- ===== src/Tests/Meta.antt =====
-- A store of two metadata slots, with a small text form in place of JSON.
use db.Prelude.{
  ℕ, zero, suc, ◌≡◌, refl, sym, none, ap, ◌∙◌, false, List, [], ◌∷◌, ◌++◌, append_assoc, append-nil,
  map, some, Option, Bytes, take,
}
use db.Bytes.Endian.{le_bytes, from_le}
use db.Bytes.Crc.{crc32}
use db.Storage.Meta.{
  KvMetaData, Json, ReadsBack, KvMetaStore, succeeds, short_write, open_store, open_item,
  slot_bytes, get, set_data, current, stale,
}
use db.Storage.Meta.Store.{reopen, open_store-IsLoaded, get-reopen, get-reopen_torn}
use db.Tests.Data.{key_a}

-- The version, then the names, each shifted by one and closed by a zero.
abbrev names_text : List Bytes → Bytes
names_text [] = []
names_text (n ∷ ns) = map suc n ++ 0 ∷ names_text ns

abbrev read_names : Bytes → Bytes → List Bytes
read_names seen [] = []
read_names seen (zero ∷ text) = seen ∷ read_names [] text
read_names seen (suc b ∷ text) = read_names (seen ++ b ∷ []) text

read_names-name :
    (seen n text : Bytes)
    → read_names seen (map suc n ++ 0 ∷ text) ≡ (seen ++ n) ∷ read_names [] text
read_names-name seen [] text = ap (λ (s : Bytes). s ∷ read_names [] text) (sym (append-nil seen))
read_names-name seen (b ∷ n) text =
    read_names-name (seen ++ b ∷ []) n text
    ∙ ap (λ (s : Bytes). s ∷ read_names [] text) (append_assoc seen (b ∷ []) n)

pub read_names-names_text : (ns : List Bytes) → read_names [] (names_text ns) ≡ ns
read_names-names_text [] = refl
read_names-names_text (n ∷ ns) =
    read_names-name [] n (names_text ns) ∙ ap (λ (t : List Bytes). n ∷ t) (read_names-names_text ns)

abbrev read_text : ℕ → Bytes → Option KvMetaData
read_text version [] = none
read_text version (v ∷ text) = some (record { version = v; sstables = read_names [] text })

abbrev with_names : KvMetaData → List Bytes → KvMetaData
with_names d ns = record { version = d.version; sstables = ns }

abbrev pub text_form : Json
text_form = record { marshal = λ d. d.version ∷ names_text d.sstables; unmarshal = read_text }

pub text_form-ReadsBack : (d : KvMetaData) → ReadsBack text_form d
text_form-ReadsBack d version =
    ap (λ (ns : List Bytes). some (with_names d ns)) (read_names-names_text d.sstables)

abbrev old_data : KvMetaData
old_data = record { version = 3; sstables = key_a ∷ [] }

abbrev new_data : KvMetaData
new_data = record { version = 4; sstables = [] }

-- The first slot holds version 3, the second file is empty.
abbrev old_file : Bytes
old_file = slot_bytes text_form old_data

abbrev loaded : KvMetaStore
loaded = open_store text_form old_file []

fresh : stale text_form loaded new_data ≡ false
unfolding open_store open_item slot_bytes current le_bytes from_le crc32
fresh = refl

torn : (open_item text_form (take 11 (slot_bytes text_form new_data))).valid ≡ false
unfolding open_item slot_bytes current le_bytes from_le crc32
torn = refl

get-reopen_example :
    get (reopen text_form (set_data text_form succeeds loaded new_data).0) ≡ new_data
get-reopen_example =
    get-reopen text_form loaded new_data (text_form-ReadsBack new_data)
      (open_store-IsLoaded text_form old_file []) fresh

get-reopen_torn_example :
    get (reopen text_form (set_data text_form (short_write 11) loaded new_data).0) ≡ get loaded
get-reopen_torn_example =
    get-reopen_torn text_form loaded new_data 11 (open_store-IsLoaded text_form old_file []) fresh
      torn
