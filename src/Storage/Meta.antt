-- ===== src/Storage/Meta.antt =====
-- storage/meta.go: the two metadata slots that name the live SSTables. The JSON text of the metadata
-- is made and read by encoding/json, which is a parameter here: `Json` holds the two functions. The files are byte lists; what the file system does with a
-- write is the argument `Io`.
pub mod Slot
pub mod Store
use db.Prelude.{
  ℕ, ◌<◌, ◌^◌, ◌≡◌, Bool, true, false, not, List, [], ◌∷◌, ◌++◌, Option, none, some, Bytes, length,
  take, drop, ltb, leb, ◌==◌, ◌&&◌, if◌then◌else◌,
}
use db.Bytes.Endian.{le_bytes, from_le}
use db.Bytes.Crc.{crc32}
use db.Bytes.Reader.{slice}

pub record KvMetaData : Type 0 where
  pub version : ℕ
  pub sstables : List Bytes

-- KvMetaData{}
abbrev pub no_data : KvMetaData
no_data = record { version = 0; sstables = [] }

-- json.Marshal, and json.Unmarshal into metadata that has a version and no names yet.
pub record Json : Type 0 where
  pub marshal : KvMetaData → Bytes
  pub unmarshal : ℕ → Bytes → Option KvMetaData

-- The text of this metadata reads back, as it does where every name is UTF-8.
abbrev pub ReadsBack : Json → KvMetaData → Type 0
ReadsBack json d = (version : ℕ) → json.unmarshal version (json.marshal d) ≡ some d

pub record KvMetaItem : Type 0 where
  pub file : Bytes
  pub meta : KvMetaData
  pub valid : Bool

-- The write, or the step at which it fails: Truncate, WriteAt after n bytes, or Sync.
pub data Io : Type 0 where
  succeeds truncate_fails sync_fails : Io
  short_write : ℕ → Io

module _ (json : Json) where
  -- open: read the slot's file; a short or corrupt one is ignored.
  unfoldable pub open_item : Bytes → KvMetaItem
  open_item buf =
      let version = from_le (slice 4 12 buf) in
      if ltb (length buf) 12
      then record { file = buf; meta = no_data; valid = false }
      else if not (crc32 (drop 4 buf) == from_le (slice 0 4 buf))
      then record { file = buf; meta = no_data; valid = false }
      else elim (json.unmarshal version (drop 12 buf)) [
        | none ↦ record {
          file = buf;
          meta = record { version = version; sstables = [] };
          valid = false;
        }
        | some d ↦ record { file = buf; meta = d; valid = true }
      ]

  -- crc32 | version | json(data)
  unfoldable pub slot_bytes : KvMetaData → Bytes
  slot_bytes d =
      let body = le_bytes 8 d.version ++ json.marshal d in le_bytes 4 (crc32 body) ++ body

  -- write: the item and whether nil was returned.
  unfoldable pub write_item : Io → KvMetaItem → KvMetaData → KvMetaItem × Bool
  write_item succeeds it d = (record { file = slot_bytes d; meta = d; valid = true }, true)
  write_item truncate_fails it d = (it, false)
  write_item sync_fails it d = (record it { file = slot_bytes d }, false)
  write_item (short_write n) it d = (record it { file = take n (slot_bytes d) }, false)

pub record KvMetaStore : Type 0 where
  pub first : KvMetaItem
  pub second : KvMetaItem

-- The index of the live slot: 0, 1 or -1.
pub data Current : Type 0 where
  in_first in_second in_neither : Current

unfoldable pub current : KvMetaStore → Current
current m =
    if m.first.valid && m.second.valid
    then (if leb m.second.meta.version m.first.meta.version then in_first else in_second)
    else if m.first.valid
    then in_first
    else if m.second.valid
    then in_second
    else in_neither

unfoldable pub get : KvMetaStore → KvMetaData
unfolding current
get m = elim (current m) [
  | in_first ↦ m.first.meta
  | in_second ↦ m.second.meta
  | in_neither ↦ no_data
]

module _ (json : Json) where
  -- Open reads both slots.
  unfoldable pub open_store : Bytes → Bytes → KvMetaStore
  open_store a b = record { first = open_item json a; second = open_item json b }

  -- cur >= 0 && data.Version <= m.slots[cur].meta.Version
  abbrev pub stale : KvMetaStore → KvMetaData → Bool
  stale m d = elim (current m) [
    | in_first ↦ leb d.version m.first.meta.version
    | in_second ↦ leb d.version m.second.meta.version
    | in_neither ↦ false
  ]

  abbrev write_first : Io → KvMetaStore → KvMetaData → KvMetaStore × Bool
  write_first io m d = let (it, ok) = write_item json io m.first d in (record m { first = it }, ok)

  abbrev write_second : Io → KvMetaStore → KvMetaData → KvMetaStore × Bool
  write_second io m d =
      let (it, ok) = write_item json io m.second d in (record m { second = it }, ok)

  -- Set: an old version is refused, and the slot that is not live is written.
  unfoldable pub set_data : Io → KvMetaStore → KvMetaData → KvMetaStore × Bool
  unfolding current
  set_data io m d =
      if stale m d
      then (m, false)
      else elim (current m) [ in_first ↦ write_second io m d | _ ↦ write_first io m d ]
