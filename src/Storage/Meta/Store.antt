-- ===== src/Storage/Meta/Store.antt =====
-- Double buffering: a written version is the live one, now and after a restart, and a write that is
-- cut short leaves the old one live.
use db.Prelude.{ℕ, ◌≡◌, sym, ap, true, false, arith, Bytes, take}
use db.Storage.Meta.{
  KvMetaData, Json, ReadsBack, Io, succeeds, short_write, KvMetaStore, open_item, slot_bytes,
  write_item, open_store, get, stale, set_data,
}
use db.Storage.Meta.Slot.{open_item-slot_bytes}

module _ (json : Json) where
  -- What is in memory is what the two files hold.
  pub record IsLoaded (m : KvMetaStore) : Type 0 where
    pub first_loaded : m.first ≡ open_item json m.first.file
    pub second_loaded : m.second ≡ open_item json m.second.file

  -- The store after a restart.
  abbrev pub reopen : KvMetaStore → KvMetaStore
  reopen m = open_store json m.first.file m.second.file

  file-open_item : (a : Bytes) → (open_item json a).file ≡ a
  unfolding open_item
  file-open_item a = ground arith

  pub open_store-IsLoaded : (a b : Bytes) → IsLoaded (open_store json a b)
  unfolding open_store
  open_store-IsLoaded a b = record {
    first_loaded = sym (ap (λ (x : Bytes). open_item json x) (file-open_item a));
    second_loaded = sym (ap (λ (x : Bytes). open_item json x) (file-open_item b));
  }

  pub reopen-IsLoaded : (m : KvMetaStore) → IsLoaded m → reopen m ≡ m
  unfolding open_store
  reopen-IsLoaded m h = ground (arith, h.first_loaded, h.second_loaded)

  -- After a successful `Set` of metadata that is not stale, `Get` returns it.
  pub get-set_data :
      (m : KvMetaStore) (d : KvMetaData)
      → stale json m d ≡ false
      → get (set_data json succeeds m d).0 ≡ d
  unfolding get set_data write_item
  get-set_data m d h = ground arith

  -- A version that is not newer is refused, and nothing changes.
  pub set_data-stale :
      (io : Io) (m : KvMetaStore) (d : KvMetaData)
      → stale json m d ≡ true
      → set_data json io m d ≡ (m, false)
  unfolding set_data
  set_data-stale io m d h = ground arith

  pub set_data-IsLoaded :
      (m : KvMetaStore) (d : KvMetaData)
      → ReadsBack json d
      → IsLoaded m
      → IsLoaded (set_data json succeeds m d).0
  unfolding set_data write_item
  set_data-IsLoaded m d back h = ground (arith, open_item-slot_bytes json d back)

  -- In a store that holds what its two files do, a restart after a successful `Set` of metadata that
  -- is not stale finds the new metadata, where the text that encoding/json gives for them reads back.
  pub get-reopen :
      (m : KvMetaStore) (d : KvMetaData)
      → ReadsBack json d
      → IsLoaded m
      → stale json m d ≡ false
      → get (reopen (set_data json succeeds m d).0) ≡ d
  get-reopen m d back h fresh =
      rw (reopen-IsLoaded (set_data json succeeds m d).0 (set_data-IsLoaded m d back h))
        (get-set_data m d fresh)

  -- In a store that holds what its two files do, a write cut short after n bytes, where the bytes do not
  -- open as a valid slot, leaves the old metadata for a restart.
  pub get-reopen_torn :
      (m : KvMetaStore) (d : KvMetaData) (n : ℕ)
      → IsLoaded m
      → stale json m d ≡ false
      → (open_item json (take n (slot_bytes json d))).valid ≡ false
      → get (reopen (set_data json (short_write n) m d).0) ≡ get m
  unfolding get set_data write_item open_store
  get-reopen_torn m d n h fresh torn = ground arith
