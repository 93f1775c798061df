-- ===== src/Storage/Local.antt =====
-- storage/local/local.go: an append-only log on disk with an index of offsets in memory.
-- The file is its bytes. What the disk does to a write is an argument of each method that writes.
mod Header
pub mod Record
pub mod Slots
pub mod Recovery
pub mod Writes
pub mod Torn
pub mod Compaction
pub mod Runs
pub use go_search.Base.Bytes.{Bytes, uint32}
pub use Header.{header_size, type_put, type_delete, RecordHeader}
unfoldable pub use Header.{encode_header, decode_header}
pub use Header.{length-encode_header, decode-encode_header}
use go_search.Base.{
  ℕ, zero, suc, ◌+◌, Bool, true, false, ◌&&◌, Option, none, some, List, [], ◌∷◌, ◌++◌, ltb, leb,
  ◌==◌, if◌then◌else◌, length, take, drop, Str,
}
use go_search.Base.Map.{Map, lookup, insert, delete, has}

pub record Entry : Type 0 where
  pub offset : ℕ
  pub size : ℕ

-- `file` is what stands on disk; `is_open` says whether `s.file` is a live handle.
pub record Store : Type 0 where
  pub file : Bytes
  pub entries : Map Entry
  pub is_open : Bool

-- A write puts all its bytes, or the first `n` of them and returns an error.
pub data Outcome : Type 0 where
  done : Outcome
  fails : ℕ → Outcome

unfoldable pub write : Outcome → Bytes → Bytes → Bytes × Bool
write done bytes file = (file ++ bytes, true)
write (fails n) bytes file = (file ++ take n bytes, false)

-- Writes in turn, up to the first that fails.
unfoldable pub write_all : List (Outcome × Bytes) → Bytes → Bytes × Bool
unfolding write
write_all [] file = (file, true)
write_all ((o, bytes) ∷ rest) file =
    let (file', ok) = write o bytes file in
    let more = write_all rest file' in if ok then more else (file', false)

-- What the disk does in one `Put` or `Delete`.
pub record Disk : Type 0 where
  pub seek : Bool
  pub header : Outcome
  pub key : Outcome
  pub value : Outcome

abbrev pub sound_disk : Disk
sound_disk = record { seek = true; header = done; key = done; value = done }

-- The header that `Put` and `Compact`, and the one that `Delete`, write.
abbrev pub put_header : Str → Bytes → Bytes
put_header key value =
    encode_header
      (record { type = type_put; key_len = uint32 (length key); val_len = uint32 (length value) })

abbrev pub delete_header : Str → Bytes
delete_header key =
    encode_header (record { type = type_delete; key_len = uint32 (length key); val_len = 0 })

-- Each method that may fail returns the store beside "no error".
unfoldable pub put : Disk → Str → Bytes → Store → Store × Bool
unfolding write_all
put disk key value s =
    let offset = length s.file in
    let (file, ok) =
      write_all ((disk.header, put_header key value) ∷ (disk.key, key) ∷ (disk.value, value) ∷ [])
        s.file in
    let record_size = header_size + length key + length value in
    if s.is_open && disk.seek
    then (if ok
        then (
          record s {
            file = file;
            entries = insert key (record { offset = offset; size = record_size }) s.entries;
          },
          true,
        )
        else (record s { file = file }, false))
    else (s, false)

unfoldable pub remove : Disk → Str → Store → Store × Bool
unfolding write_all
remove disk key s =
    let (file, ok) = write_all ((disk.header, delete_header key) ∷ (disk.key, key) ∷ []) s.file in
    if s.is_open && disk.seek
    then (if ok
        then (record s { file = file; entries = delete key s.entries }, true)
        else (record s { file = file }, false))
    else (s, false)

-- `ReadAt` of `n` bytes: an error unless they are all there.
unfoldable pub read_at : Bytes → ℕ → ℕ → Option Bytes
read_at file offset n =
    if leb (offset + n) (length file) then some (take n (drop offset file)) else none

-- The value and `true`, `false`, or a slice out of range.
pub data Got : Type 0 where
  found : Bytes → Got
  missing : Got
  panics : Got

unfoldable pub value_of : RecordHeader → Bytes → Got
value_of header buf =
    let value_offset = header_size + header.key_len in
    if leb (value_offset + header.val_len) (length buf)
    then (if header.type == type_put
        then found (take header.val_len (drop value_offset buf))
        else missing)
    else panics

unfoldable pub get_buf : Bytes → Got
unfolding value_of
get_buf buf = elim (decode_header (take header_size buf)) [
  | none ↦ panics
  | some header ↦ value_of header buf
]

unfoldable pub get_entry : Store → Entry → Got
get_entry s e =
    if s.is_open
    then elim (read_at s.file e.offset e.size) [ none ↦ missing | some buf ↦ get_buf buf ]
    else missing

unfoldable pub get : Store → Str → Got
get s key = elim (lookup key s.entries) [ none ↦ missing | some e ↦ get_entry s e ]

unfoldable pub size : Store → ℕ
size s = length s.entries

unfoldable pub has_key : Store → Str → Bool
has_key s key = has key s.entries

-- The pairs that `fn` is called with; `none` is a panic on the way.
each_of : Store → List (Str × Entry) → Option (List (Str × Bytes))
each_of s [] = some []
each_of s ((key, e) ∷ rest) =
    let more = each_of s rest in
    elim (get s key) [
      | found value ↦ elim more [ none ↦ none | some kvs ↦ some ((key, value) ∷ kvs) ]
      | missing ↦ more
      | panics ↦ none
    ]

unfoldable pub each : Store → Option (List (Str × Bytes))
unfolding each_of
each s = each_of s s.entries

unfoldable pub close : Store → Store
close s = record s { is_open = false }

-- `readHeader`: `none` at the end of the file, also behind a truncated header.
unfoldable pub read_header : Bytes → Option RecordHeader
read_header rest = if leb header_size (length rest) then decode_header rest else none

-- One step of the loop of `loadEntries` on the entries: what the record that was read does.
unfoldable pub load_record : RecordHeader → Str → ℕ → Map Entry → Map Entry
load_record header key offset entries =
    let record_size = header_size + header.key_len + header.val_len in
    if header.type == type_put
    then insert key (record { offset = offset; size = record_size }) entries
    else delete key entries

-- The loop: `rest` is what the cursor has not passed. The seek over the value may pass the end.
unfoldable pub load_from : ℕ → Bytes → ℕ → Map Entry → Map Entry
load_from zero rest offset entries = entries
load_from (suc fuel) rest offset entries = elim (read_header rest) [
  | none ↦ entries
  | some header ↦
      let body = drop header_size rest in
      let key = take header.key_len body in
      let next =
        load_from fuel (drop header.val_len (drop header.key_len body))
          (offset + (header_size + header.key_len + header.val_len))
          (load_record header key offset entries) in
      if ltb (length body) header.key_len then entries else next
]

-- Each round passes a header, so one round more than the file has bytes is enough.
unfoldable pub load_entries : Bytes → Map Entry
load_entries file = load_from (suc (length file)) file 0 []

-- `New` on a file that holds these bytes.
unfoldable pub open_file : Bytes → Store
open_file file = record { file = file; entries = load_entries file; is_open = true }

-- The loop of `Compact`: what is in the temporary file, and the index for it.
unfoldable pub compact_loop :
    Store → List (Str × Entry) → Bytes → Map Entry → ℕ → Option (Bytes × Map Entry)
compact_loop s [] out new_entries offset = some (out, new_entries)
compact_loop s ((key, e) ∷ rest) out new_entries offset = elim (get s key) [
  | found value ↦
      let record_size = header_size + length key + length value in
      compact_loop s rest (out ++ (put_header key value ++ (key ++ value)))
        (insert key (record { offset = offset; size = record_size }) new_entries)
        (offset + record_size)
  | missing ↦ compact_loop s rest out new_entries offset
  | panics ↦ none
]

-- How far the disk lets `Compact` come.
pub data CompactDisk : Type 0 where
  completes create_fails temp_fails rename_fails reopen_fails : CompactDisk

-- After the loop: the old handle is closed, the temporary file renamed over the log and reopened.
unfoldable pub compact_swap : CompactDisk → Store → Bytes × Map Entry → Store × Bool
compact_swap completes s (out, new_entries) =
    (record { file = out; entries = new_entries; is_open = true }, true)
compact_swap create_fails s (out, new_entries) = (s, false)
compact_swap temp_fails s (out, new_entries) = (s, false)
compact_swap rename_fails s (out, new_entries) = (record s { is_open = false }, false)
compact_swap reopen_fails s (out, new_entries) = (record s { file = out; is_open = false }, false)

-- `none` is a panic.
unfoldable pub compact : CompactDisk → Store → Option (Store × Bool)
unfolding compact_swap
compact disk s = elim (compact_loop s s.entries [] [] 0) [
  | none ↦ none
  | some r ↦ some (compact_swap disk s r)
]
