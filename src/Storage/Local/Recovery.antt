-- ===== src/Storage/Local/Recovery.antt =====
-- `loadEntries` of storage/local/local.go: what `New` makes of the bytes of a log.
use go_search.Base.{
  ℕ, zero, suc, ◌+◌, ◌≤◌, ◌<◌, ◌^◌, ◌≡◌, ap, ◌∙◌, some, List, [], ◌∷◌, ◌++◌, append_assoc,
  append-nil, arith, length, Str, All, take-append, drop-append, take, drop, length-append,
}
use go_search.Base.Map.{Map, insert, delete, lookup-empty}
use go_search.Storage.Local.{
  Bytes, Entry, header_size, uint32, RecordHeader, type_put, type_delete, put_header, delete_header,
  read_header, load_record, load_from, load_entries, length-encode_header, decode_header,
}
use go_search.Storage.Local.Record.{
  Fits, put_record, delete_record, length-put_record, length-delete_record, decode-put_header,
  decode-delete_header, drop-header,
}
use go_search.Storage.Local.Slots.{Agrees, Agrees-append, Agrees-append_put, Agrees-delete}

-- The records of a log, what they are on disk, and what they do to the contents.
pub data Rec : Type 0 where
  stored : Str → Bytes → Rec
  removed : Str → Rec

abbrev pub encode_rec : Rec → Bytes
encode_rec (stored key value) = put_record key value
encode_rec (removed key) = delete_record key

abbrev pub encode_log : List Rec → Bytes
encode_log [] = []
encode_log (r ∷ log) = encode_rec r ++ encode_log log

abbrev pub RecFits : Rec → Type 0
RecFits (stored key value) = Fits key value
RecFits (removed key) = length key < 2 ^ 32

abbrev pub apply : Rec → Map Bytes → Map Bytes
apply (stored key value) contents = insert key value contents
apply (removed key) contents = delete key contents

abbrev pub replay : List Rec → Map Bytes → Map Bytes
replay [] contents = contents
replay (r ∷ log) contents = replay log (apply r contents)

-- One round of the loop behind a header that was read.
pub load_round :
    (fuel : ℕ) (rest : Bytes) (offset : ℕ) (entries : Map Entry) (header : RecordHeader)
    → read_header rest ≡ some header
    → header.key_len ≤ length (drop header_size rest)
    → load_from (suc fuel) rest offset entries
      ≡ load_from fuel
          (drop header.val_len (drop header.key_len (drop header_size rest)))
          (offset + (header_size + header.key_len + header.val_len))
          (load_record header (take header.key_len (drop header_size rest)) offset entries)
unfolding load_from
load_round fuel rest offset entries header h fits = rw (h, load_from) (ground arith)

read_header_of :
    (rest : Bytes) (header : RecordHeader)
    → header_size ≤ length rest
    → decode_header rest ≡ some header
    → read_header rest ≡ some header
unfolding read_header
read_header_of rest header n h = ground arith

module _ (key : Str) (tail : Bytes) where
  read_put :
      (value : Bytes)
      → Fits key value
      → read_header (put_header key value ++ (key ++ tail))
        ≡ some (record { type = type_put; key_len = length key; val_len = length value })
  read_put value fits =
      read_header_of _ _
        (omega (
          arith,
          length-append (put_header key value) (key ++ tail),
          length-encode_header (record {
            type = type_put;
            key_len = uint32 (length key);
            val_len = uint32 (length value);
          }),
        ))
        (decode-put_header key value (key ++ tail) fits)

  -- A `Put` record whose key is whole is entered, whether or not its value is there.
  pub load_put :
      (value : Bytes) (fuel offset : ℕ) (entries : Map Entry)
      → Fits key value
      → load_from (suc fuel) (put_header key value ++ (key ++ tail)) offset entries
        ≡ load_from fuel
            (drop (length value) tail)
            (offset + (header_size + length key + length value))
            (insert key
              (record { offset = offset; size = header_size + length key + length value })
              entries)
  unfolding load_record
  load_put value fuel offset entries fits =
      load_round fuel _ offset entries _ (read_put value fits)
        (rw drop-header (omega (arith, length-append key tail)))
      ∙ simp (drop-header, take-append, drop-append)

  read_delete :
      length key < 2 ^ 32
      → read_header (delete_header key ++ (key ++ tail))
        ≡ some (record { type = type_delete; key_len = length key; val_len = 0 })
  read_delete fits =
      read_header_of _ _
        (omega (
          arith,
          length-append (delete_header key) (key ++ tail),
          length-encode_header
              (record { type = type_delete; key_len = uint32 (length key); val_len = 0 }),
        ))
        (decode-delete_header key (key ++ tail) fits)

  load_delete :
      (fuel offset : ℕ) (entries : Map Entry)
      → length key < 2 ^ 32
      → load_from (suc fuel) (delete_header key ++ (key ++ tail)) offset entries
        ≡ load_from fuel tail (offset + (header_size + length key + 0)) (delete key entries)
  unfolding load_record
  load_delete fuel offset entries fits =
      load_round fuel _ offset entries _ (read_delete fits)
        (rw drop-header (omega (arith, length-append key tail)))
      ∙ simp (drop-header, take-append, drop-append)

-- A whole record in front of `rest`: the round enters it at the length of what precedes it.
put_step :
    (fuel : ℕ) (prefix rest : Bytes) (entries : Map Entry) (key : Str) (value : Bytes)
    → Fits key value
    → load_from (suc fuel) (put_record key value ++ rest) (length prefix) entries
      ≡ load_from fuel rest (length (prefix ++ put_record key value)) (
          insert key
            (record { offset = length prefix; size = header_size + length key + length value })
            entries)
put_step fuel prefix rest entries key value fits =
    rw (append_assoc (put_header key value) (key ++ value) rest, append_assoc key value rest)
      (load_put key (value ++ rest) value fuel (length prefix) entries fits
        ∙ rw (
          drop-append value rest,
          length-append prefix (put_record key value),
          length-put_record key value,
        ))

delete_step :
    (fuel : ℕ) (prefix rest : Bytes) (entries : Map Entry) (key : Str)
    → length key < 2 ^ 32
    → load_from (suc fuel) (delete_record key ++ rest) (length prefix) entries
      ≡ load_from fuel rest (length (prefix ++ delete_record key)) (delete key entries)
delete_step fuel prefix rest entries key fits = rw (append_assoc (delete_header key) key rest) (
    load_delete key rest fuel (length prefix) entries fits
    ∙ ap (λ (n : ℕ). load_from fuel rest n (delete key entries))
        (omega (arith, length-append prefix (delete_record key), length-delete_record key)))

-- What is left of the loop behind a part of the log, and the entries that it has by then.
pub record Loaded (start : Map Entry) (tail prefix : Bytes) (contents : Map Bytes) : Type 0 where
  pub left : ℕ
  pub loaded : Map Entry
  pub loads : start ≡ load_from (suc left) tail (length prefix) loaded
  pub agrees : Agrees prefix loaded contents

Loaded-step :
    {start next : Map Entry} {tail : Bytes} (prefix rec more : Bytes) {contents : Map Bytes}
    → start ≡ next
    → Loaded next tail ((prefix ++ rec) ++ more) contents
    → Loaded start tail (prefix ++ (rec ++ more)) contents
Loaded-step prefix rec more e l = record {
  left = l.left;
  loaded = l.loaded;
  loads = rw (← append_assoc prefix rec more) (e ∙ l.loads);
  agrees = rw (← append_assoc prefix rec more) l.agrees;
}

-- The loop on a log, behind a part that the entries already agree with.
pub load_from-Loaded :
    (log : List Rec) (tail : Bytes) (fuel : ℕ) (prefix : Bytes) (entries : Map Entry)
    (contents : Map Bytes)
    → All RecFits log
    → length (encode_log log) < fuel
    → Agrees prefix entries contents
    → Loaded
        (load_from fuel (encode_log log ++ tail) (length prefix) entries)
        tail
        (prefix ++ encode_log log)
        (replay log contents)
load_from-Loaded log tail zero prefix entries contents fits lt a = absurd (omega arith)
load_from-Loaded [] tail (suc fuel) prefix entries contents fits lt a = record {
  left = fuel;
  loaded = entries;
  loads = rw (append-nil prefix);
  agrees = rw (append-nil prefix) a;
}
load_from-Loaded (stored key value ∷ log) tail (suc fuel) prefix entries contents (f, fits) lt a =
    let rec = put_record key value in
    rw (append_assoc rec (encode_log log) tail) (
      Loaded-step prefix rec (encode_log log)
        (put_step fuel prefix (encode_log log ++ tail) entries key value f)
        (load_from-Loaded log tail fuel (prefix ++ rec) _ (insert key value contents) fits
          (omega (arith, lt, length-append rec (encode_log log), length-put_record key value))
          (Agrees-append_put key value f a)))
load_from-Loaded (removed key ∷ log) tail (suc fuel) prefix entries contents (f, fits) lt a =
    let rec = delete_record key in
    rw (append_assoc rec (encode_log log) tail) (
      Loaded-step prefix rec (encode_log log)
        (delete_step fuel prefix (encode_log log ++ tail) entries key f)
        (load_from-Loaded log tail fuel (prefix ++ rec) _ (delete key contents) fits
          (omega (arith, lt, length-append rec (encode_log log), length-delete_record key))
          (Agrees-append rec (Agrees-delete key a))))

pub nil-Agrees : Agrees [] [] []
nil-Agrees = record {
  at = λ key. rw (lookup-empty {V = Entry} key, lookup-empty {V = Bytes} key) tt;
}

-- `loadEntries` up to a tail that begins where the whole records end.
pub load_entries-Loaded :
    (log : List Rec) (tail : Bytes)
    → All RecFits log
    → Loaded (load_entries (encode_log log ++ tail)) tail (encode_log log) (replay log [])
unfolding load_entries
load_entries-Loaded log tail fits =
    load_from-Loaded log tail _ [] [] [] fits (omega (arith, length-append (encode_log log) tail))
      nil-Agrees

-- Behind a tail with no whole header the loop ends.
pub load_from_short :
    (fuel : ℕ) (tail : Bytes) (offset : ℕ) (entries : Map Entry)
    → length tail < header_size
    → load_from (suc fuel) tail offset entries ≡ entries
unfolding load_from read_header
load_from_short fuel tail offset entries lt = ground arith

-- When a log of whole records is loaded, with a tail of fewer than nine bytes behind it, the
-- entries agree with the contents that the records leave: a key has an entry exactly when its last
-- record is a put, and the entry is where that record stands.
pub load_entries-Agrees :
    (log : List Rec) (tail : Bytes)
    → All RecFits log
    → length tail < header_size
    → Agrees (encode_log log ++ tail) (load_entries (encode_log log ++ tail)) (replay log [])
load_entries-Agrees log tail fits lt =
    let l = load_entries-Loaded log tail fits in
    rw (l.loads, load_from_short l.left tail (length (encode_log log)) l.loaded lt)
      (Agrees-append tail l.agrees)
