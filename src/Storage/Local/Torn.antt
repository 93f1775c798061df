-- ===== src/Storage/Local/Torn.antt =====
-- A crash of storage/local/local.go in the middle of a `Put`, and what `New` makes of it.
use go_search.Base.{
  ℕ, zero, suc, ◌+◌, ◌≤◌, ◌<◌, ◌≡◌, refl, some, List, [], ◌∷◌, ◌++◌, arith, length, length-append,
  length-take, Str, same_refl, All, take, drop,
}
use go_search.Base.Map.{Map, lookup, lookup-insert}
use go_search.Storage.Local.{
  Bytes, Entry, header_size, put_header, open_file, load_from, load_entries, read_at, get,
  get_entry, missing, put_header,
}
use go_search.Storage.Local.Record.{Fits, length-put_record}
use go_search.Storage.Local.Recovery.{
  Rec, RecFits, encode_log, load_put, load_entries-Loaded, load_from_short,
}

-- The bytes of a `Put` whose value was cut off after `n` bytes.
abbrev pub torn_record : Str → Bytes → ℕ → Bytes
torn_record key value n = put_header key value ++ (key ++ take n value)

drop_short {ℓ} : {A : Type ℓ} (n : ℕ) (xs : List A) → length xs ≤ n → drop n xs ≡ []
drop_short zero [] h = refl
drop_short zero (x ∷ xs) h = absurd (omega arith)
drop_short (suc n) [] h = refl
drop_short (suc n) (x ∷ xs) h = drop_short n xs (omega arith)

load_from-nil :
    (fuel : ℕ) (offset : ℕ) (entries : Map Entry) → load_from fuel [] offset entries ≡ entries
unfolding load_from
load_from-nil zero offset entries = refl
load_from-nil (suc fuel) offset entries = load_from_short fuel [] offset entries (omega arith)

-- An entry that reaches past the end of the file answers nothing.
get_past_end :
    (file : Bytes) (key : Str) (e : Entry)
    → lookup key (load_entries file) ≡ some e
    → length file < e.offset + e.size
    → get (open_file file) key ≡ missing
unfolding get get_entry open_file read_at
get_past_end file key e h lt = ground (arith, h, lt)

torn_entries :
    (log : List Rec) (key : Str) (value : Bytes) (n : ℕ)
    → All RecFits log
    → Fits key value
    → lookup key (load_entries (encode_log log ++ torn_record key value n))
      ≡ some (record {
        offset = length (encode_log log);
        size = header_size + length key + length value;
      })
torn_entries log key value n fits f =
    let l = load_entries-Loaded log (torn_record key value n) fits in
    rw (
      l.loads,
      load_put key (take n value) value l.left (length (encode_log log)) l.loaded f,
      drop_short (length value) (take n value) (omega (arith, length-take n value)),
      load_from-nil,
      lookup-insert,
      same_refl,
    )

-- With a log of whole records and a last `Put` cut off inside its value, where all lengths of keys
-- and values are below 2^32, `Get` finds nothing under the key after reopening, whatever the whole
-- records hold for it.
pub get-torn :
    (log : List Rec) (key : Str) (value : Bytes) (n : ℕ)
    → All RecFits log
    → Fits key value
    → n < length value
    → get (open_file (encode_log log ++ torn_record key value n)) key ≡ missing
get-torn log key value n fits f lt = get_past_end _ key _ (torn_entries log key value n fits f) (
    omega (
      arith,
      length-append (encode_log log) (torn_record key value n),
      length-append (put_header key value) (key ++ take n value),
      length-append key (take n value),
      length-put_record key value,
      length-append (put_header key value) (key ++ value),
      length-append key value,
      length-take n value,
    ))
