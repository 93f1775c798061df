-- ===== src/Storage/Local/Slots.antt =====
-- The live store of storage/local/local.go: every entry of the index leads to the record of its key.
use go_search.Base.{
  ◌+◌, ◌≡◌, refl, Bool, true, false, Option, none, some, ◌++◌, length, Str, same, same_iff,
}
use go_search.Base.Map.{Map, lookup, insert, delete, lookup-insert, lookup-delete}
use go_search.Storage.Local.{
  Bytes, Entry, Store, get, get_entry, Got, found, missing, header_size, read_at,
}
use go_search.Storage.Local.Record.{
  Fits, put_record, length-put_record, get_buf-put_record, read_at-append, read_at_end,
}

-- What the index has for a key against what the key holds.
abbrev pub Slot : Bytes → Str → Option Entry → Option Bytes → Type 0
Slot file key none none = Unit
Slot file key none (some v) = ⊥
Slot file key (some e) none = ⊥
Slot file key (some e) (some v) =
    (read_at file e.offset e.size ≡ some (put_record key v)) × Fits key v

pub record Agrees (file : Bytes) (entries : Map Entry) (contents : Map Bytes) : Type 0 where
  pub at : (key : Str) → Slot file key (lookup key entries) (lookup key contents)

-- The answer of `Get` that the contents call for.
abbrev pub answer : Option Bytes → Got
answer none = missing
answer (some v) = found v

Slot-append :
    (file more : Bytes) (key : Str) (e : Option Entry) (v : Option Bytes)
    → Slot file key e v
    → Slot (file ++ more) key e v
Slot-append file more key none none h = tt
Slot-append file more key none (some v) h = h
Slot-append file more key (some e) none h = h
Slot-append file more key (some e) (some v) (h, fits) =
    (read_at-append file more e.offset e.size h, fits)

pub Agrees-append :
    {file : Bytes} {entries : Map Entry} {contents : Map Bytes} (more : Bytes)
    → Agrees file entries contents
    → Agrees (file ++ more) entries contents
Agrees-append {file} more a = record { at = λ key. Slot-append file more key _ _ (a.at key) }

Slot-insert :
    (file : Bytes) (key j : Str) (value : Bytes) (entries : Map Entry) (contents : Map Bytes)
    (e : Entry) (b : Bool)
    → same key j ≡ b
    → read_at file e.offset e.size ≡ some (put_record key value)
    → Fits key value
    → Slot file j (lookup j entries) (lookup j contents)
    → Slot file j (lookup j (insert key e entries)) (lookup j (insert key value contents))
Slot-insert file key j value entries contents e true h r fits old =
    rw
      (lookup-insert key j e entries, lookup-insert key j value contents, h, ← (same_iff key j).0 h)
      (r, fits)
Slot-insert file key j value entries contents e false h r fits old =
    rw (lookup-insert key j e entries, lookup-insert key j value contents, h) old

-- An index entry for the record at `e` makes the key hold its value.
pub Agrees-insert :
    {file : Bytes} {entries : Map Entry} {contents : Map Bytes} (key : Str) (value : Bytes)
    (e : Entry)
    → read_at file e.offset e.size ≡ some (put_record key value)
    → Fits key value
    → Agrees file entries contents
    → Agrees file (insert key e entries) (insert key value contents)
Agrees-insert {file} {entries} {contents} key value e r fits a = record {
  at = λ j. Slot-insert file key j value entries contents e (same key j) refl r fits (a.at j);
}

Slot-delete :
    (file : Bytes) (key j : Str) (entries : Map Entry) (contents : Map Bytes) (b : Bool)
    → same key j ≡ b
    → Slot file j (lookup j entries) (lookup j contents)
    → Slot file j (lookup j (delete key entries)) (lookup j (delete key contents))
Slot-delete file key j entries contents true h old =
    rw (lookup-delete key j entries, lookup-delete key j contents, h) tt
Slot-delete file key j entries contents false h old =
    rw (lookup-delete key j entries, lookup-delete key j contents, h) old

pub Agrees-delete :
    {file : Bytes} {entries : Map Entry} {contents : Map Bytes} (key : Str)
    → Agrees file entries contents
    → Agrees file (delete key entries) (delete key contents)
Agrees-delete {file} {entries} {contents} key a = record {
  at = λ j. Slot-delete file key j entries contents (same key j) refl (a.at j);
}

-- A record appended at the end of the file, with its entry.
pub Agrees-append_put :
    {file : Bytes} {entries : Map Entry} {contents : Map Bytes} (key : Str) (value : Bytes)
    → Fits key value
    → Agrees file entries contents
    → Agrees
        (file ++ put_record key value)
        (insert key
          (record { offset = length file; size = header_size + length key + length value })
          entries)
        (insert key value contents)
Agrees-append_put {file} key value fits a =
    Agrees-insert key value _
      (read_at_end file (put_record key value) _ (length-put_record key value)) fits
      (Agrees-append (put_record key value) a)

Slot-get :
    (s : Store) (key : Str) (e : Option Entry) (v : Option Bytes)
    → s.is_open ≡ true
    → lookup key s.entries ≡ e
    → Slot s.file key e v
    → get s key ≡ answer v
unfolding get get_entry
Slot-get s key none none o h slot = rw (h, get)
Slot-get s key none (some v) o h slot = absurd slot
Slot-get s key (some e) none o h slot = absurd slot
Slot-get s key (some e) (some v) o h (r, fits) =
    rw (h, get) (rw (o, get_entry) (rw (r, get_entry) (get_buf-put_record key v fits)))

-- `Get` answers by the contents.
pub get-eq-answer :
    (s : Store) (contents : Map Bytes) (key : Str)
    → s.is_open ≡ true
    → Agrees s.file s.entries contents
    → get s key ≡ answer (lookup key contents)
get-eq-answer s contents key o a = Slot-get s key _ _ o refl (a.at key)
