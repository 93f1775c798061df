-- ===== src/Tests/LocalStore.antt =====
-- storage/local/local.go on concrete inputs.
use go_search.Base.{
  ◌≡◌, refl, true, ◌&&◌, some, List, [], ◌∷◌, ◌++◌, arith, Str, codes, if◌then◌else◌, same,
}
use go_search.Base.Map.{lookup, insert}
use go_search.Storage.Local.{
  Store, Disk, done, fails, sound_disk, RecordHeader, encode_header, decode_header,
  decode-encode_header, put, remove, get, found, missing, open_file, load_entries, compact,
  completes, get_entry, read_at, get_buf, load_from, read_header, load_record,
}
use go_search.Storage.Local.Slots.{Agrees, answer}
use go_search.Storage.Local.Recovery.{
  Rec, stored, encode_log, replay, nil-Agrees, load_entries-Agrees,
}
use go_search.Storage.Local.Writes.{get-put, get-remove}
use go_search.Storage.Local.Torn.{torn_record, get-torn}
use go_search.Storage.Local.Compaction.{Valid, compact-Valid}
use go_search.Storage.Local.Runs.{
  Call, put_call, delete_call, compact_call, restart_call, run, effects, get-run,
}
use go_search.Storage.Memory.{memory_get, memory_run, new_memory, get-memory_get}

abbrev empty_store : Store
empty_store = record { file = []; entries = []; is_open = true }

-- The disk fills up in the middle of the value.
abbrev full_disk : Disk
full_disk = record { seek = true; header = done; key = done; value = fails 1 }

abbrev life : List Call
life =
    put_call (codes "a") (codes "old")
    ∷ put_call (codes "b") (codes "x")
    ∷ delete_call (codes "b")
    ∷ put_call (codes "a") (codes "new")
    ∷ compact_call
    ∷ restart_call
    ∷ []

get-run_example :
    (s : Store) × (run life (open_file []) ≡ some s)
    × ((key : Str) → get s key ≡ answer (lookup key (effects life [])))
get-run_example = get-run life (omega arith)

get-memory_get_example :
    (s : Store) × (run life (open_file []) ≡ some s)
    × (get s (codes "a") ≡ answer (memory_get (memory_run life new_memory) (codes "a")))
get-memory_get_example = get-memory_get life (codes "a") (omega arith)

get-put_example : get (put full_disk (codes "a") (codes "new") empty_store).0 (codes "a") ≡ (
    if (put full_disk (codes "a") (codes "new") empty_store).1 && same (codes "a") (codes "a")
    then found (codes "new")
    else get empty_store (codes "a"))
get-put_example =
    get-put full_disk (codes "a") (codes "a") (codes "new") empty_store [] refl (omega arith)
      nil-Agrees

get-remove_example : get (remove sound_disk (codes "a") empty_store).0 (codes "b") ≡ (
    if (remove sound_disk (codes "a") empty_store).1 && same (codes "a") (codes "b")
    then missing
    else get empty_store (codes "b"))
get-remove_example = get-remove sound_disk (codes "a") (codes "b") empty_store [] refl nil-Agrees

abbrev old_log : List Rec
old_log = stored (codes "a") (codes "old") ∷ []

get-torn_example :
    get (open_file (encode_log old_log ++ torn_record (codes "a") (codes "new") 1)) (codes "a")
    ≡ missing
get-torn_example =
    get-torn old_log (codes "a") (codes "new") 1 (omega arith) (omega arith) (omega arith)

load_entries-Agrees_example :
    Agrees
      (encode_log old_log ++ (1 ∷ 0 ∷ []))
      (load_entries (encode_log old_log ++ (1 ∷ 0 ∷ [])))
      (replay old_log [])
load_entries-Agrees_example = load_entries-Agrees old_log (1 ∷ 0 ∷ []) (omega arith) (omega arith)

compact-Valid_example :
    (s' : Store) × (compact completes empty_store ≡ some (s', true))
    × (s'.is_open ≡ true)
    × Valid s'.file s'.entries []
compact-Valid_example = compact-Valid empty_store [] refl nil-Agrees

abbrev header_300 : RecordHeader
header_300 = record { type = 1; key_len = 300; val_len = 70000 }

decode-encode_header_example :
    decode_header (encode_header header_300 ++ codes "k") ≡ some header_300
decode-encode_header_example =
    decode-encode_header header_300 (codes "k") (omega arith) (omega arith)

-- Without the torn record the old value is found.
get_before_crash : get (open_file (encode_log old_log)) (codes "a") ≡ found (codes "old")
unfolding get get_entry open_file load_entries load_from read_header load_record encode_header
    decode_header read_at get_buf lookup insert same
get_before_crash = refl
