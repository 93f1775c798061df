-- ===== src/Storage/Local/Runs.antt =====
-- storage/local/local.go over a whole life: puts, deletes, compactions and restarts in any order.
use go_search.Base.{
  ◌<◌, ◌^◌, ◌≡◌, refl, ◌∙◌, true, Option, none, some, List, [], ◌∷◌, append-nil, arith, length, Str,
  All,
}
use go_search.Base.Map.{Map, insert, delete, lookup}
use go_search.Storage.Local.{
  Bytes, Entry, Store, sound_disk, put, remove, get, compact, completes, open_file, close,
}
use go_search.Storage.Local.Record.{Fits}
use go_search.Storage.Local.Slots.{answer, get-eq-answer}
use go_search.Storage.Local.Recovery.{stored, removed, replay, load_entries-Agrees}
use go_search.Storage.Local.Writes.{
  put-Agrees, put-is_open, put_sound, remove-Agrees, remove-is_open, remove_sound,
}
use go_search.Storage.Local.Compaction.{Valid, Valid-same, Valid-grow, nil-Valid, compact-Valid}

-- The calls on a store whose disk is sound; `restart` closes it and opens the file anew.
pub data Call : Type 0 where
  put_call : Str → Bytes → Call
  delete_call : Str → Call
  compact_call : Call
  restart_call : Call

unfoldable pub step : Call → Store → Option Store
step (put_call key value) s = some (put sound_disk key value s).0
step (delete_call key) s = some (remove sound_disk key s).0
step compact_call s = elim (compact completes s) [ none ↦ none | some r ↦ some r.0 ]
step restart_call s = some (open_file (close s).file)

unfoldable pub run : List Call → Store → Option Store
unfolding step
run [] s = some s
run (c ∷ calls) s = elim (step c s) [ none ↦ none | some s' ↦ run calls s' ]

-- The map that the calls describe, and the calls whose lengths the header holds.
abbrev pub effect : Call → Map Bytes → Map Bytes
effect (put_call key value) contents = insert key value contents
effect (delete_call key) contents = delete key contents
effect compact_call contents = contents
effect restart_call contents = contents

abbrev pub effects : List Call → Map Bytes → Map Bytes
effects [] contents = contents
effects (c ∷ calls) contents = effects calls (effect c contents)

abbrev pub CallFits : Call → Type 0
CallFits (put_call key value) = Fits key value
CallFits (delete_call key) = length key < 2 ^ 32
CallFits compact_call = Unit
CallFits restart_call = Unit

pub record Live (s : Store) (contents : Map Bytes) : Type 0 where
  pub is_open : s.is_open ≡ true
  pub valid : Valid s.file s.entries contents

put-Live :
    (key : Str) (value : Bytes) (s : Store) (contents : Map Bytes)
    → Fits key value
    → Live s contents
    → Live (put sound_disk key value s).0 (insert key value contents)
put-Live key value s contents f l =
    let (ok, grown) = put_sound sound_disk key value s l.is_open refl in
    record {
      is_open = put-is_open sound_disk key value s ∙ l.is_open;
      valid =
          Valid-grow (stored key value) f grown
            (rw ok at (put-Agrees sound_disk key value s f l.valid.agrees)) l.valid;
    }

remove-Live :
    (key : Str) (s : Store) (contents : Map Bytes)
    → length key < 2 ^ 32
    → Live s contents
    → Live (remove sound_disk key s).0 (delete key contents)
remove-Live key s contents f l =
    let (ok, grown) = remove_sound sound_disk key s l.is_open refl in
    record {
      is_open = remove-is_open sound_disk key s ∙ l.is_open;
      valid =
          Valid-grow (removed key) f grown
            (rw ok at (remove-Agrees sound_disk key s l.valid.agrees)) l.valid;
    }

-- A restart on a valid log: the new index agrees with the same contents.
open_file-Live :
    (file : Bytes) (entries : Map Entry) (contents : Map Bytes)
    → Valid file entries contents
    → Live (open_file file) contents
unfolding open_file
open_file-Live file entries contents v = record {
  is_open = refl;
  valid = Valid-same (replay v.log []) contents v.replayed (record {
    log = v.log;
    file_eq = v.file_eq;
    fits = v.fits;
    replayed = λ j. refl;
    agrees = rw v.file_eq (rw append-nil at (load_entries-Agrees v.log [] v.fits (omega arith)));
  });
}

-- One call returns and leaves a live store with the contents that it describes.
step-Live :
    (c : Call) (s : Store) (contents : Map Bytes)
    → CallFits c
    → Live s contents
    → (s' : Store) × (step c s ≡ some s') × Live s' (effect c contents)
unfolding step
step-Live (put_call key value) s contents f l =
    ((put sound_disk key value s).0, refl, put-Live key value s contents f l)
step-Live (delete_call key) s contents f l =
    ((remove sound_disk key s).0, refl, remove-Live key s contents f l)
step-Live compact_call s contents f l =
    let (s', e, o, v) = compact-Valid s contents l.is_open l.valid.agrees in
    (s', rw (e, step), record { is_open = o; valid = v })
step-Live restart_call s contents f l =
    (open_file s.file, unfold close in refl, open_file-Live s.file s.entries contents l.valid)

run-Live :
    (calls : List Call) (s : Store) (contents : Map Bytes)
    → All CallFits calls
    → Live s contents
    → (s' : Store) × (run calls s ≡ some s') × Live s' (effects calls contents)
unfolding run
run-Live [] s contents f l = (s, refl, l)
run-Live (c ∷ calls) s contents (f, fits) l =
    let (s', e, l') = step-Live c s contents f l in
    let (t, e', lt) = run-Live calls s' (effect c contents) fits l' in (t, rw (e, run) e', lt)

empty-Live : Live (open_file []) []
empty-Live = open_file-Live [] [] [] nil-Valid

-- From an empty file, any sequence of puts, deletes, compactions and restarts on a sound disk runs
-- to its end with no panic, and then `Get` answers every key as the map that the calls describe,
-- provided that the lengths of the keys and values fit in 32 bits.
pub get-run :
    (calls : List Call)
    → All CallFits calls
    → (s : Store) × (run calls (open_file []) ≡ some s)
      × ((key : Str) → get s key ≡ answer (lookup key (effects calls [])))
get-run calls fits =
    let (s, e, l) = run-Live calls (open_file []) [] fits empty-Live in
    (s, e, λ key. get-eq-answer s (effects calls []) key l.is_open l.valid.agrees)
