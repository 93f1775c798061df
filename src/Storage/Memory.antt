-- ===== src/Storage/Memory.antt =====
-- storage/memory/memory.go: a map behind a lock.
use go_search.Base.{ℕ, ◌≡◌, refl, Option, some, Bool, List, [], ◌∷◌, length, Str, All}
use go_search.Base.Map.{Map, lookup, insert, delete, has, lookup-insert, lookup-delete}
use go_search.Storage.KeyValue.{KeyValue, IsKeyValue}
use go_search.Storage.Local.{Bytes, Store, get, open_file}
use go_search.Storage.Local.Slots.{answer}
use go_search.Storage.Local.Runs.{
  Call, put_call, delete_call, compact_call, restart_call, CallFits, effects, run, get-run,
}

pub record MemoryStore : Type 0 where
  pub contents : Map Bytes

abbrev pub new_memory : MemoryStore
new_memory = record { contents = [] }

unfoldable pub memory_put : Str → Bytes → MemoryStore → MemoryStore
memory_put key value s = record { contents = insert key value s.contents }

unfoldable pub memory_get : MemoryStore → Str → Option Bytes
memory_get s key = lookup key s.contents

unfoldable pub memory_delete : Str → MemoryStore → MemoryStore
memory_delete key s = record { contents = delete key s.contents }

-- The pairs that `fn` is called with.
unfoldable pub memory_each : MemoryStore → List (Str × Bytes)
memory_each s = s.contents

unfoldable pub memory_size : MemoryStore → ℕ
memory_size s = length s.contents

unfoldable pub memory_clear : MemoryStore → MemoryStore
memory_clear s = record { contents = [] }

unfoldable pub memory_has : MemoryStore → Str → Bool
memory_has s key = has key s.contents

unfoldable pub memory_compact : MemoryStore → MemoryStore
memory_compact s = s

-- The calls of the storage interface; a memory store has no file to open anew.
unfoldable pub memory_step : Call → MemoryStore → MemoryStore
unfolding memory_put memory_delete memory_compact
memory_step (put_call key value) s = memory_put key value s
memory_step (delete_call key) s = memory_delete key s
memory_step compact_call s = memory_compact s
memory_step restart_call s = s

unfoldable pub memory_run : List Call → MemoryStore → MemoryStore
unfolding memory_step
memory_run [] s = s
memory_run (c ∷ calls) s = memory_run calls (memory_step c s)

memory_run-effects :
    (calls : List Call) (s : MemoryStore) → (memory_run calls s).contents ≡ effects calls s.contents
unfolding memory_run
memory_run-effects [] s = refl
memory_run-effects (put_call key value ∷ calls) s =
    memory_run-effects calls (record { contents = insert key value s.contents })
memory_run-effects (delete_call key ∷ calls) s =
    memory_run-effects calls (record { contents = delete key s.contents })
memory_run-effects (compact_call ∷ calls) s = memory_run-effects calls s
memory_run-effects (restart_call ∷ calls) s = memory_run-effects calls s

-- After any sequence of puts, deletes, compactions and restarts, the restarts doing nothing to the
-- memory store, whose lengths fit in 32 bits, the local store on a sound disk and the memory store
-- answer `Get` alike.
pub get-memory_get :
    (calls : List Call) (key : Str)
    → All CallFits calls
    → (s : Store) × (run calls (open_file []) ≡ some s)
      × (get s key ≡ answer (memory_get (memory_run calls new_memory) key))
unfolding memory_get
get-memory_get calls key fits =
    let (s, e, h) = get-run calls fits in (s, e, rw (memory_run-effects calls new_memory) (h key))

abbrev pub memory_key_value : KeyValue MemoryStore
memory_key_value = record {
  put = memory_put;
  get = λ key s. memory_get s key;
  delete = memory_delete;
  has = λ key s. memory_has s key;
}

pub memory-IsKeyValue : IsKeyValue memory_key_value
unfolding memory_put memory_get memory_delete memory_has
memory-IsKeyValue = record {
  get-put = λ k j v s. lookup-insert k j v s.contents;
  get-delete = λ k j s. lookup-delete k j s.contents;
  has-get = λ k s. refl;
}
