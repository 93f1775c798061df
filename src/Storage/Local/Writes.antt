-- ===== src/Storage/Local/Writes.antt =====
-- `Put` and `Delete` of storage/local/local.go on any disk: what they leave of the contents.
use go_search.Base.{
  ◌+◌, ◌≡◌, refl, sym, ◌∙◌, Bool, true, false, ◌&&◌, List, [], ◌∷◌, ◌++◌, append_assoc, append-nil,
  arith, length, Str, same, inl, inr, Bool-cases, if◌then◌else◌, take,
}
use go_search.Base.Map.{Map, insert, delete, lookup, lookup-insert, lookup-delete}
use go_search.Storage.Local.{
  Bytes, Entry, Store, Disk, sound_disk, found, missing, Outcome, done, fails, write_all, put,
  remove, put_header, delete_header, get, header_size,
}
use go_search.Storage.Local.Record.{Fits, put_record, delete_record}
use go_search.Storage.Local.Slots.{
  Agrees, Agrees-append, Agrees-append_put, Agrees-delete, answer, get-eq-answer,
}

abbrev all_bytes : List (Outcome × Bytes) → Bytes
all_bytes [] = []
all_bytes ((o, bytes) ∷ rest) = bytes ++ all_bytes rest

-- Writes only append, and append everything when they succeed.
write_all_extends :
    (ws : List (Outcome × Bytes)) (file : Bytes)
    → (more : Bytes) × ((write_all ws file).0 ≡ file ++ more)
unfolding write_all
write_all_extends [] file = ([], sym (append-nil file))
write_all_extends ((done, bytes) ∷ rest) file =
    let (more, e) = write_all_extends rest (file ++ bytes) in
    (bytes ++ more, e ∙ append_assoc file bytes more)
write_all_extends ((fails n, bytes) ∷ rest) file = (take n bytes, refl)

write_all-true :
    (ws : List (Outcome × Bytes)) (file : Bytes)
    → (write_all ws file).1 ≡ true
    → (write_all ws file).0 ≡ file ++ all_bytes ws
unfolding write_all
write_all-true [] file h = sym (append-nil file)
write_all-true ((done, bytes) ∷ rest) file h =
    write_all-true rest (file ++ bytes) h ∙ append_assoc file bytes (all_bytes rest)
write_all-true ((fails n, bytes) ∷ rest) file h = ground arith

module _ (disk : Disk) (key : Str) (value : Bytes) (s : Store) where
  abbrev put_writes : List (Outcome × Bytes)
  put_writes = (disk.header, put_header key value) ∷ (disk.key, key) ∷ (disk.value, value) ∷ []

  abbrev put_entry : Entry
  put_entry = record { offset = length s.file; size = header_size + length key + length value }

  -- What `Put` returns, by whether the log could be reached and whether all was written.
  put_refused : (s.is_open && disk.seek) ≡ false → put disk key value s ≡ (s, false)
  unfolding put
  put_refused h = rw h

  put_torn :
      (s.is_open && disk.seek) ≡ true
      → (write_all put_writes s.file).1 ≡ false
      → put disk key value s ≡ (record s { file = (write_all put_writes s.file).0 }, false)
  unfolding put
  put_torn h w = rw h (rw w)

  put_done :
      (s.is_open && disk.seek) ≡ true
      → (write_all put_writes s.file).1 ≡ true
      → put disk key value s ≡ (
        record s {
          file = (write_all put_writes s.file).0;
          entries = insert key put_entry s.entries;
        },
        true,
      )
  unfolding put
  put_done h w = rw h (rw w)

  -- Whatever the disk does, the index and the file still agree on the contents: with the new value
  -- if `Put` returned no error, and as they were if it did.
  pub put-Agrees :
      {contents : Map Bytes}
      → Fits key value
      → Agrees s.file s.entries contents
      → Agrees
          (put disk key value s).0.file
          (put disk key value s).0.entries
          (if (put disk key value s).1 then insert key value contents else contents)
  put-Agrees fits a = elim (Bool-cases (s.is_open && disk.seek)) [
    | inl go ↦ elim (Bool-cases (write_all put_writes s.file).1) [
      | inl w ↦
          rw (put_done go w, write_all-true put_writes s.file w, append-nil value)
            (Agrees-append_put key value fits a)
      | inr w ↦
          let (more, e) = write_all_extends put_writes s.file in
          rw (put_torn go w, e) (Agrees-append more a)
    ]
    | inr stop ↦ rw (put_refused stop) a
  ]

  pub put-is_open : (put disk key value s).0.is_open ≡ s.is_open
  unfolding put
  put-is_open = ground arith

  -- With a sound disk an open store takes the value, and the log grows by one record.
  pub put_sound :
      s.is_open ≡ true
      → disk ≡ sound_disk
      → ((put disk key value s).1 ≡ true)
        × ((put disk key value s).0.file ≡ s.file ++ put_record key value)
  put_sound o e =
      rw (put_done (rw (o, e)) (rw e (unfold write_all in refl)))
        (refl, rw e (unfold write_all in simp append_assoc))

module _ (disk : Disk) (key : Str) (s : Store) where
  abbrev remove_writes : List (Outcome × Bytes)
  remove_writes = (disk.header, delete_header key) ∷ (disk.key, key) ∷ []

  remove_refused : (s.is_open && disk.seek) ≡ false → remove disk key s ≡ (s, false)
  unfolding remove
  remove_refused h = rw h

  remove_torn :
      (s.is_open && disk.seek) ≡ true
      → (write_all remove_writes s.file).1 ≡ false
      → remove disk key s ≡ (record s { file = (write_all remove_writes s.file).0 }, false)
  unfolding remove
  remove_torn h w = rw h (rw w)

  remove_done :
      (s.is_open && disk.seek) ≡ true
      → (write_all remove_writes s.file).1 ≡ true
      → remove disk key s ≡ (
        record s { file = (write_all remove_writes s.file).0; entries = delete key s.entries },
        true,
      )
  unfolding remove
  remove_done h w = rw h (rw w)

  pub remove-Agrees :
      {contents : Map Bytes}
      → Agrees s.file s.entries contents
      → Agrees
          (remove disk key s).0.file
          (remove disk key s).0.entries
          (if (remove disk key s).1 then delete key contents else contents)
  remove-Agrees a =
      let (more, e) = write_all_extends remove_writes s.file in
      elim (Bool-cases (s.is_open && disk.seek)) [
        | inl go ↦ elim (Bool-cases (write_all remove_writes s.file).1) [
          | inl w ↦ rw (remove_done go w, e) (Agrees-append more (Agrees-delete key a))
          | inr w ↦ rw (remove_torn go w, e) (Agrees-append more a)
        ]
        | inr stop ↦ rw (remove_refused stop) a
      ]

  pub remove-is_open : (remove disk key s).0.is_open ≡ s.is_open
  unfolding remove
  remove-is_open = ground arith

  pub remove_sound :
      s.is_open ≡ true
      → disk ≡ sound_disk
      → ((remove disk key s).1 ≡ true) × ((remove disk key s).0.file ≡ s.file ++ delete_record key)
  remove_sound o e =
      rw (remove_done (rw (o, e)) (rw e (unfold write_all in refl)))
        (refl, rw e (unfold write_all in simp append_assoc))

answer-insert :
    (ok : Bool) (key j : Str) (value : Bytes) (contents : Map Bytes)
    → answer (lookup j (if ok then insert key value contents else contents))
      ≡ (if ok && same key j then found value else answer (lookup j contents))
answer-insert true key j value contents =
    rw lookup-insert (elim (Bool-cases (same key j)) [ inl e ↦ rw e | inr e ↦ rw e ])
answer-insert false key j value contents = refl

answer-delete :
    (ok : Bool) (key j : Str) (contents : Map Bytes)
    → answer (lookup j (if ok then delete key contents else contents))
      ≡ (if ok && same key j then missing else answer (lookup j contents))
answer-delete true key j contents =
    rw lookup-delete (elim (Bool-cases (same key j)) [ inl e ↦ rw e | inr e ↦ rw e ])
answer-delete false key j contents = refl

-- After `Put` of a key and a value whose lengths are below 2^32, on an open store whose index
-- agrees with its file, with any disk, which may fail at any byte, `Get` answers the new value for
-- its key if `Put` returned no error, and what it answered before in every other case.
pub get-put :
    (disk : Disk) (key j : Str) (value : Bytes) (s : Store) (contents : Map Bytes)
    → s.is_open ≡ true
    → Fits key value
    → Agrees s.file s.entries contents
    → get (put disk key value s).0 j
      ≡ (if (put disk key value s).1 && same key j then found value else get s j)
get-put disk key j value s contents o fits a =
    get-eq-answer (put disk key value s).0 _ j (put-is_open disk key value s ∙ o)
      (put-Agrees disk key value s fits a)
    ∙ (rw (get-eq-answer s contents j o a) (answer-insert _ key j value contents))

-- After `Delete` on an open store whose index agrees with its file, with any disk, its key is
-- missing if `Delete` returned no error, and every other answer of `Get` is what it was.
pub get-remove :
    (disk : Disk) (key j : Str) (s : Store) (contents : Map Bytes)
    → s.is_open ≡ true
    → Agrees s.file s.entries contents
    → get (remove disk key s).0 j
      ≡ (if (remove disk key s).1 && same key j then missing else get s j)
get-remove disk key j s contents o a =
    get-eq-answer (remove disk key s).0 _ j (remove-is_open disk key s ∙ o)
      (remove-Agrees disk key s a)
    ∙ (rw (get-eq-answer s contents j o a) (answer-delete _ key j contents))
