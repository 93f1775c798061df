-- ===== src/Storage/Local/Compaction.antt =====
-- `Compact` of storage/local/local.go: the new log holds the live records and answers alike.
use go_search.Base.{
  ℕ, ◌+◌, ◌≡◌, refl, sym, ap, ◌∙◌, true, false, Option, none, some, List, [], ◌∷◌, ◌++◌,
  append_assoc, append-nil, arith, length, length-append, Str, same, same_iff, All, is_some, inl,
  inr, Bool-cases, Option-cases, if◌then◌else◌,
}
use mathlib.Core.Path.{subst}
use go_search.Base.Map.{Map, insert, lookup, lookup-insert, lookup-delete, lookup-empty, has}
use go_search.Storage.Local.{
  Bytes, Entry, Store, header_size, compact, compact_loop, completes, temp_fails,
}
use go_search.Storage.Local.Record.{Fits, put_record, length-put_record}
use go_search.Storage.Local.Slots.{Slot, Agrees, Agrees-append_put, get-eq-answer}
use go_search.Storage.Local.Recovery.{
  Rec, stored, removed, RecFits, encode_rec, encode_log, apply, replay, nil-Agrees,
}

pub encode_log-append :
    (log more : List Rec) → encode_log (log ++ more) ≡ encode_log log ++ encode_log more
encode_log-append [] more = refl
encode_log-append (r ∷ log) more =
    ap (λ (b : Bytes). encode_rec r ++ b) (encode_log-append log more)
    ∙ sym (append_assoc (encode_rec r) (encode_log log) (encode_log more))

pub encode_log_snoc :
    (log : List Rec) (r : Rec) → encode_log (log ++ (r ∷ [])) ≡ encode_log log ++ encode_rec r
encode_log_snoc log r =
    encode_log-append log (r ∷ [])
    ∙ ap (λ (b : Bytes). encode_log log ++ b) (append-nil (encode_rec r))

pub replay_snoc :
    (log : List Rec) (r : Rec) (contents : Map Bytes)
    → replay (log ++ (r ∷ [])) contents ≡ apply r (replay log contents)
replay_snoc [] r contents = refl
replay_snoc (q ∷ log) r contents = replay_snoc log r (apply q contents)

pub All-snoc :
    (log : List Rec) (r : Rec) → All RecFits log → RecFits r → All RecFits (log ++ (r ∷ []))
All-snoc [] r fits f = (f, tt)
All-snoc (q ∷ log) r (g, fits) f = (g, All-snoc log r fits f)

-- A file that is a log of whole records, an index that agrees with it, and its contents.
pub record Valid (file : Bytes) (entries : Map Entry) (contents : Map Bytes) : Type 0 where
  pub log : List Rec
  pub file_eq : file ≡ encode_log log
  pub fits : All RecFits log
  pub replayed : (key : Str) → lookup key (replay log []) ≡ lookup key contents
  pub agrees : Agrees file entries contents

pub nil-Valid : Valid [] [] []
nil-Valid = record {
  log = [];
  file_eq = refl;
  fits = tt;
  replayed = λ key. refl;
  agrees = nil-Agrees;
}

lookup-apply_cong :
    (r : Rec) (j : Str) (a b : Map Bytes)
    → lookup j a ≡ lookup j b
    → lookup j (apply r a) ≡ lookup j (apply r b)
lookup-apply_cong (stored key value) j a b e =
    simp lookup-insert (ap (λ (o : Option Bytes). if same key j then some value else o) e)
lookup-apply_cong (removed key) j a b e =
    simp lookup-delete (ap (λ (o : Option Bytes). if same key j then none else o) e)

-- One more record keeps a log valid, if the index is brought up to date.
pub Valid-grow :
    {file file' : Bytes} {entries entries' : Map Entry} {contents : Map Bytes} (r : Rec)
    → RecFits r
    → file' ≡ file ++ encode_rec r
    → Agrees file' entries' (apply r contents)
    → Valid file entries contents
    → Valid file' entries' (apply r contents)
Valid-grow {contents = c} r f e a v = record {
  log = v.log ++ (r ∷ []);
  file_eq = e ∙ ap (λ (b : Bytes). b ++ encode_rec r) v.file_eq ∙ sym (encode_log_snoc v.log r);
  fits = All-snoc v.log r v.fits f;
  replayed = λ j.
      ap (lookup j) (replay_snoc v.log r [])
      ∙ lookup-apply_cong r j (replay v.log []) c (v.replayed j);
  agrees = a;
}

Valid-put :
    {file : Bytes} {entries : Map Entry} {contents : Map Bytes} (key : Str) (value : Bytes)
    → Fits key value
    → Valid file entries contents
    → Valid
        (file ++ put_record key value)
        (insert key
          (record { offset = length file; size = header_size + length key + length value })
          entries)
        (insert key value contents)
Valid-put key value f v =
    Valid-grow (stored key value) f refl (Agrees-append_put key value f v.agrees) v

-- The contents after the keys of `l` were copied from `contents` to `new`.
copied : Map Bytes → List (Str × Entry) → Map Bytes → Map Bytes
copied contents [] new = new
copied contents ((key, e) ∷ l) new =
    copied contents l (elim (lookup key contents) [ none ↦ new | some v ↦ insert key v new ])

or_else : Option Bytes → Option Bytes → Option Bytes
or_else none o = o
or_else (some v) o = some v

lookup-copied :
    (contents : Map Bytes) (l : List (Str × Entry)) (new : Map Bytes) (j : Str)
    → lookup j (copied contents l new)
      ≡ (if has j l then or_else (lookup j contents) (lookup j new) else lookup j new)
unfolding copied or_else lookup
lookup-copied contents [] new j = refl
lookup-copied contents ((key, e) ∷ l) new j = elim (Option-cases (lookup key contents)) [
  | inl h ↦ rw (h, copied) (ground (arith, lookup-copied contents l new j, same_iff key j))
  | inr (v, h) ↦
      rw (h, copied)
        (ground (
          arith,
          lookup-copied contents l (insert key v new) j,
          lookup-insert key j v new,
          same_iff key j,
        ))
]

-- What the loop returns: no panic, and a valid log with these contents.
record Compacted (r : Option (Bytes × Map Entry)) (contents : Map Bytes) : Type 0 where
  out : Bytes
  entries : Map Entry
  returns : r ≡ some (out, entries)
  valid : Valid out entries contents

Slot-Fits :
    (file : Bytes) (key : Str) (e : Option Entry) (v : Bytes)
    → Slot file key e (some v)
    → Fits key v
Slot-Fits file key none v h = absurd h
Slot-Fits file key (some e) v h = h.1

Slot-has :
    (file : Bytes) (key : Str) (e : Option Entry) (v : Bytes)
    → Slot file key e (some v)
    → is_some e ≡ true
Slot-has file key none v h = absurd h
Slot-has file key (some e) v h = refl

module _ (s : Store) (contents : Map Bytes) (o : s.is_open ≡ true)
    (a : Agrees s.file s.entries contents) where
  Fits-of : (key : Str) (v : Bytes) → lookup key contents ≡ some v → Fits key v
  Fits-of key v h =
      Slot-Fits s.file key (lookup key s.entries) v
        (subst (λ c. Slot s.file key (lookup key s.entries) c) h (a.at key))

  has_of : (key : Str) (v : Bytes) → lookup key contents ≡ some v → has key s.entries ≡ true
  has_of key v h =
      Slot-has s.file key (lookup key s.entries) v
        (subst (λ c. Slot s.file key (lookup key s.entries) c) h (a.at key))

  compact_skip :
      (key : Str) (e : Entry) (l : List (Str × Entry)) (out : Bytes) (entries : Map Entry)
      (offset : ℕ)
      → lookup key contents ≡ none
      → compact_loop s ((key, e) ∷ l) out entries offset ≡ compact_loop s l out entries offset
  unfolding compact_loop
  compact_skip key e l out entries offset h =
      rw (get-eq-answer s contents key o a, compact_loop) (rw h)

  compact_copy :
      (key : Str) (e : Entry) (l : List (Str × Entry)) (out : Bytes) (entries : Map Entry)
      (v : Bytes)
      → lookup key contents ≡ some v
      → compact_loop s ((key, e) ∷ l) out entries (length out)
        ≡ compact_loop s l
            (out ++ put_record key v)
            (insert key
              (record { offset = length out; size = header_size + length key + length v })
              entries)
            (length (out ++ put_record key v))
  unfolding compact_loop
  compact_copy key e l out entries v h =
      rw (get-eq-answer s contents key o a, compact_loop)
        (rw (h, length-append out (put_record key v), length-put_record key v))

  compact_loop-Compacted :
      (l : List (Str × Entry)) (out : Bytes) (entries : Map Entry) (new : Map Bytes)
      → Valid out entries new
      → Compacted (compact_loop s l out entries (length out)) (copied contents l new)
  unfolding copied
  compact_loop-Compacted [] out entries new v = record {
    out = out;
    entries = entries;
    returns = unfold compact_loop in refl;
    valid = v;
  }
  compact_loop-Compacted ((key, e) ∷ l) out entries new v =
      elim (Option-cases (lookup key contents)) [
        | inl h ↦
            rw (compact_skip key e l out entries (length out) h)
              (rw (h, copied) (compact_loop-Compacted l out entries new v))
        | inr (value, h) ↦ rw (compact_copy key e l out entries value h) (
            rw (h, copied)
              (compact_loop-Compacted l (out ++ put_record key value) _ (insert key value new)
                (Valid-put key value (Fits-of key value h) v)))
      ]

  copied_all : (j : Str) → lookup j (copied contents s.entries []) ≡ lookup j contents
  unfolding or_else
  copied_all j = lookup-copied contents s.entries [] j ∙ elim (Option-cases (lookup j contents)) [
    | inl h ↦
        rw (h, lookup-empty {V = Bytes} j)
          (elim (Bool-cases (has j s.entries)) [ inl b ↦ rw b | inr b ↦ rw b ])
    | inr (v, h) ↦ rw (has_of j v h, h)
  ]

pub Valid-same :
    {file : Bytes} {entries : Map Entry} (c d : Map Bytes)
    → ((j : Str) → lookup j c ≡ lookup j d)
    → Valid file entries c
    → Valid file entries d
Valid-same {file} {entries} c d same_at v = record {
  log = v.log;
  file_eq = v.file_eq;
  fits = v.fits;
  replayed = λ j. v.replayed j ∙ same_at j;
  agrees = record {
    at = λ j. subst (λ o. Slot file j (lookup j entries) o) (same_at j) (v.agrees.at j);
  };
}

-- `Compact` on a sound disk, of an open store whose index agrees with its file, does not panic and
-- returns no error. It leaves a log of whole records, an index that agrees with it, and the
-- contents that were there.
pub compact-Valid :
    (s : Store) (contents : Map Bytes)
    → s.is_open ≡ true
    → Agrees s.file s.entries contents
    → (s' : Store) × (compact completes s ≡ some (s', true))
      × (s'.is_open ≡ true)
      × Valid s'.file s'.entries contents
unfolding compact
compact-Valid s contents o a =
    let c = compact_loop-Compacted s contents o a s.entries [] [] [] nil-Valid in
    (
      record { file = c.out; entries = c.entries; is_open = true },
      rw (c.returns, compact),
      refl,
      Valid-same (copied contents s.entries []) contents (copied_all s contents o a) c.valid,
    )

-- A `Compact` that cannot write its temporary file leaves the store alone.
pub compact_temp_fails :
    (s : Store) (contents : Map Bytes)
    → s.is_open ≡ true
    → Agrees s.file s.entries contents
    → compact temp_fails s ≡ some (s, false)
unfolding compact
compact_temp_fails s contents o a =
    let c = compact_loop-Compacted s contents o a s.entries [] [] [] nil-Valid in
    rw (c.returns, compact)
