-- ===== src/Index/Numeric/Bisect.antt =====
-- The search of one sorted block of index/numeric.go.
use go_search.Base.{
  ℕ, zero, suc, ◌+◌, ◌-◌, ◌/◌, ◌≤◌, ◌<◌, ◌≡◌, refl, sym, ap, ◌∙◌, some, List, [], ◌∷◌, ◌++◌, ltb,
  leb, length, take, drop, get_elem?, keep, keep-append, keep_none, All, All-map, arith, inl, inr,
  Bool-cases, take-append-drop, get_elem_of_lt,
}
use go_search.Base.Map.{StrSet}
use go_search.Index.Numeric.{search_left, take_upto, live_ids, search_block, in_bounds}
use go_search.Index.NumericBlock.{NumericEntry}

-- Values in order, from `low` on.
abbrev pub SortedFrom : ℕ → List NumericEntry → Type 0
SortedFrom low [] = Unit
SortedFrom low (e ∷ es) = (low ≤ e.value) × SortedFrom e.value es

pub SortedFrom-All :
    (low b : ℕ) (es : List NumericEntry) → low ≤ b → SortedFrom b es → All (λ e. low ≤ e.value) es
SortedFrom-All low b [] h s = tt
SortedFrom-All low b (e ∷ es) h (le, s) =
    (omega arith, SortedFrom-All low e.value es (omega arith) s)

sorted_get :
    (b i : ℕ) (es : List NumericEntry) (e : NumericEntry)
    → SortedFrom b es
    → get_elem? es i ≡ some e
    → b ≤ e.value
sorted_get b i [] e s g = absurd (cc)
sorted_get b zero (x ∷ es) e (le, s) g = let eq : x ≡ e = cc in rw (sym (ap (λ k. k.value) eq)) le
sorted_get b (suc i) (x ∷ es) e (le, s) g = omega (arith, sorted_get x.value i es e s g)

take_below :
    (b low mid : ℕ) (es : List NumericEntry) (e : NumericEntry)
    → SortedFrom b es
    → get_elem? es mid ≡ some e
    → e.value < low
    → All (λ x. x.value < low) (take (suc mid) es)
take_below b low mid [] e s g h = tt
take_below b low zero (x ∷ es) e (le, s) g h =
    let eq : x ≡ e = cc in (rw (ap (λ k. k.value) eq) h, tt)
take_below b low (suc mid) (x ∷ es) e (le, s) g h =
    (omega (arith, sorted_get x.value mid es e s g), take_below x.value low mid es e s g h)

take_upto_mid :
    (b low mid : ℕ) (es : List NumericEntry) (e : NumericEntry)
    → SortedFrom b es
    → get_elem? es mid ≡ some e
    → e.value < low
    → All (λ x. x.value < low) (take (mid + 1) es)
take_upto_mid b low mid es e s g h =
    let eq : mid + 1 ≡ suc mid = omega arith in rw eq (take_below b low mid es e s g h)

drop_above :
    (b low mid : ℕ) (es : List NumericEntry) (e : NumericEntry)
    → SortedFrom b es
    → get_elem? es mid ≡ some e
    → low ≤ e.value
    → All (λ x. low ≤ x.value) (drop mid es)
drop_above b low zero [] e s g h = tt
drop_above b low (suc mid) [] e s g h = tt
drop_above b low zero (x ∷ es) e (le, s) g h =
    let eq : x ≡ e = cc in
    let lx : low ≤ x.value = rw (ap (λ k. k.value) eq) h in (lx, SortedFrom-All low x.value es lx s)
drop_above b low (suc mid) (x ∷ es) e (le, s) g h = drop_above x.value low mid es e s g h

drop_none : (P : NumericEntry → Type 0) (es : List NumericEntry) → All P (drop (length es) es)
drop_none P [] = tt
drop_none P (e ∷ es) = drop_none P es

search_left-splits :
    (fuel b low : ℕ) (es : List NumericEntry) (left hi : ℕ)
    → SortedFrom b es
    → left ≤ hi
    → hi ≤ length es
    → hi < left + fuel
    → All (λ x. x.value < low) (take left es)
    → All (λ x. low ≤ x.value) (drop hi es)
    → (k : ℕ) × (search_left fuel low es left hi ≡ some k)
      × All (λ x. x.value < low) (take k es)
      × All (λ x. low ≤ x.value) (drop k es)
unfolding search_left
search_left-splits zero b low es left hi s h l f below above = absurd (omega arith)
search_left-splits (suc fuel) b low es left hi s h l f below above =
    elim (Bool-cases (ltb left hi)) [
      | inr e ↦ let eq : hi ≡ left = ground arith in (left, rw e, below, rw (sym eq) above)
      | inl e ↦
          let mid = (left + (hi - 1)) / 2 in
          let lt : left < hi = ground arith in
          let (entry, g) = get_elem_of_lt es mid (omega arith) in
          elim (Bool-cases (ltb entry.value low)) [
            | inl q ↦
                rw (e, g)
                  (rw q (
                    search_left-splits fuel b low es (mid + 1) hi s (omega arith) l (omega arith)
                      (take_upto_mid b low mid es entry s g (ground arith)) above))
            | inr q ↦
                rw (e, g)
                  (rw q (
                    search_left-splits fuel b low es left mid s (omega arith) (omega arith)
                      (omega arith) below (drop_above b low mid es entry s g (ground arith))))
          ]
    ]

take_upto-keep :
    (b high : ℕ) (es : List NumericEntry)
    → SortedFrom b es
    → take_upto high es ≡ keep (λ e. leb e.value high) es
unfolding take_upto keep
take_upto-keep b high [] s = refl
take_upto-keep b high (e ∷ es) (le, s) = elim (Bool-cases (leb e.value high)) [
  | inl q ↦ rw q (ap (λ (t : List NumericEntry). e ∷ t) (take_upto-keep e.value high es s))
  | inr q ↦ rw q (
      sym (
        keep_none (λ x. leb x.value high) es
          (All-map es (λ x l. ground arith) (SortedFrom-All e.value e.value es (omega arith) s))))
]

sorted_drop : (b k : ℕ) (es : List NumericEntry) → SortedFrom b es → SortedFrom 0 (drop k es)
sorted_drop b zero [] s = tt
sorted_drop b zero (e ∷ es) (le, s) = (omega arith, s)
sorted_drop b (suc k) [] s = tt
sorted_drop b (suc k) (e ∷ es) (le, s) = sorted_drop e.value k es s

keep_upto :
    (lo hi : ℕ) (es : List NumericEntry)
    → All (λ e. lo ≤ e.value) es
    → keep (λ e. leb e.value hi) es ≡ keep (in_bounds lo hi) es
unfolding keep
keep_upto lo hi [] h = refl
keep_upto lo hi (e ∷ es) (le, h) = ground (arith, keep_upto lo hi es h)

-- The part below `lo` holds nothing in the bounds.
keep_between :
    (lo hi k : ℕ) (es : List NumericEntry)
    → All (λ e. e.value < lo) (take k es)
    → keep (in_bounds lo hi) es ≡ keep (in_bounds lo hi) (drop k es)
keep_between lo hi k es h =
    ap (keep (in_bounds lo hi)) (sym (take-append-drop k es))
    ∙ keep-append (in_bounds lo hi) (take k es) (drop k es)
    ∙ ap (λ (t : List NumericEntry). t ++ keep (in_bounds lo hi) (drop k es))
        (keep_none (in_bounds lo hi) (take k es) (All-map (take k es) (λ x l. ground arith) h))

pub search_block-eq :
    (deleted : StrSet) (b lo hi : ℕ) (es : List NumericEntry)
    → SortedFrom b es
    → search_block deleted es lo hi ≡ some (live_ids deleted (keep (in_bounds lo hi) es))
unfolding search_block
search_block-eq deleted b lo hi es s =
    let (k, e, below, above) =
      search_left-splits (suc (length es)) b lo es 0 (length es) s (omega arith) (omega arith)
        (omega arith) tt (drop_none _ es) in
    rw (e, search_block)
      (ap (λ (t : List NumericEntry). some (live_ids deleted t))
        (take_upto-keep 0 hi (drop k es) (sorted_drop b k es s)
          ∙ keep_upto lo hi (drop k es) above
          ∙ sym (keep_between lo hi k es below)))
