-- ===== src/ExecCache/Bounds.antt =====
-- The serving tier of the cache (hegel-c/src/native/exec_cache.rs): its bytes are those of its entries, and bounded.
use hegel_rust.Base.{
  ℕ, ◌+◌, ◌-◌, ◌≤◌, ◌≡◌, refl, sym, ◌∙◌, ap, subst, arith, Bool, true, false, not, ltb, ◌&&◌,
  if◌then◌else◌, List, [], ◌∷◌, ◌++◌, length, Option, none, some,
}
use hegel_rust.ExecCache.{
  Status, eqb_list, CachedRun, ExecCache, lookup, remove, is_some, bound_of, record_verdict, cost,
  evict_loop, insert_run, record_run, serve,
}

eqb_list_refl : (key : List ℕ) → eqb_list key key ≡ true
eqb_list_refl [] = refl
eqb_list_refl (b ∷ key) = ground (arith, eqb_list_refl key)

by_test :
    {A : Type 0} (P : A → Type 0) (b : Bool) (x y : A)
    → (b ≡ true → P x)
    → (b ≡ false → P y)
    → P (if b then x else y)
by_test P true x y p q = p refl
by_test P false x y p q = q refl

module _ {Node Span : Type 0} where
  abbrev pub keys : List (List ℕ × CachedRun Node Span) → List (List ℕ)
  keys [] = []
  keys (entry ∷ full) = entry.0 ∷ keys full

  keys-append : (xs ys : List (List ℕ × CachedRun Node Span)) → keys (xs ++ ys) ≡ keys xs ++ keys ys
  keys-append [] ys = refl
  keys-append (entry ∷ xs) ys = ap (λ l. entry.0 ∷ l) (keys-append xs ys)

  lookup-append :
      (key : List ℕ) (xs ys : List (List ℕ × CachedRun Node Span))
      → lookup eqb_list key xs ≡ none
      → lookup eqb_list key (xs ++ ys) ≡ lookup eqb_list key ys
  lookup-append key [] ys h = refl
  lookup-append key (entry ∷ xs) ys h =
      found (eqb_list key entry.0) h (λ k. lookup-append key xs ys k)
    where
      found :
          (b : Bool)
          → (if b then some entry.1 else lookup eqb_list key xs) ≡ none
          → (lookup eqb_list key xs ≡ none
              → lookup eqb_list key (xs ++ ys) ≡ lookup eqb_list key ys)
          → (if b then some entry.1 else lookup eqb_list key (xs ++ ys)) ≡ lookup eqb_list key ys
      found true h k = absurd (cc h)
      found false h k = k h

  lookup-tail :
      (key : List ℕ) (entry : List ℕ × CachedRun Node Span)
      (xs : List (List ℕ × CachedRun Node Span))
      → lookup eqb_list key (entry ∷ xs) ≡ none
      → lookup eqb_list key xs ≡ none
  lookup-tail key entry xs h = found (eqb_list key entry.0) h
    where
      found :
          (b : Bool)
          → (if b then some entry.1 else lookup eqb_list key xs) ≡ none
          → lookup eqb_list key xs ≡ none
      found true h = absurd (cc h)
      found false h = h

module _ {Node Span : Type 0} (node_size span_size run_size : ℕ) where
  abbrev pub total : List (List ℕ × CachedRun Node Span) → ℕ
  total [] = 0
  total (entry ∷ full) = cost node_size span_size run_size entry.1 (length entry.0) + total full

  total-append :
      (xs ys : List (List ℕ × CachedRun Node Span)) → total (xs ++ ys) ≡ total xs + total ys
  total-append [] ys = omega arith
  total-append (entry ∷ xs) ys = omega (arith, total-append xs ys)

  -- Where the order is that of the entries, the entry that is evicted is the first.
  evict_loop-cons :
      (bound : ℕ) (entry : List ℕ × CachedRun Node Span)
      (full : List (List ℕ × CachedRun Node Span)) (bytes : ℕ)
      → evict_loop node_size span_size run_size bound (entry.0 ∷ keys full) (entry ∷ full) bytes ≡ (
          if ltb bound bytes
          then evict_loop node_size span_size run_size bound
              (keys full)
              full
              (bytes - cost node_size span_size run_size entry.1 (length entry.0))
          else (entry.0 ∷ keys full, entry ∷ full, bytes))
  unfolding evict_loop
  evict_loop-cons bound entry full bytes =
      ap
        (λ b.
          if ltb bound bytes
          then evict_loop node_size span_size run_size bound (keys full)
              (if b then full else entry ∷ remove eqb_list entry.0 full)
              (elim (if b then some entry.1 else lookup eqb_list entry.0 full) [
                | some run ↦ bytes - cost node_size span_size run_size run (length entry.0)
                | none ↦ bytes
              ])
          else (entry.0 ∷ keys full, entry ∷ full, bytes))
        (eqb_list_refl entry.0)

  -- The order is that of the entries, and the bytes are theirs and within the bound.
  pub record IsWithin (bound : ℕ) (order : List (List ℕ))
      (full : List (List ℕ × CachedRun Node Span)) (bytes : ℕ) : Type 0 where
    pub ordered : order ≡ keys full
    pub counted : bytes ≡ total full
    pub bounded : bytes ≤ bound

  evict_loop-IsWithin :
      (bound : ℕ) (full : List (List ℕ × CachedRun Node Span)) (bytes : ℕ)
      → bytes ≡ total full
      → (λ (r : List (List ℕ) × List (List ℕ × CachedRun Node Span) × ℕ).
            IsWithin bound r.0 r.1 r.2)
          (evict_loop node_size span_size run_size bound (keys full) full bytes)
  unfolding evict_loop
  evict_loop-IsWithin bound [] bytes h = record {
    ordered = refl;
    counted = h;
    bounded = omega (arith, h);
  }
  evict_loop-IsWithin bound (entry ∷ full) bytes h =
      subst
        (λ (r : List (List ℕ) × List (List ℕ × CachedRun Node Span) × ℕ).
          IsWithin bound r.0 r.1 r.2)
        (sym (evict_loop-cons bound entry full bytes))
        (by_test
          (λ (r : List (List ℕ) × List (List ℕ × CachedRun Node Span) × ℕ).
            IsWithin bound r.0 r.1 r.2)
          (ltb bound bytes) _ _ (λ _. evict_loop-IsWithin bound full _ (omega (arith, h)))
          (λ e. record { ordered = refl; counted = h; bounded = ground (arith, e) }))

  -- The newest entry stays, if it fits by itself.
  evict_loop-newest :
      (bound : ℕ) (full : List (List ℕ × CachedRun Node Span)) (key : List ℕ)
      (run : CachedRun Node Span) (bytes : ℕ)
      → bytes ≡ total (full ++ ((key, run) ∷ []))
      → lookup eqb_list key full ≡ none
      → cost node_size span_size run_size run (length key) ≤ bound
      → lookup eqb_list key
          (evict_loop node_size span_size run_size bound
            (keys (full ++ ((key, run) ∷ [])))
            (full ++ ((key, run) ∷ []))
            bytes).1
        ≡ some run
  evict_loop-newest bound [] key run bytes h k f =
      ap (λ (r : List (List ℕ) × List (List ℕ × CachedRun Node Span) × ℕ). lookup eqb_list key r.1)
        (evict_loop-cons bound (key, run) [] bytes)
      ∙ by_test
          (λ (r : List (List ℕ) × List (List ℕ × CachedRun Node Span) × ℕ).
            lookup eqb_list key r.1 ≡ some run)
          (ltb bound bytes) _ _ (λ e. absurd (ground (arith, e, h, f)))
          (λ e. ap (λ b. if b then some run else none) (eqb_list_refl key))
  evict_loop-newest bound (entry ∷ full) key run bytes h k f =
      ap (λ (r : List (List ℕ) × List (List ℕ × CachedRun Node Span) × ℕ). lookup eqb_list key r.1)
        (evict_loop-cons bound entry (full ++ ((key, run) ∷ [])) bytes)
      ∙ by_test
          (λ (r : List (List ℕ) × List (List ℕ × CachedRun Node Span) × ℕ).
            lookup eqb_list key r.1 ≡ some run)
          (ltb bound bytes) _ _
          (λ e.
            evict_loop-newest bound full key run _ (omega (arith, h)) (lookup-tail key entry full k)
              f)
          (λ e.
            lookup-append key (entry ∷ full) ((key, run) ∷ []) k
            ∙ ap (λ b. if b then some run else none) (eqb_list_refl key))

  -- The serving tier of a cache within its bound.
  abbrev pub IsBounded : ExecCache Node Span → Type 0
  IsBounded c = IsWithin (bound_of c.max_full_bytes) c.full_order c.full c.full_bytes

  insert_run-IsBounded :
      (key : List ℕ) (run : CachedRun Node Span) (c : ExecCache Node Span)
      → IsBounded c
      → IsBounded (insert_run node_size span_size run_size key run c)
  unfolding insert_run
  insert_run-IsBounded key run c v =
      let full = c.full ++ ((key, run) ∷ []) in
      let bytes = c.full_bytes + cost node_size span_size run_size run (length key) in
      subst
        (λ (order : List (List ℕ)).
          (λ (r : List (List ℕ) × List (List ℕ × CachedRun Node Span) × ℕ).
              IsWithin (bound_of c.max_full_bytes) r.0 r.1 r.2)
            (evict_loop node_size span_size run_size (bound_of c.max_full_bytes) order full bytes))
        (keys-append c.full ((key, run) ∷ []) ∙ ap (λ l. l ++ (key ∷ [])) (sym v.ordered))
        (evict_loop-IsWithin (bound_of c.max_full_bytes) full bytes
          (omega (arith, v.counted, total-append c.full ((key, run) ∷ []))))

  -- Recording a run keeps a cache within its bound: the eviction order is that of the runs that are kept, the count
  -- of bytes is the sum of their costs, and it is at most the bound of the cache.
  pub record_run-IsBounded :
      (key : List ℕ) (status : Status) (origin : Option (List ℕ)) (nodes : List Node)
      (spans : List Span) (keep_full : Bool) (c : ExecCache Node Span)
      → IsBounded c
      → IsBounded
          (record_run node_size span_size run_size key status origin nodes spans keep_full c).1
  unfolding record_run
  record_run-IsBounded key status origin nodes spans keep_full c v =
      let (recorded, verdicts) = record_verdict key status origin c.verdicts in
      let c' : ExecCache Node Span = record c { verdicts = verdicts } in
      let run : CachedRun Node Span = record {
        status = status;
        origin = origin;
        nodes = nodes;
        spans = spans;
      } in
      let v' : IsBounded c' = record {
        ordered = v.ordered;
        counted = v.counted;
        bounded = v.bounded;
      } in
      by_test IsBounded
        (keep_full && not recorded.verdict_mismatch && not (is_some (lookup eqb_list key c'.full)))
        (insert_run node_size span_size run_size key run c') c'
        (λ _. insert_run-IsBounded key run c' v') (λ _. v')

  -- A run that is recorded to be kept, whose verdict is no mismatch and whose choices have no run yet, is served
  -- right after that `record_run`, if it fits the bound by itself: no eviction that makes room for it takes it out.
  pub serve-record_run :
      (key : List ℕ) (status : Status) (origin : Option (List ℕ)) (nodes : List Node)
      (spans : List Span) (c : ExecCache Node Span)
      → IsBounded c
      → (record_verdict key status origin c.verdicts).0.verdict_mismatch ≡ false
      → lookup eqb_list key c.full ≡ none
      → cost node_size span_size run_size
          (record { status = status; origin = origin; nodes = nodes; spans = spans })
          (length key)
        ≤ bound_of c.max_full_bytes
      → serve key (record_run node_size span_size run_size key status origin nodes spans true c).1
        ≡ some (record { status = status; origin = origin; nodes = nodes; spans = spans })
  unfolding record_run insert_run serve
  serve-record_run key status origin nodes spans c v m k f =
      let (recorded, verdicts) = record_verdict key status origin c.verdicts in
      let c' : ExecCache Node Span = record c { verdicts = verdicts } in
      let run : CachedRun Node Span = record {
        status = status;
        origin = origin;
        nodes = nodes;
        spans = spans;
      } in
      let full = c.full ++ ((key, run) ∷ []) in
      let bytes = c.full_bytes + cost node_size span_size run_size run (length key) in
      ap (λ b. serve key (if b then insert_run node_size span_size run_size key run c' else c'))
        (ap (λ b. true && not b && not (is_some (lookup eqb_list key c.full))) m
          ∙ ap (λ (o : Option (CachedRun Node Span)). true && true && not (is_some o)) k)
      ∙ ap
          (λ (order : List (List ℕ)).
            lookup eqb_list key
              (evict_loop node_size span_size run_size (bound_of c.max_full_bytes) order full
                bytes).1)
          (ap (λ l. l ++ (key ∷ [])) v.ordered ∙ sym (keys-append c.full ((key, run) ∷ [])))
      ∙ evict_loop-newest (bound_of c.max_full_bytes) c.full key run bytes
          (omega (arith, v.counted, total-append c.full ((key, run) ∷ []))) k f
