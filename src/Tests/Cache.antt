-- ===== src/Tests/Cache.antt =====
-- Concrete runs of the execution cache, with costs of one byte for each node and span.
use hegel_rust.Base.{ℕ, ◌≡◌, refl, arith, true, [], ◌∷◌, none, some}
use hegel_rust.ExecCache.{
  interesting, valid, ExecCache, bound_of, record_verdict, cost, evict_loop, insert_run, record_run,
  serve, digest_of, update,
}
use hegel_rust.ExecCache.Bounds.{IsBounded, record_run-IsBounded, serve-record_run}

abbrev small : ExecCache ℕ ℕ
small = record {
  verdicts = [];
  full = [];
  full_order = [];
  full_bytes = 0;
  max_full_bytes = some 5;
}

small-IsBounded : IsBounded 1 1 1 small
unfolding bound_of
small-IsBounded = record { ordered = refl; counted = refl; bounded = omega arith }

-- The second run takes out the first.
abbrev one : ExecCache ℕ ℕ
one = record {
  verdicts = [];
  full = (7 ∷ [], record { status = valid; origin = none; nodes = 1 ∷ []; spans = [] }) ∷ [];
  full_order = (7 ∷ []) ∷ [];
  full_bytes = 3;
  max_full_bytes = some 5;
}

eviction_run :
    (record_run 1 1 1 (8 ∷ []) valid none (2 ∷ []) [] true one).1.full_order ≡ (8 ∷ []) ∷ []
unfolding record_run record_verdict insert_run evict_loop bound_of cost
eviction_run = refl

one-IsBounded : IsBounded 1 1 1 one
unfolding bound_of cost
one-IsBounded = record { ordered = refl; counted = refl; bounded = omega arith }

record_run-IsBounded_example :
    IsBounded 1 1 1 (record_run 1 1 1 (8 ∷ []) interesting none (2 ∷ []) [] true one).1
record_run-IsBounded_example =
    record_run-IsBounded 1 1 1 (8 ∷ []) interesting none (2 ∷ []) [] true one one-IsBounded

serve-record_run_example :
    serve (8 ∷ []) (record_run 1 1 1 (8 ∷ []) valid none (2 ∷ []) [] true one).1
    ≡ some (record { status = valid; origin = none; nodes = 2 ∷ []; spans = [] })
unfolding record_verdict cost bound_of
serve-record_run_example =
    serve-record_run 1 1 1 (8 ∷ []) valid none (2 ∷ []) [] one one-IsBounded refl refl (omega arith)

-- A key of two bytes, and the digest of the empty one.
digest_runs : digest_of [] ≡ 0x6c62272e07bb014262b821756295c58d
unfolding digest_of update
digest_runs = refl
