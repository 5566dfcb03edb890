-- ===== src/ExecCache.antt =====
-- hegel-c/src/native/exec_cache.rs, `ExecCache`: the runs that were executed, by their choice sequences. A map is the
-- list of its entries, oldest first; a string is the list of its characters. The sizes of the stored records, which
-- the compiler lays out, are parameters.
pub mod Bounds
use Prim.Native.Nat.{bit_xor}
use hegel_rust.Base.{
  ℕ, zero, suc, ◌+◌, ◌-◌, ◌*◌, ◌%◌, ◌^◌, Bool, true, false, not, ltb, ◌==◌, ◌&&◌, ◌||◌,
  if◌then◌else◌, List, [], ◌∷◌, ◌++◌, length, Option, none, some,
}

-- FULL_TIER_MAX_BYTES
abbrev pub full_tier_max_bytes : ℕ
full_tier_max_bytes = 8 * 2 ^ 20

abbrev pub fnv_offset : ℕ
fnv_offset = 0x6c62272e07bb014262b821756295c58d

abbrev pub fnv_prime : ℕ
fnv_prime = 0x0000000001000000000000000000013b

-- The 128-bit product wraps around.
unfoldable pub update : ℕ → List ℕ → ℕ
update digest [] = digest
update digest (b ∷ bytes) = update (bit_xor digest b * fnv_prime % 2 ^ 128) bytes

unfoldable pub digest_of : List ℕ → ℕ
unfolding update
digest_of bytes = update fnv_offset bytes

pub data Status : Type 0 where
  early_stop : Status
  invalid : Status
  valid : Status
  interesting : Status

abbrev pub status_number : Status → ℕ
status_number early_stop = 0
status_number invalid = 1
status_number valid = 2
status_number interesting = 3

abbrev pub eqb_list : List ℕ → List ℕ → Bool
eqb_list [] [] = true
eqb_list [] (_ ∷ _) = false
eqb_list (_ ∷ _) [] = false
eqb_list (x ∷ xs) (y ∷ ys) = x == y && eqb_list xs ys

abbrev pub eqb_origin : Option (List ℕ) → Option (List ℕ) → Bool
eqb_origin none none = true
eqb_origin none (some _) = false
eqb_origin (some _) none = false
eqb_origin (some a) (some b) = eqb_list a b

pub record Verdict : Type 0 where
  pub status : Status
  pub origin : Option (List ℕ)

pub record CachedRun (Node Span : Type 0) : Type 0 where
  pub status : Status
  pub origin : Option (List ℕ)
  pub nodes : List Node
  pub spans : List Span

pub record Recorded : Type 0 where
  pub duplicate : Bool
  pub verdict_mismatch : Bool

pub record ExecCache (Node Span : Type 0) : Type 0 where
  pub verdicts : List (ℕ × Verdict)
  pub full : List (List ℕ × CachedRun Node Span)
  pub full_order : List (List ℕ)
  pub full_bytes : ℕ
  pub max_full_bytes : Option ℕ

abbrev pub lookup : {K V : Type 0} → (K → K → Bool) → K → List (K × V) → Option V
lookup eqb key [] = none
lookup eqb key (entry ∷ entries) =
    let rest = lookup eqb key entries in if eqb key entry.0 then some entry.1 else rest

abbrev pub remove : {K V : Type 0} → (K → K → Bool) → K → List (K × V) → List (K × V)
remove eqb key [] = []
remove eqb key (entry ∷ entries) =
    let rest = remove eqb key entries in if eqb key entry.0 then entries else entry ∷ rest

abbrev pub is_some : {A : Type 0} → Option A → Bool
is_some none = false
is_some (some _) = true

unfoldable pub bound_of : Option ℕ → ℕ
bound_of none = full_tier_max_bytes
bound_of (some bytes) = bytes

-- The verdict tier: what is answered, and the verdicts.
unfoldable pub record_verdict :
    List ℕ → Status → Option (List ℕ) → List (ℕ × Verdict) → Recorded × List (ℕ × Verdict)
unfolding digest_of
record_verdict key status origin verdicts = elim (lookup (λ a b. a == b) (digest_of key) verdicts) [
  | some v ↦ (
    record {
      duplicate = true;
      verdict_mismatch =
          not (status_number v.status == status_number status) || not (eqb_origin v.origin origin);
    },
    verdicts,
  )
  | none ↦ (
    record { duplicate = false; verdict_mismatch = false },
    verdicts ++ ((digest_of key, record { status = status; origin = origin }) ∷ []),
  )
]

module _ {Node Span : Type 0} (node_size span_size run_size : ℕ) where
  unfoldable pub cost : CachedRun Node Span → ℕ → ℕ
  cost run key_len =
      key_len + length run.nodes * node_size + length run.spans * span_size + run_size

  -- The loop that evicts the oldest entries: the order, the entries and the bytes that are left.
  unfoldable pub evict_loop :
      ℕ
      → List (List ℕ)
      → List (List ℕ × CachedRun Node Span)
      → ℕ
      → List (List ℕ) × List (List ℕ × CachedRun Node Span) × ℕ
  unfolding cost
  evict_loop bound [] full bytes = ([], full, bytes)
  evict_loop bound (oldest ∷ order) full bytes =
      let evicted = lookup eqb_list oldest full in
      let more =
        evict_loop bound order (remove eqb_list oldest full)
          (elim evicted [ some run ↦ bytes - cost run (length oldest) | none ↦ bytes ]) in
      if ltb bound bytes then more else (oldest ∷ order, full, bytes)

  -- The serving tier, with a run that it does not have.
  unfoldable pub insert_run :
      List ℕ → CachedRun Node Span → ExecCache Node Span → ExecCache Node Span
  unfolding cost evict_loop bound_of
  insert_run key run c =
      let kept =
        evict_loop (bound_of c.max_full_bytes) (c.full_order ++ (key ∷ []))
          (c.full ++ ((key, run) ∷ [])) (c.full_bytes + cost run (length key)) in
      record c { full_order = kept.0; full = kept.1; full_bytes = kept.2 }

  unfoldable pub record_run :
      List ℕ
      → Status
      → Option (List ℕ)
      → List Node
      → List Span
      → Bool
      → ExecCache Node Span
      → Recorded × ExecCache Node Span
  unfolding record_verdict insert_run
  record_run key status origin nodes spans keep_full c =
      let (recorded, verdicts) = record_verdict key status origin c.verdicts in
      let c' : ExecCache Node Span = record c { verdicts = verdicts } in
      let run : CachedRun Node Span = record {
        status = status;
        origin = origin;
        nodes = nodes;
        spans = spans;
      } in
      (
        recorded,
        if keep_full && not recorded.verdict_mismatch && not (is_some (lookup eqb_list key c'.full))
            then insert_run key run c'
            else c',
      )

module _ {Node Span : Type 0} where
  unfoldable pub serve : List ℕ → ExecCache Node Span → Option (CachedRun Node Span)
  serve key c = lookup eqb_list key c.full

  unfoldable pub clear : ExecCache Node Span → ExecCache Node Span
  clear c = record c { verdicts = []; full = []; full_order = []; full_bytes = 0 }
