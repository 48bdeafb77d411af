-- ===== src/Paged/Rounds.antt =====
-- The loop of `allocate_prompt` in packages/llmkit/llmkit/simulator/paged.py on a valid pool.
use llm_inference_stack.Prelude.{
  ℕ, zero, suc, ◌+◌, ◌*◌, ◌≤◌, ◌<◌, ◌≡◌, refl, ◌∙◌, ap, sym, String, true, Option, none, some, List,
  [], ◌∷◌, ◌++◌, inl, inr, length, take, drop, count, lookup, count-append, count-append_one,
  Option-cases, arith,
}
use mathlib.Core.Path.{subst₂}
use mathlib.Core.List.{append-nil, append_assoc}
use llm_inference_stack.Exec.{Exec, Result, ok, raise, resume, Ends, returns, exhausted}
use llm_inference_stack.Paged.{Block, PagedKvCache}
use llm_inference_stack.Paged.Cells.{hash_at}
use llm_inference_stack.Paged.Pool.{recount-Pool}
use llm_inference_stack.Paged.Prompt.{Progress, hit, prompt_block, prompt_loop, take_miss, take_hit}
use llm_inference_stack.Paged.Take.{IsValid, SameSetup, SameSetup-refl, SameSetup-trans, Kept}
use llm_inference_stack.Paged.Grow.{Grew, Round, EndsRound, Ends-take_miss, Ends-take_hit}

-- The blocks of a table hold these hashes, in order.
abbrev pub Addressed : List Block → List ℕ → List String → Type 0
Addressed bs [] [] = Unit
Addressed bs (i ∷ table) (h ∷ hashes) = (hash_at bs i ≡ some h) × Addressed bs table hashes
Addressed bs _ _ = ⊥

-- A call that ended by `OutOfBlocks`: the blocks `lost` that it had taken keep their references, and
-- no table names them.
pub record Lost (kv : PagedKvCache) (others lost : List ℕ) (s : PagedKvCache) : Type 0 where
  pub valid : IsValid s (lost ++ others)
  pub setup : SameSetup kv s
  pub kept : Kept kv others s

-- The loop, from the progress `p` to `p'`.
pub record Looped (kv : PagedKvCache) (others : List ℕ) (hashes : List String) (p p' : Progress)
    (s : PagedKvCache) : Type 0 where
  pub new : List ℕ
  pub grown : p'.table ≡ p.table ++ new
  pub addressed : Addressed s.blocks new hashes
  pub valid : IsValid s (p'.table ++ others)
  pub setup : SameSetup kv s
  pub kept : Kept kv (p.table ++ others) s
  -- how many of the rounds were hits
  pub hits : ℕ
  pub bounded : hits ≤ length new
  pub counted : p'.cached_tokens ≡ p.cached_tokens + hits * kv.block_size

-- The loop's variables as the loop leaves them, by its end or by a raise of the round `r`.
abbrev last_progress :
    Result Progress × PagedKvCache → Progress → (Progress → PagedKvCache → Progress) → Progress
last_progress (ok p', s) p rest = rest p' s
last_progress (raise e, s) p rest = p

module _ (hash_block : Option String → List ℕ → String) where
  unfoldable pub reached : ℕ → ℕ → List ℕ → Progress → PagedKvCache → Progress
  unfolding prompt_block
  reached zero i token_ids p kv = p
  reached (suc rounds) i token_ids p kv =
      last_progress
        (prompt_block hash_block (take kv.block_size (drop (i * kv.block_size) token_ids)) p kv) p
        (λ p' s. reached rounds (i + 1) token_ids p' s)

-- The loop ends with its variables as `end`: by a return, or with the blocks of its table lost.
abbrev EndsLoop :
    PagedKvCache
    → List ℕ
    → List String
    → Progress
    → Progress
    → Result Progress × PagedKvCache
    → Type 0
EndsLoop kv others hashes p end =
    Ends (λ p' s. Looped kv others hashes p p' s × (end ≡ p')) (Lost kv others end.table)

pub regroup :
    (others : List ℕ) {kv s : PagedKvCache} {table table' : List ℕ} {new : ℕ}
    → Grew kv (table ++ others) table table' new s
    → IsValid s (table' ++ others)
unfolding count
regroup others {table = table} {table' = table'} {new = new} g =
    recount-Pool g.valid (table' ++ others) λ i. rw g.grown (
      omega (
        arith,
        count-append i table others,
        count-append i (table ++ new ∷ []) others,
        count-append_one i table new,
      ))

pub held_append : (i : ℕ) (xs ys : List ℕ) → 0 < count i ys → 0 < count i (xs ++ ys)
held_append i xs ys h = omega (arith, count-append i xs ys)

Looped-none :
    (others : List ℕ) (p : Progress) (kv : PagedKvCache)
    → IsValid kv (p.table ++ others)
    → Looped kv others [] p p kv
Looped-none others p kv v = record {
  new = [];
  grown = sym (append-nil p.table);
  addressed = tt;
  valid = v;
  setup = SameSetup-refl kv;
  kept = λ i h. refl;
  hits = 0;
  bounded = omega arith;
  counted = omega arith;
}

-- A round is a hit or not.
Round-hits :
    {kv s : PagedKvCache} {held : List ℕ} {bh : String} {p p' : Progress} {new : ℕ}
    → Round kv held bh p p' new s
    → (k : ℕ) × (k ≤ 1) × (p'.cached_tokens ≡ p.cached_tokens + k * kv.block_size)
Round-hits r = elim r.reuse [
  | inl (_, _, e) ↦ (1, omega arith, omega (arith, e))
  | inr (_, e, _) ↦ (0, omega arith, omega (arith, e))
]

-- A round and the rest of the loop.
module _ (others : List ℕ) {kv s : PagedKvCache} {bh : String} {p p' : Progress} {new : ℕ}
    (r : Round kv (p.table ++ others) bh p p' new s) where
  new_held : 0 < count new (p'.table ++ others)
  unfolding count
  new_held = rw r.grew.grown (
      ground
        (arith, count-append new (p.table ++ new ∷ []) others, count-append_one new p.table new))

  Kept-step : (s' : PagedKvCache) → Kept s (p'.table ++ others) s' → Kept kv (p.table ++ others) s'
  unfolding count
  Kept-step s' k i h =
      k i (
        rw r.grew.grown (
          omega (
            arith,
            count-append i p.table others,
            count-append i (p.table ++ new ∷ []) others,
            count-append_one i p.table new,
          )))
      ∙ r.grew.kept i h

  Looped-step :
      {hashes : List String} {p'' : Progress} {s' : PagedKvCache}
      → Looped s others hashes p' p'' s'
      → Looped kv others (bh ∷ hashes) p p'' s'
  Looped-step {s' = s'} l =
      let (k, le, e) = Round-hits r in
      record {
        new = new ∷ l.new;
        grown = simp (l.grown, r.grew.grown, append_assoc);
        addressed = (l.kept new new_held ∙ r.addressed, l.addressed);
        valid = l.valid;
        setup = SameSetup-trans r.grew.setup l.setup;
        kept = Kept-step s' l.kept;
        hits = k + l.hits;
        bounded = omega (arith, le, l.bounded);
        counted = omega (arith, l.counted, e, ap (λ t. l.hits * t) r.grew.setup.block_size);
      }

  Lost-step : {lost : List ℕ} {s' : PagedKvCache} → Lost s others lost s' → Lost kv others lost s'
  Lost-step l = record {
    valid = l.valid;
    setup = SameSetup-trans r.grew.setup l.setup;
    kept = λ i h. l.kept i h ∙ r.grew.kept i (held_append i p.table others h);
  }

  Ends-first_round :
      {hashes : List String} {end : Progress} {e : Result Progress × PagedKvCache}
      → EndsLoop s others hashes p' end e
      → EndsLoop kv others (bh ∷ hashes) p end e
  Ends-first_round (returns p'' s' (l, e)) = returns p'' s' (Looped-step l, e)
  Ends-first_round (exhausted s' l) = exhausted s' (Lost-step l)

module _ (hash_block : Option String → List ℕ → String) where
  -- The chained hashes of `rounds` blocks of a prompt, from block `i` on.
  pub chain : ℕ → List ℕ → ℕ → ℕ → Option String → List String
  chain size token_ids zero i prev = []
  chain size token_ids (suc rounds) i prev =
      let h = hash_block prev (take size (drop (i * size) token_ids)) in
      h ∷ chain size token_ids rounds (i + 1) (some h)

  module _ (chunk : List ℕ) (p : Progress) (kv : PagedKvCache) where
    abbrev bh : String
    bh = hash_block p.prev_hash chunk

    block_miss : hit bh p kv ≡ none → prompt_block hash_block chunk p kv ≡ take_miss bh p kv
    unfolding prompt_block
    block_miss h = rw (h, prompt_block)

    block_hit :
        (j : ℕ) → hit bh p kv ≡ some j → prompt_block hash_block chunk p kv ≡ take_hit bh j p kv
    unfolding prompt_block
    block_hit j h = rw (h, prompt_block)

    hit-some : (j : ℕ) → hit bh p kv ≡ some j → (p.matching ≡ true) × (lookup bh kv.cache ≡ some j)
    hit-some j h = ground arith

  module _ (others : List ℕ) where
    Ends-prompt_block :
        (chunk : List ℕ) (p : Progress) (kv : PagedKvCache)
        → IsValid kv (p.table ++ others)
        → EndsRound kv
            (p.table ++ others)
            (hash_block p.prev_hash chunk)
            p
            (prompt_block hash_block chunk p kv)
    Ends-prompt_block chunk p kv v =
        let bh = hash_block p.prev_hash chunk in
        elim (Option-cases (hit bh p kv)) [
          | inl miss ↦ rw (block_miss chunk p kv miss) (Ends-take_miss bh p kv v)
          | inr (j, found) ↦
              let (on, entry) = hit-some chunk p kv j found in
              rw (block_hit chunk p kv j found) (Ends-take_hit bh p kv v j on entry)
        ]

    -- A first round that raises loses the blocks taken before it.
    Ends-Round :
        {kv : PagedKvCache} {bh : String} {p : Progress} {hashes : List String}
        {r : Result Progress × PagedKvCache} (f : Progress → Exec PagedKvCache Progress)
        (rest : Progress → PagedKvCache → Progress)
        → EndsRound kv (p.table ++ others) bh p r
        → ((p' : Progress) (s : PagedKvCache) (new : ℕ)
            → Round kv (p.table ++ others) bh p p' new s
            → EndsLoop kv others hashes p (rest p' s) (f p' s))
        → EndsLoop kv others hashes p (last_progress r p rest) (resume r f)
    Ends-Round f rest (returns p' s (new, r)) k = k p' s new r
    Ends-Round {p = p} f rest (exhausted s r) k = exhausted s (record {
      valid = r.valid;
      setup = r.setup;
      kept = λ i h. r.kept i (held_append i p.table others h);
    })

    -- The rounds that are left add their blocks, each with the hash that its tokens have.
    pub Ends-prompt_loop :
        (rounds i : ℕ) (token_ids : List ℕ) (p : Progress) (kv : PagedKvCache)
        → IsValid kv (p.table ++ others)
        → EndsLoop kv others
            (chain kv.block_size token_ids rounds i p.prev_hash)
            p
            (reached hash_block rounds i token_ids p kv)
            (prompt_loop hash_block rounds i token_ids p kv)
    unfolding prompt_loop chain reached
    Ends-prompt_loop zero i token_ids p kv v = returns p kv (Looped-none others p kv v, refl)
    Ends-prompt_loop (suc rounds) i token_ids p kv v =
        Ends-Round _ _
          (Ends-prompt_block (take kv.block_size (drop (i * kv.block_size) token_ids)) p kv v)
          (λ p' s new r. Ends-first_round others r (
            subst₂
              (λ size prev.
                EndsLoop s others (chain size token_ids rounds (i + 1) prev) p'
                  (reached hash_block rounds (i + 1) token_ids p' s)
                  (prompt_loop hash_block rounds (i + 1) token_ids p' s))
              r.grew.setup.block_size r.chained
              (Ends-prompt_loop rounds (i + 1) token_ids p' s (regroup others r.grew))))
