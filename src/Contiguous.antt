-- ===== src/Contiguous.antt =====
-- `ContiguousAllocator` of packages/llmkit/llmkit/simulator/paged.py, the baseline of one reservation for
-- each sequence. Tuples are sorted by start and size: with a positive reservation no two slots start at
-- one place, so that owners are never compared.
pub mod Tiling
pub mod Calls
pub mod Undo
pub mod Tests
use llm_inference_stack.Prelude.{
  ℕ, zero, suc, ◌+◌, ◌-◌, String, Bool, true, false, not, ◌&&◌, ◌||◌, Option, none, some, List, [],
  ◌∷◌, ◌++◌, str_eq, leb, ltb, ◌==◌, if◌then◌else◌,
}

pub record Slot : Type 0 where
  pub start : ℕ
  pub size : ℕ
  pub owner : Option String

pub record ContiguousAllocator : Type 0 where
  pub capacity : ℕ
  pub reserve_len : ℕ
  pub slots : List Slot
  pub rejections : ℕ

abbrev pub new_allocator : ℕ → ℕ → ContiguousAllocator
new_allocator capacity reserve_len = record {
  capacity = capacity;
  reserve_len = reserve_len;
  slots = record { start = 0; size = capacity; owner = none } ∷ [];
  rejections = 0;
}

abbrev pub is_free : Slot → Bool
is_free s = elim s.owner [ none ↦ true | some _ ↦ false ]

-- The slots in the place of a free one of which `need` are taken.
unfoldable pub split_slot : ℕ → String → Slot → List Slot
split_slot need seq_id s =
    let taken : Slot = record { start = s.start; size = need; owner = some seq_id } in
    if ltb need s.size
    then taken ∷ record { start = s.start + need; size = s.size - need; owner = none } ∷ []
    else taken ∷ []

-- The loop of `allocate`: the start, and the slots after it.
unfoldable pub first_fit : ℕ → String → List Slot → Option (ℕ × List Slot)
unfolding split_slot
first_fit need seq_id [] = none
first_fit need seq_id (s ∷ slots) =
    let rest = first_fit need seq_id slots in
    if is_free s && leb need s.size
    then some (s.start, split_slot need seq_id s ++ slots)
    else elim rest [ none ↦ none | some r ↦ some (r.0, s ∷ r.1) ]

unfoldable pub reserve : String → ContiguousAllocator → Option ℕ × ContiguousAllocator
unfolding first_fit
reserve seq_id a = elim (first_fit a.reserve_len seq_id a.slots) [
  | none ↦ (none, record a { rejections = a.rejections + 1 })
  | some r ↦ (some r.0, record a { slots = r.1 })
]

-- `owner == seq_id`, where an owner may be missing.
unfoldable pub is_owned : String → Slot → Bool
is_owned seq_id s = elim s.owner [ none ↦ false | some name ↦ str_eq name seq_id ]

unfoldable pub disown : String → List Slot → List Slot
unfolding is_owned
disown seq_id [] = []
disown seq_id (s ∷ slots) =
    (if is_owned seq_id s then record s { owner = none } else s) ∷ disown seq_id slots

-- `sorted`
unfoldable pub insert_slot : Slot → List Slot → List Slot
insert_slot s [] = s ∷ []
insert_slot s (t ∷ slots) =
    if ltb t.start s.start || ((t.start == s.start) && ltb t.size s.size)
    then t ∷ insert_slot s slots
    else s ∷ t ∷ slots

unfoldable pub sort_slots : List Slot → List Slot
unfolding insert_slot
sort_slots [] = []
sort_slots (s ∷ slots) = insert_slot s (sort_slots slots)

-- The loop of `_coalesce`, where `last` is `merged[-1]`.
unfoldable pub merge_slots : Slot → List Slot → List Slot
merge_slots last [] = last ∷ []
merge_slots last (s ∷ slots) =
    let joined =
      merge_slots (record { start = last.start; size = last.size + s.size; owner = none }) slots in
    let apart = merge_slots s slots in
    if (is_free last && is_free s) && (last.start + last.size == s.start)
    then joined
    else last ∷ apart

unfoldable pub merge_all : List Slot → List Slot
unfolding merge_slots
merge_all [] = []
merge_all (s ∷ slots) = merge_slots s slots

unfoldable pub coalesce : ContiguousAllocator → ContiguousAllocator
unfolding sort_slots merge_all
coalesce a = record a { slots = merge_all (sort_slots a.slots) }

unfoldable pub unreserve : String → ContiguousAllocator → ContiguousAllocator
unfolding disown coalesce
unreserve seq_id a = coalesce (record a { slots = disown seq_id a.slots })
